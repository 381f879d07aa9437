-- ===== src/Listings/Writers/Steps.antt =====
-- The three writers as steps of the lifecycle (src/db/write-source-listing-revision.ts).
use scraplify.Base.{
  ℕ, Bool, true, false, ◌≤◌, ◌≡◌, refl, Option, none, some, List, [], ◌∷◌, ◌++◌, String, string_eq,
  ltb, any, arith, Bool-cases, inl, inr, is_none, ap, ◌∙◌,
}
use scraplify.Listings.Model.{SourceListing}
use scraplify.Listings.Writers.{
  SourceListingIdentity, SourceListingRevision, ListingTables, WriteResult, ok, update_returning,
  returning, find_row, has_id, update_listing, ensure_listing, matches, discovered_row,
}
use scraplify.Listings.Writers.Write.{
  Observation, stale, write_source_listing_revision, write_locked, write_read, write_under_lock,
  current_revision, some_if_found, is_revision, same_content, repointed, refreshed, first_seen,
  next_status, with_outcome, new_revision,
}
use scraplify.Listings.Writers.Sightings.{
  touch_source_listing_seen, quarantine_source_listing, update_seen, sighted, quarantine,
  seen_result,
}
use scraplify.Listings.Writers.Rows.{
  find_row-found, has_id-found, has_id-update_listing, matches-insert_or_ignore,
}
use scraplify.Listings.Writers.Updates.{ensure_listing-again, DistinctIds}
use scraplify.Listings.Writers.Locking.{IsConsistent, locked_row}
use scraplify.Listings.Writers.Lifecycle.{
  Writer, touching, quarantining, writing, checks_staleness, RowStep, RowSteps, stays, unreliable,
  kept-RowSteps, update-RowSteps, touched-Edge, written-Edge,
}

-- A call that returned tables whose rows are those of `rows`, each after a step.
abbrev pub Follows {ℓ} :
    {A : Type ℓ} → Writer → List SourceListing → WriteResult (ListingTables × A) → Type ℓ
Follows {A} w rows result =
    (t : ListingTables) × (a : A) × (result ≡ ok (t, a)) × RowSteps w rows t.listings

module _ (w : Writer) (p : SourceListing → Bool) where
  update_returning-Follows {ℓ} :
      {A : Type ℓ} (f : SourceListing → SourceListing) (t : ListingTables)
      (result : SourceListing → A) (l : SourceListing)
      → DistinctIds t.listings
      → find_row p t.listings ≡ some l
      → ((r : SourceListing) → (f r).id ≡ r.id)
      → RowStep w l (f l)
      → Follows w t.listings (update_returning l.id f t result)
  update_returning-Follows f t result l d found k s =
      let t' : ListingTables = record t { listings = update_listing l.id f t.listings } in
      let (l', again) =
        find_row-found (has_id l.id) t'.listings
          (has_id-update_listing l.id l.id f k t.listings (has_id-found p t.listings l found)) in
      (
        t',
        result l',
        ap (returning t' result) again,
        update-RowSteps w p f t.listings l d found (k l) s,
      )

  update_seen-Follows :
      (at : ℕ) (f : SourceListing → SourceListing) (l : SourceListing) (t : ListingTables)
      → DistinctIds t.listings
      → find_row p t.listings ≡ some l
      → ((r : SourceListing) → (f r).id ≡ r.id)
      → (l.last_seen_at ≤ at → RowStep w l (f l))
      → Follows w t.listings (update_seen at f (find_row p t.listings) t)
  update_seen-Follows at f l t d found k s = elim (Bool-cases (ltb at l.last_seen_at)) [
    | inl late ↦ rw (found, late) (t, seen_result true l, refl, kept-RowSteps w t.listings)
    | inr fresh ↦
        rw (found, fresh)
          (update_returning-Follows f t (seen_result false) l d found k (s (ground arith)))
  ]

module _ (identity : SourceListingIdentity) (id : String) (at : ℕ) (t : ListingTables)
    (d : DistinctIds t.listings) (unused : any (has_id id) t.listings ≡ false) where
  touch_source_listing_seen-Follows :
      Follows touching
        (ensure_listing identity id at none none t).listings
        (touch_source_listing_seen identity id at t)
  unfolding touch_source_listing_seen
  touch_source_listing_seen-Follows =
      let t' = ensure_listing identity id at none none t in
      let (l, found) = find_row-found (matches identity) t'.listings (
        matches-insert_or_ignore identity (discovered_row id identity at none none) t.listings
          (refl, refl, refl)) in
      update_seen-Follows touching (matches identity) at (sighted identity at) l t'
        (ensure_listing-again identity id at none none t unused d).0 found (λ r. refl)
        (λ le. record { edge = touched-Edge l.status; forward = λ h. le; earlier = omega arith })

  quarantine_source_listing-Follows :
      Follows quarantining
        (ensure_listing identity id at none none t).listings
        (quarantine_source_listing identity id at t)
  unfolding quarantine_source_listing
  quarantine_source_listing-Follows =
      let t' = ensure_listing identity id at none none t in
      let (l, found) = find_row-found (matches identity) t'.listings (
        matches-insert_or_ignore identity (discovered_row id identity at none none) t.listings
          (refl, refl, refl)) in
      update_seen-Follows quarantining (matches identity) at (quarantine identity at) l t'
        (ensure_listing-again identity id at none none t unused d).0 found (λ r. refl)
        (λ le. record { edge = unreliable l.status; forward = λ h. le; earlier = omega arith })

  -- Where no two listings share an id and the new listing's id is unused, a sighting and a
  -- quarantine return. After the insert of a row that was not known, a sighting moves a row at most
  -- from `missing_suspected` to `active`, and a quarantine one at most to `quarantined`; every other
  -- status stays, no `lastSeenAt` decreases and no `firstSeenAt` increases.
  pub sightings_follow :
      Follows touching
        (ensure_listing identity id at none none t).listings
        (touch_source_listing_seen identity id at t)
      × Follows quarantining
          (ensure_listing identity id at none none t).listings
          (quarantine_source_listing identity id at t)
  sightings_follow = (touch_source_listing_seen-Follows, quarantine_source_listing-Follows)

-- No revision was read: the row has none.
no_revision :
    (revisions : List SourceListingRevision) (id : Option String)
    → current_revision revisions id ≡ some none
    → is_none id ≡ true
no_revision revisions none e = refl
no_revision revisions (some id) e = read (find_row (is_revision id) revisions) e
  where
    read : (found : Option SourceListingRevision) → some_if_found found ≡ some none → false ≡ true
    read none e = absurd (ground arith)
    read (some r) e = absurd (ground arith)

written-RowStep :
    (o : Observation) (l l' : SourceListing)
    → l'.status ≡ next_status o.allow_reopen l.status
    → l'.first_seen_at ≡ l.first_seen_at
    → l'.last_seen_at ≡ o.observed_at
    → (checks_staleness (writing o.allow_reopen) l ≡ true → l.last_seen_at ≤ o.observed_at)
    → RowStep (writing o.allow_reopen) l l'
written-RowStep o l l' s f n h = record {
  edge = rw s (written-Edge o.allow_reopen l.status);
  forward = λ c. omega (arith, h c, n);
  earlier = omega (arith, f);
}

write_under_lock-Follows :
    (o : Observation) (p : SourceListing → Bool) (l : SourceListing)
    (current : Option SourceListingRevision) (t : ListingTables)
    → current_revision t.revisions l.current_revision_id ≡ some current
    → DistinctIds t.listings
    → find_row p t.listings ≡ some l
    → Follows (writing o.allow_reopen) t.listings (write_under_lock o l current t)
write_under_lock-Follows o p l none t read d found =
    let absent = no_revision t.revisions l.current_revision_id read in
    update_returning-Follows (writing o.allow_reopen) p
      (repointed o.identity o.content o.observed_at o.allow_reopen o.revision_id)
      (record t {
        revisions = t.revisions ++ new_revision o.revision_id l.id o.content o.observed_at ∷ [];
      })
      _ l d found (λ r. refl) (written-RowStep o l _ refl refl refl (λ h. ground (arith, absent)))
write_under_lock-Follows o p l (some r) t read d found =
    elim (Bool-cases (ltb o.observed_at l.last_seen_at)) [
      | inl late ↦ elim (Bool-cases (ltb o.observed_at l.first_seen_at)) [
        | inl first ↦
            rw (late, first)
              (update_returning-Follows (writing o.allow_reopen) p (first_seen o.observed_at) t
                (with_outcome stale r false) l d found (λ q. refl)
                (record { edge = stays _ _; forward = λ h. omega arith; earlier = ground arith }))
        | inr later ↦
            rw (late, later) (t, with_outcome stale r false l, refl, kept-RowSteps _ t.listings)
      ]
      | inr fresh ↦
          let later : l.last_seen_at ≤ o.observed_at = ground arith in
          elim (Bool-cases (same_content r o.content)) [
            | inl same ↦
                rw (fresh, same)
                  (update_returning-Follows (writing o.allow_reopen) p
                    (refreshed o.identity o.observed_at o.allow_reopen) t _ l d found (λ q. refl)
                    (written-RowStep o l _ refl refl refl (λ h. later)))
            | inr differs ↦
                rw (fresh, differs)
                  (update_returning-Follows (writing o.allow_reopen) p
                    (repointed o.identity o.content o.observed_at o.allow_reopen o.revision_id)
                    (record t {
                      revisions =
                          t.revisions
                          ++ new_revision o.revision_id l.id o.content o.observed_at ∷ [];
                    })
                    _ l d found (λ q. refl) (written-RowStep o l _ refl refl refl (λ h. later)))
          ]
    ]

-- If every current revision is stored, no two listings share an id and the new listing's id is
-- unused, a write returns. After the insert of a row that was not known, each row keeps its status
-- or moves from `discovered` or `missing_suspected` to `active`, and from `closed`, `expired` or
-- `quarantined` to `active` only where `allowReopen` is set. The `lastSeenAt` of a row with a
-- current revision does not decrease, and no `firstSeenAt` increases.
pub write_source_listing_revision-Follows :
    (o : Observation) (t : ListingTables)
    → IsConsistent t
    → DistinctIds t.listings
    → any (has_id o.listing_id) t.listings ≡ false
    → Follows
        (writing o.allow_reopen)
        (ensure_listing o.identity o.listing_id o.observed_at o.content.published_date
          o.content.deadline_date t).listings
        (write_source_listing_revision o t)
unfolding write_source_listing_revision
write_source_listing_revision-Follows o t c d unused =
    let at = o.observed_at in
    let published = o.content.published_date in
    let deadline = o.content.deadline_date in
    let t' = ensure_listing o.identity o.listing_id at published deadline t in
    let d' = (ensure_listing-again o.identity o.listing_id at published deadline t unused d).0 in
    let (l, current, found, read) = locked_row o.identity o.listing_id at published deadline t c in
    let (u, r, e, steps) =
      write_under_lock-Follows o (matches o.identity) l current t' read d' found in
    (u, r, ap (λ q. write_locked o q t') found ∙ (ap (λ q. write_read o l q t') read ∙ e), steps)
