-- ===== src/Listings/Writers/Retry.antt =====
-- A write that is retried (src/db/write-source-listing-revision.ts): the second call finds the row
-- and the revision of the first.
use scraplify.Base.{
  ℕ, true, false, ◌≡◌, refl, ap, ◌∙◌, Option, none, some, [], ◌∷◌, ◌++◌, String, string_eq, ltb,
  any, arith, beq_refl, Bool-cases, inl, inr,
}
use scraplify.Listings.Model.{SourceListing}
use scraplify.Listings.Writers.{
  SourceListingIdentity, SourceListingRevision, ListingTables, WriteResult, ok, find_row, has_id,
  update_listing, ensure_listing, matches, conflicts_by,
}
use scraplify.Listings.Writers.Write.{
  Observation, WriteSourceListingRevisionResult, write_source_listing_revision, write_locked,
  write_read, write_under_lock, insert_revision, write_unchanged, reject_stale, is_revision,
  current_revision, some_if_found, new_revision, with_outcome, WriteOutcome, new, changed,
  unchanged, stale, same_content, repointed, refreshed, first_seen, is_reopening,
}
use scraplify.Listings.Writers.Rows.{find_row-last}
use scraplify.Listings.Writers.Updates.{
  ensure_listing-again, DistinctIds, KeepsIdentity, update_listing-twice, next_status-twice,
  next_status-reopened, set_url-KeepsIdentity, update-Updated,
}
use scraplify.Listings.Writers.Locking.{IsConsistent, locked_row}

-- The tables that a first call leaves, as far as the second call reads them.
record Left (o : Observation) (t : ListingTables) (r : WriteSourceListingRevisionResult)
    : Type 0 where
  conflict : any (conflicts_by o.identity.source_record_id o.identity) t.listings ≡ true
  found : find_row (matches o.identity) t.listings ≡ some r.source_listing
  read : current_revision t.revisions r.source_listing.current_revision_id ≡ some (some r.revision)

-- The same observation, retried with the ids of the second call.
abbrev pub retried : Observation → String → String → Observation
retried o listing_id revision_id = record o { listing_id = listing_id; revision_id = revision_id }

abbrev pub retry_outcome : WriteOutcome → WriteOutcome
retry_outcome stale = stale
retry_outcome _ = unchanged

-- The result of the retry: the same rows, and nothing reopened.
abbrev pub retry_result : WriteSourceListingRevisionResult → WriteSourceListingRevisionResult
retry_result r = record r { outcome = retry_outcome r.outcome; reopened = false }

abbrev Retries : Observation → ListingTables → WriteSourceListingRevisionResult → Type 0
Retries o t r =
    (listing_id revision_id : String)
    → write_source_listing_revision (retried o listing_id revision_id) t ≡ ok (t, retry_result r)

Left-Retries :
    (o : Observation) (t : ListingTables) (r : WriteSourceListingRevisionResult)
    → Left o t r
    → ((listing_id revision_id : String)
        → write_under_lock (retried o listing_id revision_id) r.source_listing (some r.revision) t
          ≡ ok (t, retry_result r))
    → Retries o t r
unfolding write_source_listing_revision
Left-Retries o t r left settled x y =
    let o' = retried o x y in
    rw left.conflict (
      ap (λ q. write_locked o' q t) left.found
      ∙ (ap (λ q. write_read o' r.source_listing q t) left.read ∙ settled x y))

-- A call that returned, and whose retry changes nothing.
abbrev pub Settles :
    Observation → WriteResult (ListingTables × WriteSourceListingRevisionResult) → Type 0
Settles o w =
    (t : ListingTables) × (r : WriteSourceListingRevisionResult) × (w ≡ ok (t, r)) × Retries o t r

insert_revision-Settles :
    (o : Observation) (outcome : WriteOutcome) (l : SourceListing) (t : ListingTables)
    → retry_outcome outcome ≡ unchanged
    → any (is_revision o.revision_id) t.revisions ≡ false
    → DistinctIds t.listings
    → find_row (matches o.identity) t.listings ≡ some l
    → any (conflicts_by o.identity.source_record_id o.identity) t.listings ≡ true
    → Settles o (insert_revision o outcome l t)
insert_revision-Settles o outcome l t written unused d found conflict =
    let g = repointed o.identity o.content o.observed_at o.allow_reopen o.revision_id in
    let f = refreshed o.identity o.observed_at o.allow_reopen in
    let revision = new_revision o.revision_id l.id o.content o.observed_at in
    let result = with_outcome outcome revision (is_reopening o.allow_reopen l.status) (g l) in
    let t' : ListingTables = record {
      listings = update_listing l.id g t.listings;
      revisions = t.revisions ++ revision ∷ [];
    } in
    let (own, again, still) =
      update-Updated o l g t (set_url-KeepsIdentity o.identity g (λ r. (refl, refl, refl)))
        (λ r. refl) d found conflict in
    let same : same_content revision o.content ≡ true =
      ground
        (arith, beq_refl o.content.parser_version, beq_refl o.content.meaningful_content_hash) in
    let tie : ltb o.observed_at o.observed_at ≡ false = ground arith in
    let twice : update_listing l.id f t'.listings ≡ t'.listings =
      update_listing-twice l.id f g (λ r. rw (next_status-twice o.allow_reopen r.status) refl)
        (λ r. refl) t.listings in
    (
      t',
      result,
      rw own refl,
      Left-Retries o t' result
          (record {
            conflict = still;
            found = again;
            read = ap some_if_found (
                find_row-last (is_revision o.revision_id) t.revisions revision unused
                  (beq_refl o.revision_id));
          })
          (λ x y.
            rw (tie, same, twice, own, written, next_status-reopened o.allow_reopen l.status) refl),
    )

write_unchanged-Settles :
    (o : Observation) (l : SourceListing) (revision : SourceListingRevision) (t : ListingTables)
    → current_revision t.revisions l.current_revision_id ≡ some (some revision)
    → same_content revision o.content ≡ true
    → DistinctIds t.listings
    → find_row (matches o.identity) t.listings ≡ some l
    → any (conflicts_by o.identity.source_record_id o.identity) t.listings ≡ true
    → Settles o (write_unchanged o l revision t)
write_unchanged-Settles o l revision t read same d found conflict =
    let f = refreshed o.identity o.observed_at o.allow_reopen in
    let result = with_outcome unchanged revision (is_reopening o.allow_reopen l.status) (f l) in
    let t' : ListingTables = record t { listings = update_listing l.id f t.listings } in
    let (own, again, still) =
      update-Updated o l f t (set_url-KeepsIdentity o.identity f (λ r. (refl, refl, refl)))
        (λ r. refl) d found conflict in
    let tie : ltb o.observed_at o.observed_at ≡ false = ground arith in
    let twice : update_listing l.id f t'.listings ≡ t'.listings =
      update_listing-twice l.id f f (λ r. rw (next_status-twice o.allow_reopen r.status) refl)
        (λ r. refl) t.listings in
    (
      t',
      result,
      rw own refl,
      Left-Retries o t' result (record { conflict = still; found = again; read = read })
          (λ x y. rw (tie, same, twice, own, next_status-reopened o.allow_reopen l.status) refl),
    )

first_seen-KeepsIdentity :
    (identity : SourceListingIdentity) (at : ℕ) → KeepsIdentity identity (first_seen at)
first_seen-KeepsIdentity identity at none l = ((λ h. h), (λ h. h))
first_seen-KeepsIdentity identity at (some k) l = ((λ h. h), (λ h. h))

reject_stale-Settles :
    (o : Observation) (l : SourceListing) (revision : SourceListingRevision) (t : ListingTables)
    → ltb o.observed_at l.last_seen_at ≡ true
    → current_revision t.revisions l.current_revision_id ≡ some (some revision)
    → DistinctIds t.listings
    → find_row (matches o.identity) t.listings ≡ some l
    → any (conflicts_by o.identity.source_record_id o.identity) t.listings ≡ true
    → Settles o (reject_stale o.observed_at l revision t)
reject_stale-Settles o l revision t late read d found conflict =
    elim (Bool-cases (ltb o.observed_at l.first_seen_at)) [
      | inl first ↦
          let f = first_seen o.observed_at in
          let t' : ListingTables = record t { listings = update_listing l.id f t.listings } in
          let result = with_outcome stale revision false (f l) in
          let (own, again, still) =
            update-Updated o l f t (first_seen-KeepsIdentity o.identity o.observed_at) (λ r. refl) d
              found conflict in
          let tie : ltb o.observed_at o.observed_at ≡ false = ground arith in
          (
            t',
            result,
            rw (first, own) refl,
            Left-Retries o t' result (record { conflict = still; found = again; read = read })
                (λ x y. rw (late, tie) refl),
          )
      | inr later ↦
          let result = with_outcome stale revision false l in
          (
            t,
            result,
            rw later refl,
            Left-Retries o t result (record { conflict = conflict; found = found; read = read })
                (λ x y. rw (late, later) refl),
          )
    ]

write_under_lock-Settles :
    (o : Observation) (l : SourceListing) (current : Option SourceListingRevision)
    (t : ListingTables)
    → current_revision t.revisions l.current_revision_id ≡ some current
    → any (is_revision o.revision_id) t.revisions ≡ false
    → DistinctIds t.listings
    → find_row (matches o.identity) t.listings ≡ some l
    → any (conflicts_by o.identity.source_record_id o.identity) t.listings ≡ true
    → Settles o (write_under_lock o l current t)
write_under_lock-Settles o l none t read unused d found conflict =
    insert_revision-Settles o new l t refl unused d found conflict
write_under_lock-Settles o l (some r) t read unused d found conflict =
    elim (Bool-cases (ltb o.observed_at l.last_seen_at)) [
      | inl late ↦ rw late (reject_stale-Settles o l r t late read d found conflict)
      | inr fresh ↦ elim (Bool-cases (same_content r o.content)) [
        | inl same ↦ rw (fresh, same) (write_unchanged-Settles o l r t read same d found conflict)
        | inr differs ↦
            rw (fresh, differs) (insert_revision-Settles o changed l t refl unused d found conflict)
      ]
    ]

-- Take tables in which every current revision is stored and no two listings share an id, and a
-- write whose two random ids are unused. The write returns, and the same observation written
-- again, whatever random ids are drawn then, leaves the tables exactly as the first write left
-- them: it reports `unchanged`, or `stale` if the first did, with the same listing and revision,
-- and reopens nothing.
pub write_source_listing_revision-Settles :
    (o : Observation) (t : ListingTables)
    → IsConsistent t
    → DistinctIds t.listings
    → any (has_id o.listing_id) t.listings ≡ false
    → any (is_revision o.revision_id) t.revisions ≡ false
    → Settles o (write_source_listing_revision o t)
unfolding write_source_listing_revision
write_source_listing_revision-Settles o t c d unused_listing unused_revision =
    let at = o.observed_at in
    let published = o.content.published_date in
    let deadline = o.content.deadline_date in
    let t' = ensure_listing o.identity o.listing_id at published deadline t in
    let (d', conflict) =
      ensure_listing-again o.identity o.listing_id at published deadline t unused_listing d in
    let (l, current, found, read) = locked_row o.identity o.listing_id at published deadline t c in
    let (u, r, e, again) =
      write_under_lock-Settles o l current t' read unused_revision d' found conflict in
    (u, r, ap (λ q. write_locked o q t') found ∙ (ap (λ q. write_read o l q t') read ∙ e), again)
