-- ===== src/Listings/Writers/Locking.antt =====
-- No writer throws (src/db/write-source-listing-revision.ts): the row is there under the lock, so
-- is its current revision, and the update returns it.
use scraplify.Base.{
  ℕ, Bool, true, false, ◌&&◌, eq_of_beq, ◌≡◌, refl, Option, none, some, List, [], ◌∷◌, ◌++◌, String,
  string_eq, ◌==◌, ltb, any, All, arith, beq_refl, Bool-cases, inl, inr, ap, ◌∙◌,
}
use scraplify.Listings.Model.{SourceListing}
use scraplify.Listings.Writers.{
  SourceListingIdentity, SourceListingRevision, ListingTables, WriteResult, ok, update_returning,
  returning, find_row, has_id, update_listing, ensure_listing, matches, discovered_row,
  conflicts_by,
}
use scraplify.Listings.Writers.Write.{
  Observation, write_source_listing_revision, write_locked, write_read, write_under_lock,
  insert_revision, is_revision, current_revision, some_if_found, new_revision, with_outcome, stale,
  WriteOutcome, same_content, repointed, refreshed, first_seen,
}
use scraplify.Listings.Writers.Rows.{
  any-append, find_row-found, find_row-All, matches-insert_or_ignore, has_id-update_listing,
  has_id-found,
}

-- The current revision, if any, is a row of the revision table.
abbrev pub HasRevision : List SourceListingRevision → Option String → Type 0
HasRevision revisions none = Unit
HasRevision revisions (some id) = any (is_revision id) revisions ≡ true

abbrev pub IsConsistent : ListingTables → Type 0
IsConsistent t =
    All (λ (l : SourceListing). HasRevision t.revisions l.current_revision_id) t.listings

-- The ownership key `(id, current_revision_id)`: the current revision, if any, is stored as one of
-- the listing's own.
abbrev pub is_owned : String → String → SourceListingRevision → Bool
is_owned listing_id id r = r.id == id && r.source_listing_id == listing_id

abbrev pub OwnsRevision : List SourceListingRevision → String → Option String → Type 0
OwnsRevision revisions listing_id none = Unit
OwnsRevision revisions listing_id (some id) = any (is_owned listing_id id) revisions ≡ true

abbrev pub Owns : List SourceListingRevision → SourceListing → Type 0
Owns revisions l = OwnsRevision revisions l.id l.current_revision_id

abbrev pub IsOwned : ListingTables → Type 0
IsOwned t = All (Owns t.revisions) t.listings

-- A call that returned, and left tables that keep the ownership key.
abbrev pub Returns {ℓ} : {A : Type ℓ} → WriteResult (ListingTables × A) → Type ℓ
Returns {A} w = (t : ListingTables) × (result : A) × (w ≡ ok (t, result)) × IsOwned t

any-of_owned :
    (listing_id id : String) (revisions : List SourceListingRevision)
    → any (is_owned listing_id id) revisions ≡ true
    → any (is_revision id) revisions ≡ true
any-of_owned listing_id id [] h = cc
any-of_owned listing_id id (r ∷ rs) h = ground (arith, any-of_owned listing_id id rs)

HasRevision-of_owned :
    (revisions : List SourceListingRevision) (listing_id : String) (id : Option String)
    → OwnsRevision revisions listing_id id
    → HasRevision revisions id
HasRevision-of_owned revisions listing_id none h = tt
HasRevision-of_owned revisions listing_id (some id) h = any-of_owned listing_id id revisions h

IsConsistent-of_owned :
    (revisions : List SourceListingRevision) (rows : List SourceListing)
    → All (Owns revisions) rows
    → All (λ (l : SourceListing). HasRevision revisions l.current_revision_id) rows
IsConsistent-of_owned revisions [] h = tt
IsConsistent-of_owned revisions (l ∷ rows) (h, hs) = (
  HasRevision-of_owned revisions l.id l.current_revision_id h,
  IsConsistent-of_owned revisions rows hs,
)

later-OwnsRevision :
    (revisions : List SourceListingRevision) (r : SourceListingRevision) (listing_id : String)
    (id : Option String)
    → OwnsRevision revisions listing_id id
    → OwnsRevision (revisions ++ r ∷ []) listing_id id
later-OwnsRevision revisions r listing_id none h = tt
later-OwnsRevision revisions r listing_id (some id) h =
    ground (arith, any-append (is_owned listing_id id) revisions (r ∷ []))

later-IsOwned :
    (revisions : List SourceListingRevision) (r : SourceListingRevision) (rows : List SourceListing)
    → All (Owns revisions) rows
    → All (Owns (revisions ++ r ∷ [])) rows
later-IsOwned revisions r [] h = tt
later-IsOwned revisions r (l ∷ rows) (h, hs) =
    (later-OwnsRevision revisions r l.id l.current_revision_id h, later-IsOwned revisions r rows hs)

-- Updates that leave the current revision alone, or set it to one of the listing's own.
update-IsOwned :
    (revisions : List SourceListingRevision) (id : String) (f : SourceListing → SourceListing)
    → ((l : SourceListing) → l.id ≡ id → Owns revisions l → Owns revisions (f l))
    → (rows : List SourceListing) → All (Owns revisions) rows
    → All (Owns revisions) (update_listing id f rows)
update-IsOwned revisions id f k [] h = tt
update-IsOwned revisions id f k (l ∷ rows) (h, hs) = elim (Bool-cases (l.id == id)) [
  | inl same ↦ rw same (k l (eq_of_beq l.id id same) h, update-IsOwned revisions id f k rows hs)
  | inr other ↦ rw other (h, update-IsOwned revisions id f k rows hs)
]

append-All :
    (P : SourceListing → Type 0) (row : SourceListing) (rows : List SourceListing)
    → P row
    → All P rows
    → All P (rows ++ row ∷ [])
append-All P row [] k h = (k, tt)
append-All P row (l ∷ rows) k (h, hs) = (h, append-All P row rows k hs)

-- The insert that each writer starts with, of a row without a revision.
ensure_listing-All :
    (P : List SourceListingRevision → SourceListing → Type 0) (identity : SourceListingIdentity)
    (id : String) (at : ℕ) (published deadline : Option ℕ) (t : ListingTables)
    → P t.revisions (discovered_row id identity at published deadline)
    → All (P t.revisions) t.listings
    → All
        (P (ensure_listing identity id at published deadline t).revisions)
        (ensure_listing identity id at published deadline t).listings
ensure_listing-All P identity id at published deadline t new h =
    elim (Bool-cases (any (conflicts_by identity.source_record_id identity) t.listings)) [
      | inl present ↦ rw present h
      | inr absent ↦ rw absent (
          append-All (P t.revisions) (discovered_row id identity at published deadline) t.listings
            new h)
    ]

pub ensure_listing-IsConsistent :
    (identity : SourceListingIdentity) (id : String) (at : ℕ) (published deadline : Option ℕ)
    (t : ListingTables)
    → IsConsistent t
    → IsConsistent (ensure_listing identity id at published deadline t)
ensure_listing-IsConsistent identity id at published deadline t h =
    ensure_listing-All (λ revisions l. HasRevision revisions l.current_revision_id) identity id at
      published deadline t tt h

module _ {ℓ} {A : Type ℓ} where
  -- An update of a row that was found returns it.
  pub update_returning-Returns :
      (id : String) (f : SourceListing → SourceListing) (t : ListingTables)
      (result : SourceListing → A)
      → ((l : SourceListing) → (f l).id ≡ l.id)
      → ((l : SourceListing) → l.id ≡ id → Owns t.revisions l → Owns t.revisions (f l))
      → any (has_id id) t.listings ≡ true
      → IsOwned t
      → Returns (update_returning id f t result)
  update_returning-Returns id f t result h k m c =
      let (l, found) =
        find_row-found (has_id id) (update_listing id f t.listings)
          (has_id-update_listing id id f h t.listings m) in
      (
        record t { listings = update_listing id f t.listings },
        result l,
        ap (returning (record t { listings = update_listing id f t.listings }) result) found,
        update-IsOwned t.revisions id f k t.listings c,
      )

insert_revision-Returns :
    (o : Observation) (outcome : WriteOutcome) (locked : SourceListing) (t : ListingTables)
    → any (has_id locked.id) t.listings ≡ true
    → IsOwned t
    → Returns (insert_revision o outcome locked t)
insert_revision-Returns o outcome locked t m c =
    let r = new_revision o.revision_id locked.id o.content o.observed_at in
    let t' = record t { revisions = t.revisions ++ r ∷ [] } in
    update_returning-Returns locked.id
      (repointed o.identity o.content o.observed_at o.allow_reopen o.revision_id) t' _ (λ l. refl)
      (λ l own h. ground (
        arith,
        any-append (is_owned l.id o.revision_id) t.revisions (r ∷ []),
        beq_refl o.revision_id,
        beq_refl l.id,
      ))
      m (later-IsOwned t.revisions r t.listings c)

write_under_lock-Returns :
    (o : Observation) (locked : SourceListing) (current : Option SourceListingRevision)
    (t : ListingTables)
    → any (has_id locked.id) t.listings ≡ true
    → IsOwned t
    → Returns (write_under_lock o locked current t)
write_under_lock-Returns o locked none t m c = insert_revision-Returns o _ locked t m c
write_under_lock-Returns o locked (some r) t m c =
    elim (Bool-cases (ltb o.observed_at locked.last_seen_at)) [
      | inl late ↦ elim (Bool-cases (ltb o.observed_at locked.first_seen_at)) [
        | inl first ↦
            rw (late, first)
              (update_returning-Returns locked.id (first_seen o.observed_at) t
                (with_outcome stale r false) (λ l. refl) (λ l own h. h) m c)
        | inr later ↦ rw (late, later) (t, with_outcome stale r false locked, refl, c)
      ]
      | inr fresh ↦ elim (Bool-cases (same_content r o.content)) [
        | inl same ↦
            rw (fresh, same)
              (update_returning-Returns locked.id
                (refreshed o.identity o.observed_at o.allow_reopen) t _ (λ l. refl) (λ l own h. h) m
                c)
        | inr differs ↦ rw (fresh, differs) (insert_revision-Returns o _ locked t m c)
      ]
    ]

current_revision-found :
    (revisions : List SourceListingRevision) (id : Option String)
    → HasRevision revisions id
    → (current : Option SourceListingRevision) × (current_revision revisions id ≡ some current)
current_revision-found revisions none h = (none, refl)
current_revision-found revisions (some id) h =
    let (r, found) = find_row-found (is_revision id) revisions h in (some r, ap some_if_found found)

-- The row that a writer locks after its insert, and that row's revision.
pub locked_row :
    (identity : SourceListingIdentity) (id : String) (at : ℕ) (published deadline : Option ℕ)
    (t : ListingTables)
    → IsConsistent t
    → let t' = ensure_listing identity id at published deadline t in
      (l : SourceListing) × (current : Option SourceListingRevision) × (find_row
          (matches identity)
          t'.listings
        ≡ some l)
      × (current_revision t'.revisions l.current_revision_id ≡ some current)
locked_row identity id at published deadline t c =
    let t' = ensure_listing identity id at published deadline t in
    let c' = ensure_listing-IsConsistent identity id at published deadline t c in
    let (l, found) = find_row-found (matches identity) t'.listings (
      matches-insert_or_ignore identity (discovered_row id identity at published deadline)
        t.listings (refl, refl, refl)) in
    let (current, read) =
      current_revision-found t'.revisions l.current_revision_id
        (find_row-All (matches identity) _ t'.listings l c' found) in
    (l, current, found, read)

-- If every listing's current revision is stored as one of its own, a write returns: the listing is
-- there under the lock, its revision is found and the update gives a row back. In the tables it
-- leaves every current revision is stored again as its listing's own.
pub write_source_listing_revision-Returns :
    (o : Observation) (t : ListingTables) → IsOwned t → Returns (write_source_listing_revision o t)
unfolding write_source_listing_revision
write_source_listing_revision-Returns o t c =
    let at = o.observed_at in
    let published = o.content.published_date in
    let deadline = o.content.deadline_date in
    let t' = ensure_listing o.identity o.listing_id at published deadline t in
    let c' = ensure_listing-All Owns o.identity o.listing_id at published deadline t tt c in
    let (l, current, found, read) =
      locked_row o.identity o.listing_id at published deadline t
        (IsConsistent-of_owned t.revisions t.listings c) in
    let (u, result, e, k) =
      write_under_lock-Returns o l current t'
        (has_id-found (matches o.identity) t'.listings l found) c' in
    (u, result, ap (λ q. write_locked o q t') found ∙ (ap (λ q. write_read o l q t') read ∙ e), k)
