-- ===== src/Listings/Writers/Updates.antt =====
-- An update of the row that was locked (src/db/write-source-listing-revision.ts): what it keeps of
-- the ids and of the identity.
use scraplify.Base.{
  ℕ, ◌++◌, Bool, true, false, ◌≡◌, refl, Option, none, some, List, [], ◌∷◌, String, string_eq, any,
  arith, eq_of_beq, beq_refl, Bool-cases, inl, inr,
}
use scraplify.Listings.Model.{SourceListing, SourceListingStatus}
use scraplify.Listings.Writers.{
  discovered_row, ensure_listing, SourceListingIdentity, ListingTables, find_row, has_id,
  update_listing, matches, matches_by, conflicts_by,
}
use scraplify.Listings.Writers.Write.{Observation, next_status, is_reopening}
use scraplify.Listings.Writers.Rows.{any-append, has_id-found, find_row-true}

-- The primary key.
abbrev pub DistinctIds : List SourceListing → Type 0
DistinctIds [] = Unit
DistinctIds (l ∷ rows) = (any (has_id l.id) rows ≡ false) × DistinctIds rows

-- An update of the found row, found again by the same lookup.
find_row-update_listing :
    (p : SourceListing → Bool) (f : SourceListing → SourceListing) (rows : List SourceListing)
    (l : SourceListing)
    → DistinctIds rows
    → find_row p rows ≡ some l
    → p (f l) ≡ true
    → find_row p (update_listing l.id f rows) ≡ some (f l)
find_row-update_listing p f [] l d e h = absurd (ground arith)
find_row-update_listing p f (r ∷ rows) l (d, ds) e h = elim (Bool-cases (p r)) [
  | inl here ↦ let same : r ≡ l = ground arith in ground (arith, beq_refl l.id, same)
  | inr later ↦
      let rest : find_row p rows ≡ some l = ground arith in
      ground (
        arith,
        find_row-update_listing p f rows l ds rest h,
        has_id-found p rows l rest,
        eq_of_beq r.id l.id,
      )
]

pub update_listing-twice :
    (id : String) (f g : SourceListing → SourceListing)
    → ((l : SourceListing) → f (g l) ≡ g l)
    → ((l : SourceListing) → (g l).id ≡ l.id)
    → (rows : List SourceListing)
    → update_listing id f (update_listing id g rows) ≡ update_listing id g rows
update_listing-twice id f g h k [] = refl
update_listing-twice id f g h k (l ∷ rows) =
    ground (arith, h l, k l, update_listing-twice id f g h k rows)

any-update_listing :
    (p : SourceListing → Bool) (id : String) (f : SourceListing → SourceListing)
    → ((l : SourceListing) → p l ≡ true → p (f l) ≡ true)
    → (rows : List SourceListing) → any p rows ≡ true
    → any p (update_listing id f rows) ≡ true
any-update_listing p id f h [] e = e
any-update_listing p id f h (l ∷ rows) e = ground (arith, h l, any-update_listing p id f h rows)

pub next_status-twice :
    (allow : Bool) (s : SourceListingStatus)
    → next_status allow (next_status allow s) ≡ next_status allow s
next_status-twice allow s = ground arith

pub next_status-reopened :
    (allow : Bool) (s : SourceListingStatus) → is_reopening allow (next_status allow s) ≡ false
next_status-reopened allow s = ground arith

-- An update that keeps the identity, or sets the URL that the identity has.
abbrev pub KeepsIdentity : SourceListingIdentity → (SourceListing → SourceListing) → Type 0
KeepsIdentity identity f =
    (key : Option String)
    → (l : SourceListing)
    → (conflicts_by key identity l ≡ true → conflicts_by key identity (f l) ≡ true)
      × (matches_by key identity l ≡ true → matches_by key identity (f l) ≡ true)

pub set_url-KeepsIdentity :
    (identity : SourceListingIdentity) (f : SourceListing → SourceListing)
    → ((l : SourceListing)
        → ((f l).source_id ≡ l.source_id)
          × ((f l).source_record_id ≡ l.source_record_id)
          × ((f l).canonical_source_url ≡ identity.canonical_source_url))
    → KeepsIdentity identity f
set_url-KeepsIdentity identity f h none l =
    let (a, b, c) = h l in
    (
      (λ k. ground (arith, a, b, c, beq_refl identity.canonical_source_url)),
      (λ k. ground (arith, a, b, c, beq_refl identity.canonical_source_url)),
    )
set_url-KeepsIdentity identity f h (some k) l =
    let (a, b, c) = h l in ((λ m. rw (a, b) m), (λ m. rw (a, b) m))

find_row-has_id :
    (p : SourceListing → Bool) (rows : List SourceListing) (l : SourceListing)
    → DistinctIds rows
    → find_row p rows ≡ some l
    → find_row (has_id l.id) rows ≡ some l
find_row-has_id p [] l d e = absurd (ground arith)
find_row-has_id p (r ∷ rows) l (d, ds) e = elim (Bool-cases (p r)) [
  | inl here ↦ let same : r ≡ l = ground arith in ground (arith, beq_refl l.id, same)
  | inr later ↦
      let rest : find_row p rows ≡ some l = ground arith in
      ground
        (arith, find_row-has_id p rows l ds rest, has_id-found p rows l rest, eq_of_beq r.id l.id)
]

-- A call whose update succeeded: what it returned, and what a second call reads.
abbrev pub Updated :
    Observation → SourceListing → (SourceListing → SourceListing) → ListingTables → Type 0
Updated o l g t =
    (find_row (has_id l.id) (update_listing l.id g t.listings) ≡ some (g l))
    × (find_row (matches o.identity) (update_listing l.id g t.listings) ≡ some (g l))
    × (any (conflicts_by o.identity.source_record_id o.identity) (update_listing l.id g t.listings)
        ≡ true)

pub update-Updated :
    (o : Observation) (l : SourceListing) (g : SourceListing → SourceListing) (t : ListingTables)
    → KeepsIdentity o.identity g
    → ((l : SourceListing) → (g l).id ≡ l.id)
    → DistinctIds t.listings
    → find_row (matches o.identity) t.listings ≡ some l
    → any (conflicts_by o.identity.source_record_id o.identity) t.listings ≡ true
    → Updated o l g t
update-Updated o l g t keeps ids d found conflict =
    let key = o.identity.source_record_id in
    let own : has_id l.id (g l) ≡ true = ground (arith, ids l, beq_refl l.id) in
    (
      find_row-update_listing (has_id l.id) g t.listings l d
          (find_row-has_id (matches o.identity) t.listings l d found) own,
      find_row-update_listing (matches o.identity) g t.listings l d found
          ((keeps key l).1 (find_row-true (matches o.identity) t.listings l found)),
      any-update_listing (conflicts_by key o.identity) l.id g (λ r. (keeps key r).0) t.listings
          conflict,
    )

append-DistinctIds :
    (rows : List SourceListing) (row : SourceListing)
    → any (has_id row.id) rows ≡ false
    → DistinctIds rows
    → DistinctIds (rows ++ row ∷ [])
append-DistinctIds [] row h d = (refl, tt)
append-DistinctIds (l ∷ rows) row h (d, ds) = (
  ground (arith, any-append (has_id l.id) rows (row ∷ []), eq_of_beq row.id l.id, beq_refl l.id),
  append-DistinctIds rows row (ground arith) ds,
)

conflicts-discovered_row :
    (identity : SourceListingIdentity) (id : String) (at : ℕ) (published deadline : Option ℕ)
    (key : Option String)
    → identity.source_record_id ≡ key
    → conflicts_by key identity (discovered_row id identity at published deadline) ≡ true
conflicts-discovered_row identity id at published deadline none e =
    ground (arith, e, beq_refl identity.source_id, beq_refl identity.canonical_source_url)
conflicts-discovered_row identity id at published deadline (some k) e =
    rw e (ground (arith, beq_refl identity.source_id, beq_refl k))

-- After the insert: the ids are still distinct, and an insert would conflict.
pub ensure_listing-again :
    (identity : SourceListingIdentity) (id : String) (at : ℕ) (published deadline : Option ℕ)
    (t : ListingTables)
    → any (has_id id) t.listings ≡ false
    → DistinctIds t.listings
    → let rows = (ensure_listing identity id at published deadline t).listings in
      DistinctIds rows × (any (conflicts_by identity.source_record_id identity) rows ≡ true)
ensure_listing-again identity id at published deadline t unused d =
    let key = identity.source_record_id in
    let row = discovered_row id identity at published deadline in
    elim (Bool-cases (any (conflicts_by key identity) t.listings)) [
      | inl present ↦ rw present (d, present)
      | inr absent ↦ rw absent (
        append-DistinctIds t.listings row unused d,
        ground (
          arith,
          any-append (conflicts_by key identity) t.listings (row ∷ []),
          conflicts-discovered_row identity id at published deadline key refl,
        ),
      )
    ]
