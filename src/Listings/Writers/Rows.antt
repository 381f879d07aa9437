-- ===== src/Listings/Writers/Rows.antt =====
-- Reading a row back (src/db/write-source-listing-revision.ts): what the lookups find after an
-- insert and after an update.
use scraplify.Base.{
  Bool, true, false, ◌||◌, ◌≡◌, refl, Option, none, some, List, [], ◌∷◌, ◌++◌, String, string_eq,
  any, All, arith, beq_refl, Bool-cases, inl, inr, subst,
}
use scraplify.Listings.Model.{SourceListing}
use scraplify.Listings.Writers.{
  SourceListingIdentity, find_row, conflicts_by, matches_by, matches, insert_or_ignore,
  update_listing, has_id,
}

module _ {ℓ} {A : Type ℓ} (p : A → Bool) where
  pub any-append : (xs ys : List A) → any p (xs ++ ys) ≡ (any p xs || any p ys)
  any-append [] ys = refl
  any-append (x ∷ xs) ys = ground (arith, any-append xs ys)

  pub any-weaken :
      (q : A → Bool) (xs : List A)
      → ((x : A) → q x ≡ true → p x ≡ true)
      → any q xs ≡ true
      → any p xs ≡ true
  any-weaken q [] h e = cc
  any-weaken q (x ∷ xs) h e = ground (arith, h x, any-weaken q xs h)

  pub find_row-found : (xs : List A) → any p xs ≡ true → (x : A) × (find_row p xs ≡ some x)
  find_row-found [] e = absurd (ground arith)
  find_row-found (x ∷ xs) e = elim (Bool-cases (p x)) [
    | inl here ↦ (x, ground arith)
    | inr later ↦ let (y, f) = find_row-found xs (ground arith) in (y, ground arith)
  ]

  pub find_row-true : (xs : List A) (x : A) → find_row p xs ≡ some x → p x ≡ true
  find_row-true [] x e = absurd (ground arith)
  find_row-true (y ∷ xs) x e = ground (arith, find_row-true xs x)

  pub any-found : (xs : List A) (x : A) → find_row p xs ≡ some x → any p xs ≡ true
  any-found [] x e = absurd (ground arith)
  any-found (y ∷ xs) x e = ground (arith, any-found xs x)

  pub find_row-All {κ} :
      (P : A → Type κ) (xs : List A) (x : A) → All P xs → find_row p xs ≡ some x → P x
  find_row-All P [] x h e = absurd (ground arith)
  find_row-All P (y ∷ xs) x (h, hs) e = elim (Bool-cases (p y)) [
    | inl here ↦ subst P (ground arith) h
    | inr later ↦ find_row-All P xs x hs (ground arith)
  ]

  -- A row at the end that the others do not hide.
  pub find_row-last :
      (xs : List A) (x : A) → any p xs ≡ false → p x ≡ true → find_row p (xs ++ x ∷ []) ≡ some x
  find_row-last [] x e h = ground arith
  find_row-last (y ∷ xs) x e h = ground (arith, find_row-last xs x)

-- A conflicting row is one that the lookup selects.
conflicts-matches :
    (key : Option String) (identity : SourceListingIdentity) (l : SourceListing)
    → conflicts_by key identity l ≡ true
    → matches_by key identity l ≡ true
conflicts-matches none identity l h = ground arith
conflicts-matches (some k) identity l h = h

-- The row that would be inserted has the identity.
abbrev pub Identifies : SourceListingIdentity → SourceListing → Type 0
Identifies identity row =
    (row.source_id ≡ identity.source_id)
    × (row.source_record_id ≡ identity.source_record_id)
    × (row.canonical_source_url ≡ identity.canonical_source_url)

Identifies-matches :
    (identity : SourceListingIdentity) (row : SourceListing)
    → Identifies identity row
    → (key : Option String) → identity.source_record_id ≡ key
    → matches_by key identity row ≡ true
Identifies-matches identity row (a, b, c) none e =
    ground (arith, a, c, beq_refl identity.source_id, beq_refl identity.canonical_source_url)
Identifies-matches identity row (a, b, c) (some k) e =
    rw (b, e) (ground (arith, a, beq_refl identity.source_id, beq_refl k))

-- After insert-or-ignore the lookup finds a row.
pub matches-insert_or_ignore :
    (identity : SourceListingIdentity) (row : SourceListing) (rows : List SourceListing)
    → Identifies identity row
    → any (matches identity) (insert_or_ignore identity row rows) ≡ true
matches-insert_or_ignore identity row rows h =
    let key = identity.source_record_id in
    let own : matches identity row ≡ true = Identifies-matches identity row h key refl in
    let old =
      any-weaken (matches identity) (conflicts_by key identity) rows
        (conflicts-matches key identity) in
    ground (arith, any-append (matches identity) rows (row ∷ []))

-- An update that keeps the ids keeps a row of each id.
pub has_id-update_listing :
    (id other : String) (f : SourceListing → SourceListing)
    → ((l : SourceListing) → (f l).id ≡ l.id)
    → (rows : List SourceListing) → any (has_id id) rows ≡ true
    → any (has_id id) (update_listing other f rows) ≡ true
has_id-update_listing id other f h [] e = e
has_id-update_listing id other f h (l ∷ rows) e =
    ground (arith, h l, has_id-update_listing id other f h rows)

pub has_id-found :
    (p : SourceListing → Bool) (rows : List SourceListing) (l : SourceListing)
    → find_row p rows ≡ some l
    → any (has_id l.id) rows ≡ true
has_id-found p [] l e = absurd (ground arith)
has_id-found p (r ∷ rows) l e = ground (arith, has_id-found p rows l, beq_refl l.id)
