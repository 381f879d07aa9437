-- ===== src/RealEstate/Expiry/Archive.antt =====
-- Nothing is lost by deleting (src/realestate/expiry.ts, `deleteLongGoneListings`).
use scraplify.Base.{
  ℕ, ◌+◌, ◌≡◌, Bool, true, not, ◌||◌, List, [], ◌∷◌, ◌++◌, String, string_eq, ◌==◌, length, filter,
  any, arith, eq_of_beq, Bool-cases, inl, inr, refl, subst,
}
use scraplify.RealEstate.Expiry.{
  RealEstateListing, PriceChange, Catalogue, is_doomed, belongs, insert_new,
  delete_long_gone_listings,
}
use scraplify.Listings.Writers.Rows.{any-append}

module _ {ℓ} {A : Type ℓ} (key : A → String) where
  abbrev pub holds : String → List A → Bool
  holds id xs = any (λ x. key x == id) xs

  holds-insert_new :
      (id : String) (xs stored : List A)
      → holds id (insert_new key xs stored) ≡ (holds id stored || holds id xs)
  holds-insert_new id [] stored = ground arith
  holds-insert_new id (x ∷ xs) stored = elim (Bool-cases (any (λ y. key y == key x) stored)) [
    | inl there ↦
        let own : (key x == id) ≡ true → holds id stored ≡ true =
          λ e. subst (λ k. holds k stored ≡ true) (eq_of_beq (key x) id e) there in
        let rest = holds-insert_new id xs stored in rw there (ground arith)
    | inr absent ↦
        let rest = holds-insert_new id xs (stored ++ x ∷ []) in
        let last = any-append (λ y. key y == id) stored (x ∷ []) in rw absent (ground arith)
  ]

  holds-filter :
      (p : A → Bool) (id : String) (xs : List A)
      → holds id xs ≡ (holds id (filter (λ x. not (p x)) xs) || holds id (filter p xs))
  holds-filter p id [] = refl
  holds-filter p id (x ∷ xs) = ground (arith, holds-filter p id xs)

  length-filter-not :
      (p : A → Bool) (xs : List A)
      → length (filter (λ x. not (p x)) xs) + length (filter p xs) ≡ length xs
  length-filter-not p [] = refl
  length-filter-not p (x ∷ xs) = ground (arith, length-filter-not p xs)

-- The ids of listings, and of price changes.
abbrev pub holds_listing : String → List RealEstateListing → Bool
holds_listing id rows = holds (λ (l : RealEstateListing). l.id) id rows

abbrev pub holds_change : String → List PriceChange → Bool
holds_change id rows = holds (λ (c : PriceChange). c.id) id rows

-- Deleting what is long gone loses nothing: the listings that the catalogue or the archive holds
-- are, by their ids, the same before and after, and so are the price changes; and the number that
-- is returned is the number of listings that left the catalogue.
pub delete_long_gone_listings-keeps :
    (source_id : String) (as_of : ℕ) (t : Catalogue)
    → let t' = (delete_long_gone_listings source_id as_of t).0 in
      (length t'.listings + (delete_long_gone_listings source_id as_of t).1 ≡ length t.listings)
      × ((id : String)
          → (holds_listing id t'.listings || holds_listing id t'.archive)
            ≡ (holds_listing id t.listings || holds_listing id t.archive))
      × ((id : String)
          → (holds_change id t'.price_changes || holds_change id t'.archived_changes)
            ≡ (holds_change id t.price_changes || holds_change id t.archived_changes))
unfolding delete_long_gone_listings
delete_long_gone_listings-keeps source_id as_of t =
    let doomed = filter (is_doomed source_id as_of) t.listings in
    let key = λ (l : RealEstateListing). l.id in
    let change = λ (c : PriceChange). c.id in
    (
      length-filter-not key (is_doomed source_id as_of) t.listings,
      λ id. ground (
        arith,
        holds-insert_new key id doomed t.archive,
        holds-filter key (is_doomed source_id as_of) id t.listings,
      ),
      λ id. ground (
        arith,
        holds-insert_new change id (filter (belongs doomed) t.price_changes) t.archived_changes,
        holds-filter change (belongs doomed) id t.price_changes,
      ),
    )
