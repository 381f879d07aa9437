-- ===== src/Listings/Reconcile/Rows.antt =====
-- What one reconciliation pass of src/db/reconcile-source-listings.ts does to each row: its two
-- UPDATE statements, one after the other, as one function of the row.
use scraplify.Base.{
  ℕ, ◌+◌, ◌≡◌, refl, sym, subst, Bool, true, false, not, ◌&&◌, List, [], ◌∷◌, map, String,
  string_eq, ◌==◌, ltb, if◌then◌else◌, filter, has, All, length-map, arith, beq_refl, Bool-cases,
  inl, inr,
}
use mathlib.Core.Path.{ap₂}
use scraplify.Listings.Model.{SourceListing, missing_suspected, closed, CrawlRun, is_open_status}
use scraplify.Listings.Reconcile.{
  Tables, CloseMissingListingsInput, is_missed, is_closable, advance, update_where, count_where,
  close_missing, closure_cap,
}

-- A row after the pass.
abbrev pub settle : CrawlRun → ℕ → Bool → SourceListing → SourceListing
settle run threshold capped l =
    if is_missed run l
    then advance run
        (if ltb (l.missing_streak + 1) threshold
          then missing_suspected
          else if capped
          then missing_suspected
          else closed)
        l
    else l

-- A row that the pass has touched is not missed by the same run again.
pub is_missed-settle :
    (run : CrawlRun) (threshold : ℕ) (capped : Bool) (l : SourceListing)
    → is_missed run (settle run threshold capped l) ≡ false
is_missed-settle run threshold capped l = ground arith

module _ (run : CrawlRun) (threshold : ℕ) where
  abbrev Listed : List String → SourceListing → Type 0
  Listed ids l = is_closable run threshold l ≡ true → has l.id ids ≡ true

  abbrev closable_ids : List SourceListing → List String
  closable_ids rows = map (λ (l : SourceListing). l.id) (filter (is_closable run threshold) rows)

  Listed-cons :
      (i : String) (ids : List String) (rows : List SourceListing)
      → All (Listed ids) rows
      → All (Listed (i ∷ ids)) rows
  Listed-cons i ids [] h = tt
  Listed-cons i ids (l ∷ rows) (h, hs) = ((λ c. ground (arith, h c)), Listed-cons i ids rows hs)

  All-Listed : (rows : List SourceListing) → All (Listed (closable_ids rows)) rows
  All-Listed [] = tt
  All-Listed (l ∷ rows) = elim (Bool-cases (is_closable run threshold l)) [
    | inl chosen ↦
        let ids : closable_ids (l ∷ rows) ≡ l.id ∷ closable_ids rows = rw chosen in
        subst (λ is. All (Listed is) (l ∷ rows)) (sym ids)
          (
            (λ c. ground (arith, beq_refl l.id)),
            Listed-cons l.id (closable_ids rows) rows (All-Listed rows),
          )
    | inr other ↦
        let ids : closable_ids (l ∷ rows) ≡ closable_ids rows = rw other in
        subst (λ is. All (Listed is) (l ∷ rows)) (sym ids) ((λ c. cc), All-Listed rows)
  ]

  module _ (ids : List String) (capped : Bool) where
    abbrev is_chosen : SourceListing → Bool
    is_chosen l = is_closable run threshold l && has l.id ids

    abbrev is_suspected : SourceListing → Bool
    is_suspected l = is_missed run l && ltb (l.missing_streak + 1) threshold

    row-settle :
        (l : SourceListing)
        → Listed ids l
        → (let l' =
              if is_chosen l
              then advance run (if capped then missing_suspected else closed) l
              else l in
            if is_suspected l' then advance run missing_suspected l' else l')
          ≡ settle run threshold capped l
    row-settle l h = ground arith

    updates-settle :
        (rows : List SourceListing)
        → All (Listed ids) rows
        → update_where is_suspected (advance run missing_suspected) (
            update_where is_chosen
              (advance run (if capped then missing_suspected else closed))
              rows)
          ≡ map (settle run threshold capped) rows
    updates-settle [] h = refl
    updates-settle (l ∷ rows) (h, hs) =
        ap₂ (λ x xs. x ∷ xs) (row-settle l h) (updates-settle rows hs)

    -- The rows that the first UPDATE touches are the candidates that were counted.
    pub count-is_chosen :
        (rows : List SourceListing)
        → All (Listed ids) rows
        → count_where is_chosen rows ≡ count_where (is_closable run threshold) rows
    count-is_chosen [] h = refl
    count-is_chosen (l ∷ rows) (h, hs) = ground (arith, count-is_chosen rows hs)

-- The listings after a pass, row by row.
pub listings-close_missing :
    (run : CrawlRun) (input : CloseMissingListingsInput) (now : ℕ) (t : Tables)
    → (close_missing run input now t).0.listings
      ≡ map
          (settle run input.missing_streak_threshold
            (close_missing run input now t).1.closure_capped)
          t.listings
unfolding close_missing
listings-close_missing run input now t =
    let threshold = input.missing_streak_threshold in
    updates-settle run threshold (closable_ids run threshold t.listings) _ t.listings
      (All-Listed run threshold t.listings)

-- How many listings a pass closes, and when its cap stops it.
pub closed_count-close_missing :
    (run : CrawlRun) (input : CloseMissingListingsInput) (now : ℕ) (t : Tables)
    → let r = (close_missing run input now t).1 in
      let closable = count_where (is_closable run input.missing_streak_threshold) t.listings in
      let cap =
        closure_cap
          (count_where (λ l. l.source_id == run.source_id && is_open_status l.status) t.listings) in
      (r.closed_count ≡ (if r.closure_capped then 0 else closable))
      × (r.closure_capped ≡ (not input.allow_mass_closure && ltb cap closable))
unfolding close_missing
closed_count-close_missing run input now t =
    let threshold = input.missing_streak_threshold in
    let ids = closable_ids run threshold t.listings in
    let same =
      count-is_chosen run threshold ids true t.listings (All-Listed run threshold t.listings) in
    let lengths =
      length-map (λ (l : SourceListing). l.id) (filter (is_closable run threshold) t.listings) in
    (rw same refl, rw lengths refl)
