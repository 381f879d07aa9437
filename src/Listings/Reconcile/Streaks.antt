-- ===== src/Listings/Reconcile/Streaks.antt =====
-- How many misses close a listing (src/db/reconcile-source-listings.ts).
use mathlib.Core.Option.{some-injective}
use scraplify.Base.{
  Bool-cases, Option, ℕ, suc, ◌+◌, ◌≤◌, ◌≡◌, refl, sym, ap, ◌∙◌, subst, Bool, true, false, ◌&&◌,
  ◌||◌, not, any, nat_eq, ◌⊎◌, some, none, List, [], ◌∷◌, string_eq, ◌==◌, ltb, if◌then◌else◌, All,
  arith, inl, inr, beq_refl, eq_of_beq,
}
use scraplify.Listings.Model.{
  is_open_status, SourceListing, SourceListingStatus, missing_suspected, closed, CrawlRun,
  completed, is_closed_status, is_completed,
}
use scraplify.Listings.Reconcile.{
  Tables, CloseMissingListingsInput, CloseMissingListingsResult, ok, advance, before, is_missed,
  close_missing_listings, find_run,
}
use scraplify.Listings.Reconcile.Misses.{
  RowStep, kept, suspects, closes, RowSteps, done, row, close_missing_listings-Settled,
}

-- Passes with one threshold, each of which returned, and their runs, the last one first.
pub data Passes (threshold : ℕ) (t : Tables) : List CrawlRun → Tables → Type 0 where
  start : Passes threshold t [] t
  pass :
      {runs : List CrawlRun} {u v : Tables} {r : CloseMissingListingsResult}
      → (input : CloseMissingListingsInput) → (now : ℕ) → (run : CrawlRun)
      → Passes threshold t runs u
      → input.missing_streak_threshold ≡ threshold
      → find_run input.crawl_run_id u.runs ≡ some run
      → close_missing_listings input now u ≡ ok (v, r)
      → Passes threshold t (run ∷ runs) v

-- A run of the listing's source that completed, covered the source and did not see the listing.
abbrev pub misses : CrawlRun → SourceListing → Bool
misses run l =
    run.source_id == l.source_id
    && is_completed run.status
    && run.full_coverage
    && ltb l.last_seen_at run.started_at

abbrev pub is_counted : CrawlRun → List CrawlRun → SourceListing → Bool
is_counted run runs l = any (λ r. misses r l && r.started_at == run.started_at) runs

-- How many of the runs missed the listing, those that started at one time counted once.
abbrev pub miss_count : List CrawlRun → SourceListing → ℕ
miss_count [] l = 0
miss_count (run ∷ runs) l =
    (if misses run l && not (is_counted run runs l) then 1 else 0) + miss_count runs l

-- Each run that missed an open listing is recorded on it, or a later one is.
abbrev IsReconciled : List CrawlRun → SourceListing → Type 0
IsReconciled [] l = Unit
IsReconciled (r ∷ runs) l =
    (misses r l ≡ true
      → (is_open_status l.status ≡ false) ⊎ (before l.last_reconciled_at r.started_at ≡ false))
    × IsReconciled runs l

-- What the passes leave of a listing: a closed one has a full streak, and each miss of the streak was
-- one of a run.
abbrev Missed : ℕ → List CrawlRun → SourceListing → Type 0
Missed threshold runs l =
    (is_closed_status l.status ≡ true → threshold ≤ l.missing_streak)
    × (l.missing_streak ≤ miss_count runs l)
    × IsReconciled runs l

misses-of_missed :
    (run : CrawlRun) (l : SourceListing)
    → run.status ≡ completed
    → run.full_coverage ≡ true
    → is_missed run l ≡ true
    → misses run l ≡ true
misses-of_missed run l c f m =
    let late : ltb l.last_seen_at run.started_at ≡ true = ground arith in
    let source : l.source_id ≡ run.source_id = eq_of_beq l.source_id run.source_id (ground arith) in
    rw (late, c, f, source, beq_refl run.source_id) refl

-- A run that may still count a miss of a listing is not among those that did.
not_counted :
    (run : CrawlRun) (runs : List CrawlRun) (l : SourceListing)
    → is_missed run l ≡ true
    → IsReconciled runs l
    → is_counted run runs l ≡ false
not_counted run [] l m h = refl
not_counted run (r ∷ runs) l m (h, hs) =
    let ih : is_counted run runs l ≡ false = not_counted run runs l m hs in
    elim (Bool-cases (misses r l)) [
      | inr saw ↦ rw (saw, ih) refl
      | inl missed ↦ elim (Bool-cases (r.started_at == run.started_at)) [
        | inr another ↦ rw (missed, another, ih) refl
        | inl same ↦
            let one : r.started_at ≡ run.started_at = eq_of_beq r.started_at run.started_at same in
            elim (h missed) [
              | inl shut ↦ absurd (ground arith)
              | inr recorded ↦
                  let again : before l.last_reconciled_at run.started_at ≡ false =
                    ap (before l.last_reconciled_at) (sym one) ∙ recorded in
                  absurd (ground arith)
            ]
      ]
    ]

counted :
    (run : CrawlRun) (runs : List CrawlRun) (l : SourceListing)
    → misses run l ≡ true
    → is_counted run runs l ≡ false
    → miss_count (run ∷ runs) l ≡ suc (miss_count runs l)
counted run runs l h k = rw (h, k) (omega arith)

later_count :
    (run : CrawlRun) (runs : List CrawlRun) (l : SourceListing)
    → miss_count runs l ≤ miss_count (run ∷ runs) l
later_count run runs l = omega arith

is_counted-advance :
    (r : CrawlRun) (runs : List CrawlRun) (run : CrawlRun) (status : SourceListingStatus)
    (l : SourceListing)
    → is_counted r runs (advance run status l) ≡ is_counted r runs l
is_counted-advance r [] run status l = refl
is_counted-advance r (q ∷ runs) run status l =
    ap (λ b. (misses q l && q.started_at == r.started_at) || b)
      (is_counted-advance r runs run status l)

recorded_later :
    (recorded : Option ℕ) (at now : ℕ)
    → before recorded at ≡ false
    → before recorded now ≡ true
    → before (some now) at ≡ false
recorded_later none at now h k = ground arith
recorded_later (some t) at now h k = ground arith

-- A pass leaves what tells a miss.
miss_count-advance :
    (runs : List CrawlRun) (run : CrawlRun) (status : SourceListingStatus) (l : SourceListing)
    → miss_count runs (advance run status l) ≡ miss_count runs l
miss_count-advance [] run status l = refl
miss_count-advance (r ∷ runs) run status l =
    rw (is_counted-advance r runs run status l, miss_count-advance runs run status l) refl

-- A pass that counts a miss records its run, which no run before it comes after.
advance-IsReconciled :
    (runs : List CrawlRun) (run : CrawlRun) (status : SourceListingStatus) (l : SourceListing)
    → is_missed run l ≡ true
    → IsReconciled runs l
    → IsReconciled runs (advance run status l)
advance-IsReconciled [] run status l m h = tt
advance-IsReconciled (r ∷ runs) run status l m (h, hs) = (
  (λ missed. elim (h missed) [
    | inl shut ↦ absurd (ground arith)
    | inr recorded ↦
        inr
          (recorded_later l.last_reconciled_at r.started_at run.started_at recorded (ground arith))
  ]),
  advance-IsReconciled runs run status l m hs,
)

kept-IsReconciled :
    (run : CrawlRun) (l : SourceListing)
    → is_missed run l ≡ false
    → misses run l ≡ true
    → (is_open_status l.status ≡ false) ⊎ (before l.last_reconciled_at run.started_at ≡ false)
kept-IsReconciled run l k m = elim (Bool-cases (is_open_status l.status)) [
  | inr shut ↦ inl shut
  | inl available ↦ elim (Bool-cases (before l.last_reconciled_at run.started_at)) [
    | inr recorded ↦ inr recorded
    | inl missable ↦
        let source : run.source_id ≡ l.source_id =
          eq_of_beq run.source_id l.source_id (ground arith) in
        let late : ltb l.last_seen_at run.started_at ≡ true = ground arith in
        let missed : is_missed run l ≡ true =
          rw (source, beq_refl l.source_id, available, late, missable) refl in
        absurd (cc)
  ]
]

row-Missed :
    (runs : List CrawlRun) {run : CrawlRun} {threshold : ℕ} {l l' : SourceListing}
    → run.status ≡ completed
    → run.full_coverage ≡ true
    → RowStep run threshold l l'
    → Missed threshold runs l
    → Missed threshold (run ∷ runs) l'
row-Missed runs {run} {threshold} c f (kept l seen) (h, k, d) =
    (h, omega (arith, later_count run runs l), (kept-IsReconciled run l seen, d))
row-Missed runs {run} {threshold} c f (suspects l m) (h, k, d) = (
  (λ e. cc),
  omega (
    arith,
    counted run runs l (misses-of_missed run l c f m) (not_counted run runs l m d),
    miss_count-advance (run ∷ runs) run missing_suspected l,
  ),
  ((λ e. inr (ground arith)), advance-IsReconciled runs run missing_suspected l m d),
)
row-Missed runs {run} {threshold} c f (closes l m) (h, k, d) =
    let missed : is_missed run l ≡ true = ground arith in
    (
      (λ e. ground arith),
      omega (
        arith,
        counted run runs l (misses-of_missed run l c f missed) (not_counted run runs l missed d),
        miss_count-advance (run ∷ runs) run closed l,
      ),
      ((λ e. inr (ground arith)), advance-IsReconciled runs run closed l missed d),
    )

rows-Missed :
    (runs : List CrawlRun) {run : CrawlRun} {threshold : ℕ} {rows rows' : List SourceListing}
    → run.status ≡ completed
    → run.full_coverage ≡ true
    → RowSteps run threshold rows rows'
    → All (Missed threshold runs) rows
    → All (Missed threshold (run ∷ runs)) rows'
rows-Missed runs c f done h = tt
rows-Missed runs c f (row s ss) (h, hs) = (row-Missed runs c f s h, rows-Missed runs c f ss hs)

later-Missed :
    (threshold : ℕ) (run : CrawlRun) (runs : List CrawlRun) (rows : List SourceListing)
    → (is_completed run.status ≡ false) ⊎ (run.full_coverage ≡ false)
    → All (Missed threshold runs) rows
    → All (Missed threshold (run ∷ runs)) rows
later-Missed threshold run runs [] skip h = tt
later-Missed threshold run runs (l ∷ rows) skip ((h, k, d), hs) = (
  (h, omega (arith, later_count run runs l), ((λ m. absurd (ground arith)), d)),
  later-Missed threshold run runs rows skip hs,
)

Passes-Missed :
    {threshold : ℕ} {t : Tables} {runs : List CrawlRun} {t' : Tables}
    → All (Missed threshold []) t.listings
    → Passes threshold t runs t'
    → All (Missed threshold runs) t'.listings
Passes-Missed h start = h
Passes-Missed {threshold} h (pass {runs} {u} {v} {r} input now run before same found ran) =
    let ih = Passes-Missed h before in
    let settled = close_missing_listings-Settled input now u v r ran in
    let one : settled.run ≡ run = some-injective _ _ (sym settled.found ∙ found) in
    elim settled.outcome [
      | inl (still, _, skip) ↦
          subst (λ (w : Tables). All (Missed threshold (run ∷ runs)) w.listings) (sym still)
            (later-Missed threshold run runs u.listings
              (subst (λ (q : CrawlRun). (is_completed q.status ≡ false) ⊎ (q.full_coverage ≡ false))
                one skip)
              ih)
      | inr (c, f, steps) ↦
          subst (λ (q : CrawlRun). All (Missed threshold (q ∷ runs)) v.listings) one
            (rows-Missed runs c f
              (subst (λ k. RowSteps settled.run k u.listings v.listings) same steps) ih)
    ]

abbrev pub IsFresh : SourceListing → Type 0
IsFresh l = (is_closed_status l.status ≡ false) × (l.missing_streak ≡ 0)

fresh-Missed :
    (threshold : ℕ) (rows : List SourceListing) → All IsFresh rows → All (Missed threshold []) rows
fresh-Missed threshold [] h = tt
fresh-Missed threshold (l ∷ rows) ((c, s), hs) =
    (((λ d. cc), omega arith, tt), fresh-Missed threshold rows hs)

closed-Missed :
    (threshold : ℕ) (runs : List CrawlRun) (rows : List SourceListing)
    → All (Missed threshold runs) rows
    → All (λ l. is_closed_status l.status ≡ true → threshold ≤ miss_count runs l) rows
closed-Missed threshold runs [] h = tt
closed-Missed threshold runs (l ∷ rows) ((c, s, _), hs) =
    ((λ d. omega (arith, c d)), closed-Missed threshold runs rows hs)

-- From listings none of which is closed or has a miss on record, no sequence of passes with one
-- threshold closes a listing before as many of their runs missed it as the threshold says: runs of
-- its source that completed, covered the whole source and started after it was last seen, runs that
-- started at one time counted once.
pub closes_after_threshold :
    (threshold : ℕ) (runs : List CrawlRun) (t t' : Tables)
    → All IsFresh t.listings
    → Passes threshold t runs t'
    → All (λ l. is_closed_status l.status ≡ true → threshold ≤ miss_count runs l) t'.listings
closes_after_threshold threshold runs t t' fresh passes =
    closed-Missed threshold runs t'.listings
      (Passes-Missed (fresh-Missed threshold t.listings fresh) passes)
