-- ===== src/Listings/Reconcile/Misses.antt =====
-- Which runs may close a listing, and what a pass does to each row
-- (src/db/reconcile-source-listings.ts).
use scraplify.Base.{
  ℕ, ◌+◌, ◌≤◌, ◌≡◌, sym, subst, Bool, true, false, not, some, ◌||◌, List, [], ◌∷◌, map, ltb, arith,
  Bool-cases, inl, inr, ◌⊎◌, Option-cases,
}
use scraplify.Listings.Model.{
  SourceListing, missing_suspected, closed, CrawlRun, CrawlRunStatus, completed, is_completed,
}
use scraplify.Listings.Reconcile.{
  Tables, CloseMissingListingsInput, CloseMissingListingsResult, ok, is_missed, is_closable,
  advance, close_missing, close_missing_listings, skipped_result, find_run,
}
use scraplify.Listings.Reconcile.Rows.{settle, listings-close_missing}

-- What a pass does to a row: nothing to one that the run did not miss, or it is suspected or closed.
pub data RowStep (run : CrawlRun) (threshold : ℕ) : SourceListing → SourceListing → Type 0 where
  kept : (l : SourceListing) → is_missed run l ≡ false → RowStep run threshold l l
  suspects :
      (l : SourceListing)
      → is_missed run l ≡ true
      → RowStep run threshold l (advance run missing_suspected l)
  closes :
      (l : SourceListing)
      → is_closable run threshold l ≡ true
      → RowStep run threshold l (advance run closed l)

-- The same rows, each after its step.
pub data RowSteps (run : CrawlRun) (threshold : ℕ)
    : List SourceListing → List SourceListing → Type 0 where
  done : RowSteps run threshold [] []
  row :
      {l l' : SourceListing} {rows rows' : List SourceListing}
      → RowStep run threshold l l'
      → RowSteps run threshold rows rows'
      → RowSteps run threshold (l ∷ rows) (l' ∷ rows')

-- What a pass that returns has established.
pub record Settled (input : CloseMissingListingsInput) (t t' : Tables)
    (r : CloseMissingListingsResult) : Type 0 where
  pub run : CrawlRun
  pub found : find_run input.crawl_run_id t.runs ≡ some run
  pub two_misses : 2 ≤ input.missing_streak_threshold
  pub outcome :
      ((t' ≡ t)
        × (r ≡ skipped_result)
        × ((is_completed run.status ≡ false) ⊎ (run.full_coverage ≡ false)))
      ⊎ ((run.status ≡ completed)
          × (run.full_coverage ≡ true)
          × RowSteps run input.missing_streak_threshold t.listings t'.listings)

row_step :
    (run : CrawlRun) (threshold : ℕ) (capped : Bool) (l : SourceListing)
    → RowStep run threshold l (settle run threshold capped l)
row_step run threshold capped l = elim (Bool-cases (is_missed run l)) [
  | inr seen ↦ rw seen (kept l seen)
  | inl missed ↦ elim (Bool-cases (ltb (l.missing_streak + 1) threshold)) [
    | inl few ↦ rw (missed, few) (suspects l missed)
    | inr enough ↦ elim (Bool-cases capped) [
      | inl held ↦ rw (missed, enough, held) (suspects l missed)
      | inr free ↦ rw (missed, enough, free) (closes l (ground arith))
    ]
  ]
]

row_steps :
    (run : CrawlRun) (threshold : ℕ) (capped : Bool) (rows : List SourceListing)
    → RowSteps run threshold rows (map (settle run threshold capped) rows)
row_steps run threshold capped [] = done
row_steps run threshold capped (l ∷ rows) =
    row (row_step run threshold capped l) (row_steps run threshold capped rows)

eq-completed : (s : CrawlRunStatus) → is_completed s ≡ true → s ≡ completed
eq-completed s h = ground arith

-- A pass that returns was given a threshold of at least two and a run that exists. If that run
-- did not complete, or did not cover the whole source, the tables are as before; otherwise each
-- listing that the run did not miss is kept, and each that it missed is suspected or closed.
pub close_missing_listings-Settled :
    (input : CloseMissingListingsInput) (now : ℕ) (t t' : Tables) (r : CloseMissingListingsResult)
    → close_missing_listings input now t ≡ ok (t', r)
    → Settled input t t' r
unfolding close_missing_listings
close_missing_listings-Settled input now t t' r h =
    elim (Option-cases (find_run input.crawl_run_id t.runs)) [
      | inl absent ↦ absurd (ground arith)
      | inr (run, found) ↦
          let two : 2 ≤ input.missing_streak_threshold = ground arith in
          elim (Bool-cases (not (is_completed run.status) || not run.full_coverage)) [
            | inl skip ↦ record {
              run = run;
              found = found;
              two_misses = two;
              outcome = inl (ground arith, ground arith, ground arith);
            }
            | inr eligible ↦
                let ran : close_missing run input now t ≡ (t', r) = ground arith in
                let threshold = input.missing_streak_threshold in
                let rows : t'.listings ≡ map (settle run threshold r.closure_capped) t.listings =
                  subst
                    (λ (p : Tables × CloseMissingListingsResult).
                      p.0.listings ≡ map (settle run threshold p.1.closure_capped) t.listings)
                    ran (listings-close_missing run input now t) in
                record {
                  run = run;
                  found = found;
                  two_misses = two;
                  outcome = inr (
                    eq-completed run.status (ground arith),
                    ground arith,
                    subst (RowSteps run threshold t.listings) (sym rows)
                        (row_steps run threshold r.closure_capped t.listings),
                  );
                }
          ]
    ]
