-- ===== src/Dedupe/Scoring/Links.antt =====
-- When a pair is linked with no one asked (the path of scorePair, src/dedupe/score-pair.ts, to
-- confirmed_same). A false link is worse than a missed one.
use scraplify.Base.{
  ℕ, ◌≡◌, refl, sym, ap, ◌∙◌, Bool, true, false, Option, none, some, ◌==◌, ◌≤◌, nat_eq, list_eq,
  eq_of_beq, lookup, if◌then◌else◌, Bool-cases, inl, inr, Text, arith,
}
use scraplify.Normalize.Trigrams.{is_below}
use scraplify.Dedupe.Scoring.{
  ListingForScoring, ScoringContext, confirmed_same, SignalBreakdown, similarity_of, shared_value,
  is_selective, is_vacancy_level, title_of, value_of, signals_of, decide, score_pair,
  title_strong_similarity,
}

-- Both listings have the contact `value`, and at most two listings of the corpus carry it.
pub data SharesVacancy (context : ScoringContext) (a b : ListingForScoring) : Type 0 where
  shares :
      (value : Text) (count : ℕ)
      → value_of context a ≡ some value
      → value_of context b ≡ some value
      → lookup value context.application_value_listing_counts ≡ some count
      → count ≤ 2
      → SharesVacancy context a b

decide-confirmed_same :
    (same_source : Bool) (s : SignalBreakdown)
    → (decide same_source s).decision ≡ confirmed_same
    → (same_source ≡ false)
      × (s.shared_vacancy_level_application_value ≡ true)
      × (is_below s.title_similarity title_strong_similarity ≡ false)
unfolding decide
decide-confirmed_same same_source s h = ground arith

is_selective_counted :
    (found : Option ℕ) → is_selective found ≡ true → (n : ℕ) × (found ≡ some n) × (n ≤ 2)
is_selective_counted none h = ground arith
is_selective_counted (some n) h = (n, refl, ground arith)

shared_value-SharesVacancy :
    (context : ScoringContext) (a b : ListingForScoring) (x y : Option Text)
    → value_of context a ≡ x
    → value_of context b ≡ y
    → is_vacancy_level context (shared_value x y) ≡ true
    → SharesVacancy context a b
shared_value-SharesVacancy context a b none y p q h = ground arith
shared_value-SharesVacancy context a b (some v) none p q h = ground arith
shared_value-SharesVacancy context a b (some v) (some w) p q h = elim (Bool-cases (v == w)) [
  | inl same ↦
      let counted : is_selective (lookup v context.application_value_listing_counts) ≡ true =
        ap (λ b. is_vacancy_level context (if b then some v else none)) (sym same) ∙ h in
      let (n, found, few) = is_selective_counted _ counted in
      shares v n p (q ∙ ap some (sym (eq_of_beq v w same))) found few
  | inr other ↦ ground arith
]

signals_of-SharesVacancy :
    (a b : ListingForScoring) (context : ScoringContext)
    → (signals_of a b context).shared_vacancy_level_application_value ≡ true
    → SharesVacancy context a b
unfolding signals_of
signals_of-SharesVacancy a b context h =
    shared_value-SharesVacancy context a b (value_of context a) (value_of context b) refl refl h

signals_of-similarity_of :
    (a b : ListingForScoring) (context : ScoringContext)
    → (signals_of a b context).title_similarity
      ≡ similarity_of (title_of context a) (title_of context b)
unfolding signals_of
signals_of-similarity_of a b context = refl

-- Two listings are linked with no one asked only when they are of different sources, both have a
-- contact that at most two listings of the corpus carry, and their titles are alike to 82
-- hundredths or more. An employer, dates and titles that agree never link alone.
pub score_pair-confirmed_same :
    (a b : ListingForScoring) (context : ScoringContext)
    → (score_pair a b context).decision ≡ confirmed_same
    → ((a.source_id == b.source_id) ≡ false)
      × SharesVacancy context a b
      × (is_below (similarity_of (title_of context a) (title_of context b)) 82 ≡ false)
unfolding score_pair
score_pair-confirmed_same a b context h =
    let (other, vacancy, alike) = decide-confirmed_same _ (signals_of a b context) h in
    (
      other,
      signals_of-SharesVacancy a b context vacancy,
      ap (λ r. is_below r 82) (sym (signals_of-similarity_of a b context)) ∙ alike,
    )
