-- ===== src/Dedupe/Scoring/Order.antt =====
-- The order of a pair does not matter (scorePair of src/dedupe/score-pair.ts): the candidates come
-- from a search, in no order that means anything.
use scraplify.Base.{
  ℕ, ◌+◌, ◌-◌, ◌*◌, ◌≡◌, refl, ap, ◌∙◌, Option, none, some, leb, ◌==◌, nat_eq, list_eq, eq_of_beq,
  Bool-cases, inl, inr, Text, arith,
}
use scraplify.Normalize.Trigrams.{beq_comm, trigram_similarity_comm}
use scraplify.Dedupe.Scoring.{
  ListingForScoring, ScoringContext, gap_within, parsed, same_key, similarity_of, shared_value,
  organization_of, title_of, value_of, signals_of, decide, score_pair, date_proximity_days,
  ms_per_day,
}

gap_within_comm : (days : ℕ) (a b : Option ℕ) → gap_within days a b ≡ gap_within days b a
gap_within_comm days none none = refl
gap_within_comm days none (some b) = refl
gap_within_comm days (some a) none = refl
gap_within_comm days (some a) (some b) =
    let same : (a - b) + (b - a) ≡ (b - a) + (a - b) = omega arith in
    ap (λ n. some (leb n (days * ms_per_day))) same

same_key_comm : (a b : Option Text) → same_key a b ≡ same_key b a
same_key_comm none none = refl
same_key_comm none (some b) = refl
same_key_comm (some a) none = refl
same_key_comm (some a) (some b) = ap some (beq_comm a b)

similarity_of_comm : (a b : Option Text) → similarity_of a b ≡ similarity_of b a
similarity_of_comm none none = refl
similarity_of_comm none (some b) = refl
similarity_of_comm (some a) none = refl
similarity_of_comm (some a) (some b) = trigram_similarity_comm a b

shared_value_comm : (a b : Option Text) → shared_value a b ≡ shared_value b a
shared_value_comm none none = refl
shared_value_comm none (some b) = refl
shared_value_comm (some a) none = refl
shared_value_comm (some a) (some b) = elim (Bool-cases (a == b)) [
  | inl same ↦ rw (beq_comm b a, same) (ap some (eq_of_beq a b same))
  | inr other ↦ rw (beq_comm b a, other) refl
]

signals_of_comm :
    (a b : ListingForScoring) (context : ScoringContext)
    → signals_of a b context ≡ signals_of b a context
unfolding signals_of
signals_of_comm a b context =
    rw
      (
        same_key_comm (organization_of context a) (organization_of context b),
        similarity_of_comm (title_of context a) (title_of context b),
        shared_value_comm (value_of context a) (value_of context b),
        gap_within_comm date_proximity_days (parsed context.parse_date a.published_at)
            (parsed context.parse_date b.published_at),
        gap_within_comm date_proximity_days (parsed context.parse_date a.deadline_at)
            (parsed context.parse_date b.deadline_at),
      )
      refl

-- A pair of listings is decided, and scored, in the same way in either order: the decision, the
-- confidence and every signal are the same.
pub score_pair_comm :
    (a b : ListingForScoring) (context : ScoringContext)
    → score_pair a b context ≡ score_pair b a context
unfolding score_pair
score_pair_comm a b context =
    ap (λ same. decide same (signals_of a b context)) (beq_comm a.source_id b.source_id)
    ∙ ap (decide (b.source_id == a.source_id)) (signals_of_comm a b context)
