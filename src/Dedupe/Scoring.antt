-- ===== src/Dedupe/Scoring.antt =====
-- The decision on a pair of vacancies (src/dedupe/score-pair.ts). The date parser, Unicode's tables
-- and the URL parser are the platform's; the texts of the reasons are left out. A confidence is in
-- hundredths.
pub mod Order
pub mod Links
mod Tests
use scraplify.Base.{
  ℕ, ◌+◌, ◌-◌, ◌*◌, Bool, true, false, not, ◌&&◌, ◌||◌, Option, none, some, List, [], ◌∷◌, leb,
  ◌==◌, nat_eq, list_eq, if◌then◌else◌, lookup, is_none, Text,
}
use scraplify.Normalize.Titles.{Unicode, normalize_title, normalize_organization_name}
use scraplify.Normalize.Trigrams.{Ratio, is_below, trigram_similarity}
use scraplify.Normalize.Applications.{UrlPlatform, normalize_application_value}

pub data DedupeDecision : Type 0 where
  confirmed_same probable_same needs_review distinct : DedupeDecision

pub record ListingForScoring : Type 0 where
  pub source_id : Text
  pub source_listing_id : Text
  pub title_raw : Text
  pub organization_raw : Option Text
  pub application_type : Option Text
  pub application_value : Option Text
  pub published_at : Option Text
  pub deadline_at : Option Text

-- How many listings carry each application value, and what the platform gives; `parse_date` is none
-- for what is no date, and dates are from 1970 on.
pub record ScoringContext : Type 0 where
  pub application_value_listing_counts : List (Text × ℕ)
  pub unicode : Unicode
  pub urls : UrlPlatform
  pub parse_date : Text → Option ℕ

abbrev pub max_listings_for_vacancy_level_value : ℕ
max_listings_for_vacancy_level_value = 2

abbrev pub title_strong_similarity : ℕ
title_strong_similarity = 82

abbrev pub title_weak_similarity : ℕ
title_weak_similarity = 45

abbrev pub date_proximity_days : ℕ
date_proximity_days = 21

abbrev pub ms_per_day : ℕ
ms_per_day = 86400000

pub record SignalBreakdown : Type 0 where
  pub same_organization : Option Bool
  pub title_similarity : Ratio
  pub shared_vacancy_level_application_value : Bool
  pub shared_employer_level_application_value : Bool
  pub published_within_window : Option Bool
  pub deadline_within_window : Option Bool

pub record PairScore : Type 0 where
  pub decision : DedupeDecision
  pub confidence : ℕ
  pub signals : SignalBreakdown

abbrev pub parsed : (Text → Option ℕ) → Option Text → Option ℕ
parsed parse_date none = none
parsed parse_date (some s) = parse_date s

abbrev pub gap_within : ℕ → Option ℕ → Option ℕ → Option Bool
gap_within days (some a) (some b) = some (leb ((a - b) + (b - a)) (days * ms_per_day))
gap_within days _ _ = none

abbrev pub within_days : (Text → Option ℕ) → Option Text → Option Text → ℕ → Option Bool
within_days parse_date a b days = gap_within days (parsed parse_date a) (parsed parse_date b)

abbrev pub same_key : Option Text → Option Text → Option Bool
same_key (some a) (some b) = some (a == b)
same_key _ _ = none

abbrev pub similarity_of : Option Text → Option Text → Ratio
similarity_of (some a) (some b) = trigram_similarity a b
similarity_of _ _ = record { numerator = 0; denominator = 1 }

abbrev pub shared_value : Option Text → Option Text → Option Text
shared_value (some a) (some b) = if a == b then some a else none
shared_value _ _ = none

-- A value that is counted nowhere is taken to be carried by any number.
abbrev pub is_selective : Option ℕ → Bool
is_selective none = false
is_selective (some count) = leb count max_listings_for_vacancy_level_value

abbrev pub is_vacancy_level : ScoringContext → Option Text → Bool
is_vacancy_level context none = false
is_vacancy_level context (some value) =
    is_selective (lookup value context.application_value_listing_counts)

abbrev pub organization_of : ScoringContext → ListingForScoring → Option Text
organization_of context l = normalize_organization_name context.unicode l.organization_raw

abbrev pub title_of : ScoringContext → ListingForScoring → Option Text
title_of context l = normalize_title context.unicode (some l.title_raw)

abbrev pub value_of : ScoringContext → ListingForScoring → Option Text
value_of context l = normalize_application_value context.urls l.application_type l.application_value

unfoldable pub signals_of : ListingForScoring → ListingForScoring → ScoringContext → SignalBreakdown
signals_of a b context =
    let shared : Option Text = shared_value (value_of context a) (value_of context b) in
    record {
      same_organization = same_key (organization_of context a) (organization_of context b);
      title_similarity = similarity_of (title_of context a) (title_of context b);
      shared_vacancy_level_application_value = is_vacancy_level context shared;
      shared_employer_level_application_value =
          not (is_none shared) && not (is_vacancy_level context shared);
      published_within_window =
          within_days context.parse_date a.published_at b.published_at date_proximity_days;
      deadline_within_window =
          within_days context.parse_date a.deadline_at b.deadline_at date_proximity_days;
    }

abbrev pub score : SignalBreakdown → DedupeDecision → ℕ → PairScore
score signals decision confidence = record {
  decision = decision;
  confidence = confidence;
  signals = signals;
}

-- `answer === true`
abbrev pub is_yes : Option Bool → Bool
is_yes none = false
is_yes (some answer) = answer

abbrev pub dates_agree : SignalBreakdown → Bool
dates_agree s = is_yes s.published_within_window || is_yes s.deadline_within_window

-- The cascade of decisions, from whether the two listings are of one source.
unfoldable pub decide : (same_source : Bool) → SignalBreakdown → PairScore
decide same_source s =
    if same_source
    then score s distinct 0
    else if is_below s.title_similarity title_weak_similarity
    then if s.shared_vacancy_level_application_value
      then score s needs_review 50
      else score s distinct 0
    else if s.shared_vacancy_level_application_value
        && not (is_below s.title_similarity title_strong_similarity)
    then score s confirmed_same 97
    else if s.shared_vacancy_level_application_value
    then score s probable_same 75
    else if is_yes s.same_organization && not (is_below s.title_similarity title_strong_similarity)
    then score s needs_review (if dates_agree s then 65 else 55)
    else score s distinct 0

unfoldable pub score_pair : ListingForScoring → ListingForScoring → ScoringContext → PairScore
unfolding signals_of decide
score_pair a b context = decide (a.source_id == b.source_id) (signals_of a b context)
