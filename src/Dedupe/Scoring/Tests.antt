-- ===== src/Dedupe/Scoring/Tests.antt =====
-- The decision on a vacancy that two boards have, and on one with an inbox for every vacancy.
use scraplify.Base.{
  ◌≡◌, refl, false, none, some, [], ◌∷◌, ◌==◌, nat_eq, list_eq, if◌then◌else◌, Text,
}
use scraplify.Net.IpPolicy.Text.{codes}
use scraplify.Normalize.Titles.{normalize_title, normalize_organization_name}
use scraplify.Normalize.Trigrams.{is_below, trigrams, set_similarity, trigram_similarity}
use scraplify.Normalize.Applications.{normalize_application_value}
use scraplify.Dedupe.Scoring.{
  ListingForScoring, ScoringContext, DedupeDecision, confirmed_same, probable_same, needs_review,
  distinct, signals_of, decide, score_pair, similarity_of, title_of,
}
use scraplify.Dedupe.Scoring.Order.{score_pair_comm}
use scraplify.Dedupe.Scoring.Links.{SharesVacancy, score_pair-confirmed_same}

abbrev context : ScoringContext
context = record {
  application_value_listing_counts = (codes "a@b.ge", 2) ∷ (codes "hr@b.ge", 8) ∷ [];
  unicode = record { nfkc = λ s. s; to_lower_case = λ s. s };
  urls = record { to_lower = λ s. s; parse_url = λ s. none; encode_query = λ q. [] };
  parse_date = λ s. if s == codes "2026-01-01" then some 1767225600000 else none;
}

abbrev advert : Text → Text → Text → ListingForScoring
advert source title contact = record {
  source_id = source;
  source_listing_id = codes "1";
  title_raw = title;
  organization_raw = some (codes "llc bank");
  application_type = some (codes "email");
  application_value = some contact;
  published_at = some (codes "2026-01-01");
  deadline_at = none;
}

abbrev of_jobs : ListingForScoring
of_jobs = advert (codes "jobs-ge") (codes "senior analyst") (codes "a@b.ge")

abbrev of_hr : ListingForScoring
of_hr = advert (codes "hr-ge") (codes "\"senior\" analyst") (codes " a@b.ge ")

abbrev decided : (context : ScoringContext) (a b : ListingForScoring) → DedupeDecision
decided context a b = (score_pair a b context).decision

decisions :
    (decided context of_jobs of_hr ≡ confirmed_same)
    × (decided context of_jobs of_jobs ≡ distinct)
    × (decided context of_jobs
          (advert (codes "hr-ge") (codes "senior analyst bank") (codes "a@b.ge"))
        ≡ probable_same)
    × (decided context of_jobs (advert (codes "hr-ge") (codes "driver") (codes "a@b.ge"))
        ≡ needs_review)
    × ((score_pair
          (advert (codes "jobs-ge") (codes "analyst") (codes "hr@b.ge"))
          (advert (codes "hr-ge") (codes "analyst") (codes "hr@b.ge"))
          context).confidence
        ≡ 65)
unfolding score_pair signals_of decide normalize_title normalize_organization_name
    normalize_application_value trigram_similarity set_similarity trigrams
decisions = (refl, refl, refl, refl, refl)

score_pair_comm_example : score_pair of_jobs of_hr context ≡ score_pair of_hr of_jobs context
score_pair_comm_example = score_pair_comm of_jobs of_hr context

score_pair-confirmed_same_example :
    ((of_jobs.source_id == of_hr.source_id) ≡ false)
    × SharesVacancy context of_jobs of_hr
    × (is_below (similarity_of (title_of context of_jobs) (title_of context of_hr)) 82 ≡ false)
unfolding score_pair signals_of decide normalize_title normalize_organization_name
    normalize_application_value trigram_similarity set_similarity trigrams
score_pair-confirmed_same_example = score_pair-confirmed_same of_jobs of_hr context refl
