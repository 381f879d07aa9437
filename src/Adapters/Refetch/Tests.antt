-- ===== src/Adapters/Refetch/Tests.antt =====
-- Two listings of one source, and draws that always take the last id.
use scraplify.Base.{
  ℕ, ◌-◌, ◌<◌, ◌≡◌, refl, false, ◌&&◌, Option, none, some, List, [], ◌∷◌, String, string_eq, ◌==◌,
  if◌then◌else◌, lookup, arith,
}
use scraplify.Listings.Model.{active}
use scraplify.Adapters.Refetch.{
  adopt, skip, fetch_detail, DiscoveryRow, needs_detail_fetch, load_known_listings,
  set_discovery_fingerprint, pick_canaries,
}
use scraplify.Adapters.Refetch.Fingerprints.{compares, set_discovery_fingerprint-skips}
use scraplify.Adapters.Refetch.Canaries.{Sample, pick_canaries-Sample}

abbrev row : String → Option String → DiscoveryRow
row id fingerprint = record {
  source_id = "jobs-ge";
  source_record_id = some id;
  known = record {
    status = active;
    current_revision_id = some "v1";
    discovery_fingerprint = fingerprint;
    revision_fetched_at = some 10;
  };
}

abbrev rows : List DiscoveryRow
rows = row "1" none ∷ row "2" (some "f") ∷ []

adopts : needs_detail_fetch (some (row "1" none).known) (some "g") 600000000 ≡ adopt
unfolding needs_detail_fetch
adopts = refl

too_old : needs_detail_fetch (some (row "1" none).known) (some "g") 604800011 ≡ fetch_detail
unfolding needs_detail_fetch
too_old = refl

set_discovery_fingerprint-skips_example :
    let before = load_known_listings "jobs-ge" ("1" ∷ "2" ∷ []) rows in
    let after =
      load_known_listings "jobs-ge"
        ("1" ∷ "2" ∷ [])
        (set_discovery_fingerprint "jobs-ge" "1" "g" rows) in
    (needs_detail_fetch (lookup "1" after) (some "g") 20 ≡ (
      if compares (lookup "1" before) && (◌==◌ {A = String} "g" "g") then skip else fetch_detail))
    × ((j : String) → (j == "1") ≡ false → lookup j after ≡ lookup j before)
set_discovery_fingerprint-skips_example =
    set_discovery_fingerprint-skips "jobs-ge" "1" "g" "g" ("1" ∷ "2" ∷ []) rows 20

abbrev last : ℕ → ℕ → ℕ
last step n = n - 1

last_two : pick_canaries last 2 ("a" ∷ "b" ∷ "c" ∷ []) ≡ some ("c" ∷ "b" ∷ [])
unfolding pick_canaries
last_two = refl

last-in_range : (step n : ℕ) → 0 < n → last step n < n
last-in_range step n h = omega arith

pick_canaries-Sample_example :
    (picked : List String) × (pick_canaries last 2 ("a" ∷ "b" ∷ "c" ∷ []) ≡ some picked)
    × Sample 2 ("a" ∷ "b" ∷ "c" ∷ []) picked
pick_canaries-Sample_example = pick_canaries-Sample last last-in_range 2 ("a" ∷ "b" ∷ "c" ∷ [])
