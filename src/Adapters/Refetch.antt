-- ===== src/Adapters/Refetch.antt =====
-- Which detail pages a run fetches again (src/adapters/refetch.ts). A row is a listing joined with
-- the fetch time of its current revision; instants are milliseconds. The canaries' content
-- comparison and the rate guard are left out.
pub mod Fingerprints
pub mod Canaries
mod Tests
use scraplify.Base.{
  ℕ, zero, suc, ◌-◌, ◌*◌, Bool, true, false, not, ◌&&◌, ◌||◌, Option, none, some, List, [], ◌∷◌,
  ◌++◌, String, string_eq, ◌==◌, ltb, leb, if◌then◌else◌, length, has, add, is_none,
}
use scraplify.Listings.Model.{SourceListingStatus, active, closed, quarantined}
use scraplify.Listings.Reconcile.{update_where}

abbrev pub bootstrap_max_age_ms : ℕ
bootstrap_max_age_ms = 7 * 24 * 60 * 60 * 1000

pub record KnownListing : Type 0 where
  pub status : SourceListingStatus
  pub current_revision_id : Option String
  pub discovery_fingerprint : Option String
  pub revision_fetched_at : Option ℕ

pub data DetailFetch : Type 0 where
  fetch_detail adopt skip : DetailFetch

abbrev pub is_left : SourceListingStatus → Bool
is_left quarantined = true
is_left closed = true
is_left _ = false

abbrev pub is_active : SourceListingStatus → Bool
is_active active = true
is_active _ = false

-- `Date.parse(now) - Date.parse(at) <= BOOTSTRAP_MAX_AGE_MS`: a later `at` is recent as well.
abbrev pub is_recent : ℕ → Option ℕ → Bool
is_recent now none = false
is_recent now (some at) = leb (now - at) bootstrap_max_age_ms

-- What follows the two first guards, by the stored fingerprint.
abbrev pub compare_fingerprint : KnownListing → ℕ → String → Option String → DetailFetch
compare_fingerprint known now fingerprint none =
    if is_active known.status && is_recent now known.revision_fetched_at
    then adopt
    else fetch_detail
compare_fingerprint known now fingerprint (some stored) =
    if stored == fingerprint then skip else fetch_detail

unfoldable pub needs_detail_fetch : Option KnownListing → Option String → ℕ → DetailFetch
needs_detail_fetch none fingerprint now = fetch_detail
needs_detail_fetch (some known) none now = fetch_detail
needs_detail_fetch (some known) (some fingerprint) now =
    if is_none known.current_revision_id
    then fetch_detail
    else if is_left known.status
    then fetch_detail
    else compare_fingerprint known now fingerprint known.discovery_fingerprint

pub record DiscoveryRow : Type 0 where
  pub source_id : String
  pub source_record_id : Option String
  pub known : KnownListing

-- `known.set(…)` for one row of the query: a later row hides an earlier one.
abbrev pub set_known :
    String
    → List String
    → DiscoveryRow
    → Option String
    → List (String × KnownListing)
    → List (String × KnownListing)
set_known source_id ids r none m = m
set_known source_id ids r (some id) m =
    if r.source_id == source_id && has id ids then (id, r.known) ∷ m else m

unfoldable pub load_each :
    String
    → List String
    → List DiscoveryRow
    → List (String × KnownListing)
    → List (String × KnownListing)
load_each source_id ids [] m = m
load_each source_id ids (r ∷ rows) m =
    load_each source_id ids rows (set_known source_id ids r r.source_record_id m)

unfoldable pub load_known_listings :
    String → List String → List DiscoveryRow → List (String × KnownListing)
unfolding load_each
load_known_listings source_id ids rows = load_each source_id ids rows []

abbrev pub has_record_id : Option String → String → Bool
has_record_id none id = false
has_record_id (some own) id = own == id

abbrev pub is_recorded : String → String → DiscoveryRow → Bool
is_recorded source_id id r =
    r.source_id == source_id
    && has_record_id r.source_record_id id
    && not (is_none r.known.current_revision_id)

abbrev pub stamp : String → KnownListing → KnownListing
stamp fingerprint known = record known { discovery_fingerprint = some fingerprint }

unfoldable pub set_discovery_fingerprint :
    String → String → String → List DiscoveryRow → List DiscoveryRow
set_discovery_fingerprint source_id id fingerprint rows =
    update_where (is_recorded source_id id) (λ r. record r { known = stamp fingerprint r.known })
      rows

-- `pool.splice(index, 1)`: the id taken, and what is left.
unfoldable pub splice_one : ℕ → List String → Option String × List String
splice_one i [] = (none, [])
splice_one zero (id ∷ pool) = (some id, pool)
splice_one (suc i) (id ∷ pool) = let rest = splice_one i pool in (rest.0, id ∷ rest.1)

abbrev pub add_found : Option String → List String → List String
add_found none picked = picked
add_found (some id) picked = add id picked

-- The loop of `pickCanaries`. `random step n` is the index that the step's draw gives among `n`
-- ids; a step is one unit of fuel, and running out is `none`.
unfoldable pub pick_from : (ℕ → ℕ → ℕ) → ℕ → ℕ → List String → List String → Option (List String)
unfolding splice_one
pick_from random size zero pool picked = none
pick_from random size (suc fuel) pool picked =
    let taken = splice_one (random fuel (length pool)) pool in
    let rest = pick_from random size fuel taken.1 (add_found taken.0 picked) in
    if ltb (length picked) size && ltb 0 (length pool) then rest else some picked

unfoldable pub pick_canaries : (ℕ → ℕ → ℕ) → ℕ → List String → Option (List String)
unfolding pick_from
pick_canaries random size skipped = pick_from random size (suc (length skipped)) skipped []
