-- ===== src/RealEstate/Expiry.antt =====
-- How a property listing leaves the catalogue (src/realestate/expiry.ts). Instants are milliseconds;
-- `a - d < b` is written `a < b + d`. The writers of prices and details, which are other modules',
-- are arguments. The order of the listings due for a check is left out.
pub mod Checks
pub mod Missed
pub mod Archive
mod Tests
use scraplify.Base.{
  ℕ, ◌+◌, ◌*◌, min, Bool, true, false, not, ◌&&◌, ◌||◌, Option, none, some, List, [], ◌∷◌, ◌++◌,
  String, string_eq, ◌==◌, ltb, leb, if◌then◌else◌, length, filter, any, is_none,
}
use scraplify.Listings.Reconcile.{update_where, count_where}
use scraplify.Listings.Writers.{find_row}

abbrev pub day_ms : ℕ
day_ms = 24 * 60 * 60 * 1000

abbrev pub check_horizon_days : ℕ
check_horizon_days = 30

abbrev pub unsettled_recheck_days : ℕ
unsettled_recheck_days = 3

abbrev pub missing_trusted_after_days : ℕ
missing_trusted_after_days = 2

abbrev pub lapse_after_days : ℕ
lapse_after_days = 7

abbrev pub gone_retention_days : ℕ
gone_retention_days = 14

pub data RealEstateStatus : Type 0 where
  active gone : RealEstateStatus

pub record RealEstateListing : Type 0 where
  pub id : String
  pub source_id : String
  pub deal_type : String
  pub property_type : String
  pub status : RealEstateStatus
  pub last_seen_at : ℕ
  pub expected_end_at : Option ℕ
  pub missed_at : Option ℕ
  pub verified_at : Option ℕ
  pub gone_at : Option ℕ
  pub gone_reason : Option String
  pub group_key : Option String
  pub similarity_group : Option String

pub data ListingCheck {ℓ} (P D : Type ℓ) : Type ℓ where
  live : (end_at : Option ℕ) → (price : Option P) → (details : Option D) → ListingCheck P D
  dropped : (reason : String) → ListingCheck P D

pub data CheckOutcome : Type 0 where
  verified found_gone unsettled : CheckOutcome

abbrev pub is_on_offer : RealEstateStatus → Bool
is_on_offer active = true
is_on_offer gone = false

-- `lt(column, asOf - days)` and `column > at`: neither holds of a missing value.
abbrev pub is_older : ℕ → ℕ → Option ℕ → Bool
is_older days as_of none = false
is_older days as_of (some t) = ltb (t + days * day_ms) as_of

abbrev pub is_after : ℕ → Option ℕ → Bool
is_after at none = false
is_after at (some t) = ltb at t

abbrev pub has_key : String → RealEstateListing → Bool
has_key id l = l.id == id

-- `update(…).set(…).where(eq(id, …))`.
abbrev pub update_by_id :
    String
    → (RealEstateListing → RealEstateListing)
    → List RealEstateListing
    → List RealEstateListing
update_by_id id f rows = update_where (has_key id) f rows

-- A page without a listing is not believed for one that was seen of late and not missed since.
abbrev pub is_doubtful : ℕ → Option RealEstateListing → Bool
is_doubtful checked none = false
is_doubtful checked (some l) =
    is_none l.missed_at && ltb checked (l.last_seen_at + missing_trusted_after_days * day_ms)

abbrev pub recheck : ℕ → RealEstateListing → RealEstateListing
recheck checked l = record l { expected_end_at = some (checked + unsettled_recheck_days * day_ms) }

abbrev pub leave : ℕ → String → RealEstateListing → RealEstateListing
leave checked reason l = record l {
  status = gone;
  gone_at = some checked;
  gone_reason = some reason;
  verified_at = some checked;
  missed_at = none;
}

-- `nextMs`: when a live listing is looked at again.
abbrev pub next_check : ℕ → Option ℕ → ℕ
next_check checked none = checked + check_horizon_days * day_ms
next_check checked (some stated) =
    if leb stated checked
    then checked + unsettled_recheck_days * day_ms
    else min stated (checked + check_horizon_days * day_ms)

abbrev pub confirm : ℕ → Option ℕ → RealEstateListing → RealEstateListing
confirm checked end_at l = record l {
  expected_end_at = some (next_check checked end_at);
  verified_at = some checked;
  missed_at = none;
}

abbrev pub record_gone :
    String → ℕ → String → List RealEstateListing → List RealEstateListing × CheckOutcome
record_gone id checked reason rows =
    if reason == "missing" && is_doubtful checked (find_row (has_key id) rows)
    then (update_by_id id (recheck checked) rows, unsettled)
    else (update_by_id id (leave checked reason) rows, found_gone)

-- What the two writers of other modules do to the rest of the database.
pub record OtherWriters {ℓ} (P D S : Type ℓ) : Type ℓ where
  pub record_price_sighting : String → P → ℕ → S → S
  pub record_listing_details : String → D → ℕ → S → S

abbrev pub when_given {ℓ} : {A S : Type ℓ} → Option A → (A → S → S) → S → S
when_given none f s = s
when_given (some a) f s = f a s

module _ {ℓ} {P D S : Type ℓ} (writers : OtherWriters P D S) where
  unfoldable pub record_listing_check :
      String
      → ListingCheck P D
      → ℕ
      → List RealEstateListing
      → S
      → (List RealEstateListing × CheckOutcome) × S
  record_listing_check id (dropped reason) checked rows s = (record_gone id checked reason rows, s)
  record_listing_check id (live end_at price details) checked rows s = (
    (update_by_id id (confirm checked end_at) rows, verified),
    when_given details (λ d. writers.record_listing_details id d checked)
        (when_given price (λ p. writers.record_price_sighting id p checked) s),
  )

-- Two group columns that are both set and equal.
abbrev pub same_group : Option String → Option String → Bool
same_group (some a) (some b) = a == b
same_group _ _ = false

pub record FullRead : Type 0 where
  pub source_id : String
  pub deal_type : String
  pub property_type : String
  pub read_started_at : ℕ
  pub at : ℕ

-- The row that `not exists` looks for: a look-alike that the read saw.
abbrev pub is_seen_look_alike : FullRead → RealEstateListing → RealEstateListing → Bool
is_seen_look_alike read l g =
    g.source_id == l.source_id
    && is_on_offer g.status
    && leb read.read_started_at g.last_seen_at
    && (same_group l.group_key g.group_key || same_group l.similarity_group g.similarity_group)

abbrev pub is_unseen : FullRead → List RealEstateListing → RealEstateListing → Bool
is_unseen read rows l =
    l.source_id == read.source_id
    && is_on_offer l.status
    && l.deal_type == read.deal_type
    && l.property_type == read.property_type
    && is_none l.missed_at
    && ltb l.last_seen_at read.read_started_at
    && is_after read.at l.expected_end_at
    && not (any (is_seen_look_alike read l) rows)

unfoldable pub mark_missed_listings : FullRead → List RealEstateListing → List RealEstateListing × ℕ
mark_missed_listings read rows = (
  update_where (is_unseen read rows) (λ l. record l { missed_at = some read.at }) rows,
  count_where (is_unseen read rows) rows,
)

abbrev pub is_lapsed : String → ℕ → RealEstateListing → Bool
is_lapsed source_id as_of l =
    l.source_id == source_id
    && is_on_offer l.status
    && is_older lapse_after_days as_of l.expected_end_at
    && is_older lapse_after_days as_of (some l.last_seen_at)

abbrev pub lapse : ℕ → RealEstateListing → RealEstateListing
lapse as_of l = record l { status = gone; gone_at = some as_of; gone_reason = some "lapsed" }

unfoldable pub mark_lapsed_listings_gone :
    String → ℕ → List RealEstateListing → List RealEstateListing × ℕ
mark_lapsed_listings_gone source_id as_of rows = (
  update_where (is_lapsed source_id as_of) (lapse as_of) rows,
  count_where (is_lapsed source_id as_of) rows,
)

pub record PriceChange : Type 0 where
  pub id : String
  pub listing_id : String

pub record Catalogue : Type 0 where
  pub listings : List RealEstateListing
  pub price_changes : List PriceChange
  pub archive : List RealEstateListing
  pub archived_changes : List PriceChange

abbrev pub is_doomed : String → ℕ → RealEstateListing → Bool
is_doomed source_id as_of l =
    l.source_id == source_id
    && not (is_on_offer l.status)
    && is_older gone_retention_days as_of l.gone_at

-- `insert … on conflict (id) do nothing`, row by row.
abbrev pub insert_new {ℓ} : {A : Type ℓ} → (A → String) → List A → List A → List A
insert_new key [] stored = stored
insert_new key (x ∷ xs) stored =
    insert_new key xs (if any (λ y. key y == key x) stored then stored else stored ++ x ∷ [])

abbrev pub belongs : List RealEstateListing → PriceChange → Bool
belongs doomed c = any (has_key c.listing_id) doomed

-- The archive's copies leave out the link, the text and the coordinates, which are not modelled.
-- The delete cascades to the price changes.
unfoldable pub delete_long_gone_listings : String → ℕ → Catalogue → Catalogue × ℕ
delete_long_gone_listings source_id as_of t =
    let doomed = filter (is_doomed source_id as_of) t.listings in
    (
      record {
        listings = filter (λ l. not (is_doomed source_id as_of l)) t.listings;
        price_changes = filter (λ c. not (belongs doomed c)) t.price_changes;
        archive = insert_new (λ (l : RealEstateListing). l.id) doomed t.archive;
        archived_changes =
            insert_new (λ (c : PriceChange). c.id) (filter (belongs doomed) t.price_changes)
              t.archived_changes;
      },
      length doomed,
    )
