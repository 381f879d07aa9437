-- ===== src/RealEstate/Expiry/Checks.antt =====
-- What a look at a listing's own page decides (src/realestate/expiry.ts, `recordListingCheck`), and
-- how it meets the two marks.
use scraplify.Base.{
  ℕ, ◌+◌, ◌*◌, ◌≤◌, ◌<◌, ◌≡◌, refl, true, false, ◌&&◌, Option, none, some, List, [], ◌∷◌, String,
  string_eq, ◌==◌, All, arith, Bool-cases, inl, inr,
}
use scraplify.Listings.Writers.{find_row}
use scraplify.RealEstate.Expiry.{
  RealEstateListing, is_on_offer, ListingCheck, live, dropped, CheckOutcome, verified, found_gone,
  unsettled, day_ms, check_horizon_days, lapse_after_days, OtherWriters, record_listing_check,
  record_gone, update_by_id, has_key, is_doubtful, recheck, leave, next_check, confirm, is_lapsed,
}

-- What a check leaves of the listing that it was about.
abbrev pub IsSettled : CheckOutcome → ℕ → RealEstateListing → Type 0
IsSettled found_gone checked l = is_on_offer l.status ≡ false
IsSettled _ checked l =
    (end : ℕ) × (l.expected_end_at ≡ some end)
    × (checked < end)
    × (end ≤ checked + check_horizon_days * day_ms)
    × ((source_id : String)
        → (as_of : ℕ) → as_of ≤ checked + lapse_after_days * day_ms
        → is_lapsed source_id as_of l ≡ false)

All-update_by_id {κ} :
    (P : RealEstateListing → Type κ) (id : String) (f : RealEstateListing → RealEstateListing)
    → ((l : RealEstateListing) → P (f l))
    → (rows : List RealEstateListing)
    → All (λ l. has_key id l ≡ true → P l) (update_by_id id f rows)
All-update_by_id P id f h [] = tt
All-update_by_id P id f h (l ∷ rows) = elim (Bool-cases (has_key id l)) [
  | inl own ↦ rw own ((λ e. h l), All-update_by_id P id f h rows)
  | inr another ↦ rw another ((λ e. absurd (ground arith)), All-update_by_id P id f h rows)
]

-- A listing whose end is ahead of the check does not lapse within a week of it.
kept-is_lapsed :
    (checked end : ℕ) (l : RealEstateListing)
    → l.expected_end_at ≡ some end
    → checked < end
    → (source_id : String) → (as_of : ℕ) → as_of ≤ checked + lapse_after_days * day_ms
    → is_lapsed source_id as_of l ≡ false
kept-is_lapsed checked end l e after source_id as_of early = rw e (ground arith)

next_check-ahead :
    (checked : ℕ) (end_at : Option ℕ)
    → (checked < next_check checked end_at)
      × (next_check checked end_at ≤ checked + check_horizon_days * day_ms)
next_check-ahead checked none = (omega arith, omega arith)
next_check-ahead checked (some stated) = (ground arith, ground arith)

record_gone-IsSettled :
    (id : String) (checked : ℕ) (reason : String) (rows : List RealEstateListing)
    → let (rows', w) = record_gone id checked reason rows in
      All (λ l. has_key id l ≡ true → IsSettled w checked l) rows'
record_gone-IsSettled id checked reason rows =
    elim (Bool-cases (reason == "missing" && is_doubtful checked (find_row (has_key id) rows))) [
      | inl doubtful ↦ rw doubtful (
          All-update_by_id (IsSettled unsettled checked) id (recheck checked)
            (λ l. (
              _,
              refl,
              omega arith,
              omega arith,
              kept-is_lapsed checked _ (recheck checked l) refl (omega arith),
            ))
            rows)
      | inr believed ↦ rw believed (
          All-update_by_id (IsSettled found_gone checked) id (leave checked reason) (λ l. refl)
            rows)
    ]

module _ {ℓ} {P D S : Type ℓ} (writers : OtherWriters P D S) where
  -- After a check the listing is gone, or it is looked at again later than the check and at most
  -- thirty days after it, and no run of the lapse within a week of the check gives it up.
  pub record_listing_check-IsSettled :
      (id : String) (check : ListingCheck P D) (checked : ℕ) (rows : List RealEstateListing) (s : S)
      → let ((rows', w), s') = record_listing_check writers id check checked rows s in
        All (λ l. has_key id l ≡ true → IsSettled w checked l) rows'
  unfolding record_listing_check
  record_listing_check-IsSettled id (dropped reason) checked rows s =
      record_gone-IsSettled id checked reason rows
  record_listing_check-IsSettled id (live end_at price details) checked rows s =
      let (after, within) = next_check-ahead checked end_at in
      All-update_by_id (IsSettled verified checked) id (confirm checked end_at)
        (λ l. (
          next_check checked end_at,
          refl,
          after,
          within,
          kept-is_lapsed checked _ (confirm checked end_at l) refl after,
        ))
        rows
