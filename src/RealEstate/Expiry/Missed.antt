-- ===== src/RealEstate/Expiry/Missed.antt =====
-- How a missing page is judged after a full read of the list (src/realestate/expiry.ts,
-- `markMissedListings` and then `recordListingCheck`).
use scraplify.Base.{
  ℕ, ◌+◌, ◌*◌, ◌≤◌, ◌<◌, ◌≡◌, refl, sym, ap, ◌∙◌, subst, Bool, true, false, ◌||◌, Option, none,
  some, List, [], ◌∷◌, String, string_eq, ◌==◌, if◌then◌else◌, All, any, arith, Bool-cases, inl,
  inr, ◌⊎◌, Option-cases, eq_of_beq, beq_refl, is_none, ltb,
}
use scraplify.Listings.Reconcile.{update_where}
use scraplify.Listings.Writers.{find_row}
use scraplify.RealEstate.Expiry.{
  RealEstateListing, is_on_offer, dropped, CheckOutcome, verified, found_gone, unsettled,
  OtherWriters, record_listing_check, record_gone, has_key, is_doubtful, FullRead, is_unseen,
  same_group, is_seen_look_alike, mark_missed_listings, is_after,
}

-- No listing on offer that the read saw is of one property with this one.
abbrev pub HasNoSeenCopy : FullRead → RealEstateListing → List RealEstateListing → Type 0
HasNoSeenCopy read l rows =
    All
      (λ (g : RealEstateListing).
        ((g.source_id == l.source_id) ≡ false)
        ⊎ (is_on_offer g.status ≡ false)
        ⊎ (g.last_seen_at < read.read_started_at)
        ⊎ ((same_group l.group_key g.group_key || same_group l.similarity_group g.similarity_group)
            ≡ false))
      rows

-- The read was to show the listing, of which no earlier read is on record that it missed it, and it
-- did not: the listing was not seen since the read began, nor was a copy, and its end is ahead.
pub record IsMissed (read : FullRead) (rows : List RealEstateListing) (l : RealEstateListing)
    : Type 0 where
  pub of_source : l.source_id ≡ read.source_id
  pub on_offer : is_on_offer l.status ≡ true
  pub of_deal : l.deal_type ≡ read.deal_type
  pub of_property : l.property_type ≡ read.property_type
  pub unmarked : l.missed_at ≡ none
  pub unseen : l.last_seen_at < read.read_started_at
  pub ahead : (end : ℕ) × (l.expected_end_at ≡ some end) × (read.at < end)
  pub no_copy : HasNoSeenCopy read l rows

-- The judgement of a page that shows no listing: in doubt for one that no read missed and that was
-- seen within two days, believed for any other.
abbrev pub IsJudged :
    FullRead → List RealEstateListing → ℕ → RealEstateListing → CheckOutcome → Type 0
IsJudged read rows checked l verified = true ≡ false
IsJudged read rows checked l unsettled =
    (l.missed_at ≡ none) × (¬ IsMissed read rows l) × (checked < l.last_seen_at + 2 * 86400000)
IsJudged read rows checked l found_gone =
    ((at : ℕ) × (l.missed_at ≡ some at))
    ⊎ IsMissed read rows l
    ⊎ (l.last_seen_at + 2 * 86400000 ≤ checked)

copies-seen :
    (read : FullRead) (l : RealEstateListing) (rows : List RealEstateListing)
    → HasNoSeenCopy read l rows
    → any (is_seen_look_alike read l) rows ≡ false
copies-seen read l [] h = refl
copies-seen read l (g ∷ rows) (h, hs) = ground (arith, copies-seen read l rows hs)

seen-copies :
    (read : FullRead) (l : RealEstateListing) (rows : List RealEstateListing)
    → any (is_seen_look_alike read l) rows ≡ false
    → HasNoSeenCopy read l rows
seen-copies read l [] h = tt
seen-copies read l (g ∷ rows) h = (ground arith, seen-copies read l rows (ground arith))

end_ahead :
    (at : ℕ) (end_at : Option ℕ)
    → is_after at end_at ≡ true
    → (end : ℕ) × (end_at ≡ some end) × (at < end)
end_ahead at none h = ground arith
end_ahead at (some end) h = (end, refl, ground arith)

unmarked_missed : (missed_at : Option ℕ) → is_none missed_at ≡ true → missed_at ≡ none
unmarked_missed none h = refl
unmarked_missed (some at) h = ground arith

find_row-marked :
    (p q : RealEstateListing → Bool) (f : RealEstateListing → RealEstateListing)
    → ((l : RealEstateListing) → p (f l) ≡ p l)
    → (rows : List RealEstateListing) (l : RealEstateListing) → find_row p rows ≡ some l
    → find_row p (update_where q f rows) ≡ some (if q l then f l else l)
find_row-marked p q f h [] l e = absurd (ground arith)
find_row-marked p q f h (r ∷ rows) l e = ground (arith, h r, find_row-marked p q f h rows l)

-- The UPDATE picks the listings that the read missed, and no other.
IsMissed-of_unseen :
    (read : FullRead) (rows : List RealEstateListing) (l : RealEstateListing)
    → is_unseen read rows l ≡ true
    → IsMissed read rows l
IsMissed-of_unseen read rows l h = record {
  of_source = eq_of_beq l.source_id read.source_id (ground arith);
  on_offer = ground arith;
  of_deal = eq_of_beq l.deal_type read.deal_type (ground arith);
  of_property = eq_of_beq l.property_type read.property_type (ground arith);
  unmarked = unmarked_missed l.missed_at (ground arith);
  unseen = ground arith;
  ahead = end_ahead read.at l.expected_end_at (ground arith);
  no_copy = seen-copies read l rows (ground arith);
}

unseen-of_missed :
    (read : FullRead) (rows : List RealEstateListing) (l : RealEstateListing)
    → IsMissed read rows l
    → is_unseen read rows l ≡ true
unseen-of_missed read rows l m =
    let (end, stated, ahead) = m.ahead in
    let late : ltb l.last_seen_at read.read_started_at ≡ true = ground (arith, m.unseen) in
    let later : ltb read.at end ≡ true = ground arith in
    rw
      (
        copies-seen read l rows m.no_copy,
        m.of_source,
        beq_refl read.source_id,
        m.on_offer,
        m.of_deal,
        beq_refl read.deal_type,
        m.of_property,
        beq_refl read.property_type,
        m.unmarked,
        late,
        stated,
        later,
      )
      refl

IsJudged-unmarked :
    (read : FullRead) (rows : List RealEstateListing) (checked : ℕ) (l : RealEstateListing)
    → is_unseen read rows l ≡ false
    → IsJudged read rows checked l (if is_doubtful checked (some l) then unsettled else found_gone)
IsJudged-unmarked read rows checked l kept = elim (Bool-cases (is_doubtful checked (some l))) [
  | inl doubtful ↦ rw doubtful (
    unmarked_missed l.missed_at (ground arith),
    (λ m. let marked = unseen-of_missed read rows l m in cc),
    ground arith,
  )
  | inr believed ↦ rw believed (elim (Option-cases l.missed_at) [
    | inl none_yet ↦ inr (inr (ground arith))
    | inr (at, earlier) ↦ inl (at, earlier)
  ])
]

abbrev outcome_of_row : ℕ → Option RealEstateListing → CheckOutcome
outcome_of_row checked found = if is_doubtful checked found then unsettled else found_gone

record_gone-outcome :
    (id : String) (checked : ℕ) (rows : List RealEstateListing)
    → (record_gone id checked "missing" rows).1
      ≡ outcome_of_row checked (find_row (has_key id) rows)
record_gone-outcome id checked rows =
    elim (Bool-cases (is_doubtful checked (find_row (has_key id) rows))) [
      | inl doubtful ↦ rw doubtful refl
      | inr believed ↦ rw believed refl
    ]

IsJudged-row :
    (read : FullRead) (rows : List RealEstateListing) (checked : ℕ) (l : RealEstateListing)
    → IsJudged read rows checked l (
        outcome_of_row checked
          (some (if is_unseen read rows l then record l { missed_at = some read.at } else l)))
IsJudged-row read rows checked l = elim (Bool-cases (is_unseen read rows l)) [
  | inl unseen ↦ rw unseen (inr (inl (IsMissed-of_unseen read rows l unseen)))
  | inr kept ↦ rw kept (IsJudged-unmarked read rows checked l kept)
]

module _ {ℓ} {P D S : Type ℓ} (writers : OtherWriters P D S) where
  -- After a full read has marked what it missed, a page that shows no listing is in doubt only for
  -- a listing that neither this read nor an earlier one missed and that was seen less than two days
  -- before the check; it is believed only where this read or an earlier one missed the listing, or
  -- where it was not seen for two days.
  pub record_listing_check-IsJudged :
      (read : FullRead) (id : String) (checked : ℕ) (rows : List RealEstateListing)
      (l : RealEstateListing) (s : S)
      → find_row (has_key id) rows ≡ some l
      → IsJudged read rows checked l
          (record_listing_check writers id
            (dropped "missing")
            checked
            (mark_missed_listings read rows).0
            s).0.1
  unfolding record_listing_check mark_missed_listings
  record_listing_check-IsJudged read id checked rows l s found =
      let mark = λ (r : RealEstateListing). record r { missed_at = some read.at } in
      let marked =
        find_row-marked (has_key id) (is_unseen read rows) mark (λ r. refl) rows l found in
      subst (IsJudged read rows checked l)
        (sym (
          record_gone-outcome id checked (update_where (is_unseen read rows) mark rows)
          ∙ ap (outcome_of_row checked) marked))
        (IsJudged-row read rows checked l)
