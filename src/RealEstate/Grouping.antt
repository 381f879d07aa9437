-- ===== src/RealEstate/Grouping.antt =====
-- Adverts of one property (groupLookAlikes of src/realestate/grouping.ts). Areas are in hundredths of
-- a square metre and prices in cents, as their columns hold them, so the two slacks that absorb the
-- rounding of doubles are not needed; a number that only the key of a block reads is kept as it is
-- written. A price that is not above 0 is 0.
pub mod Alike
pub mod Once
pub mod Groups
mod Tests
use scraplify.Base.{
  ℕ, ◌+◌, ◌-◌, ◌*◌, Bool, true, false, not, ◌&&◌, ◌||◌, Option, none, some, List, [], ◌∷◌, ◌++◌,
  ltb, leb, ◌==◌, nat_eq, list_eq, if◌then◌else◌, length, is_none, Text,
}
use scraplify.Net.IpPolicy.Text.{codes}
use scraplify.RealEstate.Streets.{street_key}

abbrev pub area_margin : ℕ
area_margin = 60

abbrev pub price_margin_percent : ℕ
price_margin_percent = 3

-- The group key of the pass before is read by another part.
pub record GroupingRow : Type 0 where
  pub id : Text
  pub deal_type : Text
  pub property_type : Text
  pub city_ref : Option Text
  pub subdistrict_ref : Option Text
  pub street_name : Option Text
  pub rooms : Option Text
  pub floor : Option Text
  pub total_floors : Option Text
  pub area_m2 : Option ℕ
  pub price_usd : Option ℕ

-- `locale_before` is `a.localeCompare(b) <= 0`.
pub record GroupingPlatform : Type 0 where
  pub to_lower_case : Text → Text
  pub locale_before : Text → Text → Bool

abbrev pub prefixed : Text → Option Text → Option Text
prefixed part none = none
prefixed part (some rest) = some (part ++ b'|' ∷ rest)

-- `parts.join('|')`, none where one of them is missing.
abbrev pub joined : List (Option Text) → Option Text
joined [] = some []
joined (none ∷ parts) = none
joined (some part ∷ []) = some part
joined (some part ∷ next ∷ parts) = prefixed part (joined (next ∷ parts))

abbrev pub or_dash : Option Text → Text
or_dash none = codes "-"
or_dash (some floor) = floor

abbrev pub is_positive : Option ℕ → Bool
is_positive none = false
is_positive (some price) = ltb 0 price

unfoldable pub block_of : GroupingPlatform → GroupingRow → Option Text
block_of w row =
    if is_none row.area_m2
      || not (is_positive row.price_usd)
      || (row.property_type == codes "flat" && is_none row.floor)
    then none
    else joined (
        some row.deal_type
        ∷ some row.property_type
        ∷ row.city_ref
        ∷ row.subdistrict_ref
        ∷ street_key w.to_lower_case row.street_name
        ∷ row.rooms
        ∷ some (or_dash row.floor)
        ∷ row.total_floors
        ∷ [])

-- The members of a row's block, which comes last where it is new.
abbrev pub add_to_block :
    Text → GroupingRow → List (Text × List GroupingRow) → List (Text × List GroupingRow)
add_to_block block row [] = (block, row ∷ []) ∷ []
add_to_block block row ((key, members) ∷ blocks) =
    if key == block
    then (key, members ++ row ∷ []) ∷ blocks
    else (key, members) ∷ add_to_block block row blocks

abbrev pub add_where :
    Option Text → GroupingRow → List (Text × List GroupingRow) → List (Text × List GroupingRow)
add_where none row blocks = blocks
add_where (some block) row blocks = add_to_block block row blocks

unfoldable pub blocks_of :
    GroupingPlatform
    → List GroupingRow
    → List (Text × List GroupingRow)
    → List (Text × List GroupingRow)
blocks_of w [] blocks = blocks
blocks_of w (row ∷ rows) blocks = blocks_of w rows (add_where (block_of w row) row blocks)

-- `row.areaM2 as number` of a row that is in a block.
abbrev pub known_number : Option ℕ → ℕ
known_number none = 0
known_number (some n) = n

abbrev pub sorts_before : GroupingPlatform → GroupingRow → GroupingRow → Bool
sorts_before w a b =
    let area_a : ℕ = known_number a.area_m2 in
    let area_b : ℕ = known_number b.area_m2 in
    let price_a : ℕ = known_number a.price_usd in
    let price_b : ℕ = known_number b.price_usd in
    ltb area_a area_b
    || (area_a == area_b
        && (ltb price_a price_b || (price_a == price_b && w.locale_before a.id b.id)))

abbrev pub insert_member : GroupingPlatform → GroupingRow → List GroupingRow → List GroupingRow
insert_member w row [] = row ∷ []
insert_member w row (m ∷ members) =
    let rest : List GroupingRow = insert_member w row members in
    if sorts_before w row m then row ∷ m ∷ members else m ∷ rest

unfoldable pub sort_members : GroupingPlatform → List GroupingRow → List GroupingRow
sort_members w [] = []
sort_members w (row ∷ rows) = insert_member w row (sort_members w rows)

abbrev pub gap : ℕ → ℕ → ℕ
gap a b = (a - b) + (b - a)

unfoldable pub is_close : GroupingRow → GroupingRow → Bool
is_close first row =
    leb (gap (known_number row.area_m2) (known_number first.area_m2)) area_margin
    && leb (gap (known_number row.price_usd) (known_number first.price_usd) * 100)
        (price_margin_percent * known_number first.price_usd)

pub record Formed : Type 0 where
  pub first : GroupingRow
  pub ids : List Text

-- The first home whose first member is close takes the row, or it begins one.
abbrev pub place : GroupingRow → List Formed → List Formed
place row [] = record { first = row; ids = row.id ∷ [] } ∷ []
place row (home ∷ homes) =
    if is_close home.first row
    then record home { ids = home.ids ++ row.id ∷ [] } ∷ homes
    else home ∷ place row homes

unfoldable pub place_all : List GroupingRow → List Formed → List Formed
place_all [] formed = formed
place_all (row ∷ rows) formed = place_all rows (place row formed)

abbrev pub groups_of : List Formed → List (List Text)
groups_of [] = []
groups_of (home ∷ homes) =
    if ltb 1 (length home.ids) then home.ids ∷ groups_of homes else groups_of homes

abbrev pub groups_in : GroupingPlatform → List (Text × List GroupingRow) → List (List Text)
groups_in w [] = []
groups_in w ((key, members) ∷ blocks) =
    if ltb (length members) 2
    then groups_in w blocks
    else groups_of (place_all (sort_members w members) []) ++ groups_in w blocks

unfoldable pub group_look_alikes : GroupingPlatform → List GroupingRow → List (List Text)
unfolding blocks_of
group_look_alikes w rows = groups_in w (blocks_of w rows [])
