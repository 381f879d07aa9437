-- ===== src/RealEstate/Grouping/Tests.antt =====
-- One flat posted three times, and a smaller one.
use scraplify.Base.{ℕ, ◌≡◌, ◌≤◌, refl, true, none, some, List, [], ◌∷◌, Text}
use scraplify.Net.IpPolicy.Text.{codes}
use scraplify.RealEstate.Streets.{street_key}
use scraplify.RealEstate.Grouping.{
  GroupingRow, GroupingPlatform, block_of, blocks_of, sort_members, is_close, place_all,
  group_look_alikes,
}
use scraplify.RealEstate.Grouping.Alike.{Every, IsAlike}
use scraplify.RealEstate.Grouping.Once.{group_occurrences, row_occurrences}
use scraplify.RealEstate.Grouping.Groups.{group_look_alikes_lem}

abbrev platform : GroupingPlatform
platform = record { to_lower_case = λ s. s; locale_before = λ a b. true }

abbrev flat : (id street : Text) (area_m2 price_usd : ℕ) → GroupingRow
flat id street area_m2 price_usd = record {
  id = id;
  deal_type = codes "sale";
  property_type = codes "flat";
  city_ref = some (codes "95");
  subdistrict_ref = some (codes "2");
  street_name = some street;
  rooms = some (codes "3");
  floor = some (codes "4");
  total_floors = some (codes "9");
  area_m2 = some area_m2;
  price_usd = some price_usd;
}

abbrev rows : List GroupingRow
rows =
    flat (codes "c") (codes "ცინცაძის ქუჩა") 6550 10200000
    ∷ flat (codes "a") (codes "ს.ცინცაძის ქ.") 6500 10000000
    ∷ flat (codes "d") (codes "ცინცაძის") 6600 10300000
    ∷ flat (codes "b") (codes "ცინცაძის ქ.") 6520 10300000
    ∷ record (flat (codes "e") (codes "ცინცაძის") 6500 10000000) { floor = none }
    ∷ []

-- The fourth is within the margin of the third, which is not the first of its group.
grouped : group_look_alikes platform rows ≡ (codes "a" ∷ codes "b" ∷ codes "c" ∷ []) ∷ []
unfolding group_look_alikes blocks_of block_of street_key sort_members is_close place_all
grouped = refl

group_look_alikes_lem_example :
    Every (IsAlike platform rows) (group_look_alikes platform rows)
    × (group_occurrences (codes "a") (group_look_alikes platform rows)
        ≤ row_occurrences (codes "a") rows)
group_look_alikes_lem_example = group_look_alikes_lem platform rows (codes "a")
