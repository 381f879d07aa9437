-- ===== src/RealEstate/Grouping/Groups.antt =====
-- The result of groupLookAlikes (src/realestate/grouping.ts) as a whole.
use scraplify.Base.{◌≤◌, List, Text}
use scraplify.RealEstate.Grouping.{GroupingRow, GroupingPlatform, group_look_alikes}
use scraplify.RealEstate.Grouping.Alike.{Every, IsAlike, group_look_alikes-IsAlike}
use scraplify.RealEstate.Grouping.Once.{
  group_occurrences, row_occurrences, group_occurrences-group_look_alikes,
}

-- Every group has two members at least, all of them given and of one block, with their areas within
-- 0.6 square metres and their prices within 3 hundredths of the first member's, however many there
-- are, so small steps do not chain different properties together. An id stands in the groups no more
-- often than in the rows, so a listing is in one group at most, and once.
pub group_look_alikes_lem :
    (w : GroupingPlatform) (rows : List GroupingRow) (id : Text)
    → Every (IsAlike w rows) (group_look_alikes w rows)
      × (group_occurrences id (group_look_alikes w rows) ≤ row_occurrences id rows)
group_look_alikes_lem w rows id =
    (group_look_alikes-IsAlike w rows, group_occurrences-group_look_alikes w rows id)
