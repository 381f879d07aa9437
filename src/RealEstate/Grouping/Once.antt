-- ===== src/RealEstate/Grouping/Once.antt =====
-- No listing is put in two groups (groupLookAlikes of src/realestate/grouping.ts).
use scraplify.Base.{
  ℕ, ◌+◌, ◌≤◌, ◌≡◌, refl, Bool, Option, none, some, List, [], ◌∷◌, ◌++◌, ltb, ◌==◌, nat_eq, list_eq,
  length, Bool-cases, inl, inr, Text, arith, if◌then◌else◌,
}
use scraplify.RealEstate.Grouping.{
  GroupingRow, GroupingPlatform, Formed, block_of, add_to_block, add_where, blocks_of,
  insert_member, sorts_before, sort_members, is_close, place, place_all, groups_of, groups_in,
  group_look_alikes,
}

abbrev one_if : Bool → ℕ
one_if b = if b then 1 else 0

-- How often an id stands in a list, in the rows, and in the groups.
unfoldable pub occurrences : Text → List Text → ℕ
occurrences x [] = 0
occurrences x (y ∷ ys) = one_if (x == y) + occurrences x ys

unfoldable pub row_occurrences : Text → List GroupingRow → ℕ
row_occurrences x [] = 0
row_occurrences x (r ∷ rs) = one_if (x == r.id) + row_occurrences x rs

unfoldable pub group_occurrences : Text → List (List Text) → ℕ
unfolding occurrences
group_occurrences x [] = 0
group_occurrences x (ids ∷ groups) = occurrences x ids + group_occurrences x groups

module _ (x : Text) where
  home_occurrences : List Formed → ℕ
  home_occurrences [] = 0
  home_occurrences (h ∷ hs) = occurrences x h.ids + home_occurrences hs

  block_occurrences : List (Text × List GroupingRow) → ℕ
  block_occurrences [] = 0
  block_occurrences ((key, ms) ∷ blocks) = row_occurrences x ms + block_occurrences blocks

  occurrences-append :
      (ys : List Text) (z : Text)
      → occurrences x (ys ++ z ∷ []) ≡ one_if (x == z) + occurrences x ys
  unfolding occurrences
  occurrences-append [] z = omega arith
  occurrences-append (y ∷ ys) z = omega (arith, occurrences-append ys z)

  row_occurrences-append :
      (rs : List GroupingRow) (r : GroupingRow)
      → row_occurrences x (rs ++ r ∷ []) ≡ one_if (x == r.id) + row_occurrences x rs
  unfolding row_occurrences
  row_occurrences-append [] r = omega arith
  row_occurrences-append (s ∷ rs) r = omega (arith, row_occurrences-append rs r)

  group_occurrences-append :
      (gs hs : List (List Text))
      → group_occurrences x (gs ++ hs) ≡ group_occurrences x gs + group_occurrences x hs
  unfolding group_occurrences
  group_occurrences-append [] hs = omega arith
  group_occurrences-append (g ∷ gs) hs = omega (arith, group_occurrences-append gs hs)

  row_occurrences-insert_member :
      (w : GroupingPlatform) (r : GroupingRow) (ms : List GroupingRow)
      → row_occurrences x (insert_member w r ms) ≡ one_if (x == r.id) + row_occurrences x ms
  unfolding row_occurrences
  row_occurrences-insert_member w r [] = refl
  row_occurrences-insert_member w r (m ∷ ms) = elim (Bool-cases (sorts_before w r m)) [
    | inl first ↦ rw first refl
    | inr after ↦ rw after (omega (arith, row_occurrences-insert_member w r ms))
  ]

  row_occurrences-sort_members :
      (w : GroupingPlatform) (ms : List GroupingRow)
      → row_occurrences x (sort_members w ms) ≡ row_occurrences x ms
  unfolding row_occurrences sort_members
  row_occurrences-sort_members w [] = refl
  row_occurrences-sort_members w (m ∷ ms) = omega (
    arith,
    row_occurrences-insert_member w m (sort_members w ms),
    row_occurrences-sort_members w ms,
  )

  home_occurrences-place :
      (r : GroupingRow) (hs : List Formed)
      → home_occurrences (place r hs) ≡ one_if (x == r.id) + home_occurrences hs
  unfolding home_occurrences occurrences
  home_occurrences-place r [] = omega arith
  home_occurrences-place r (h ∷ hs) = elim (Bool-cases (is_close h.first r)) [
    | inl near ↦ rw near (omega (arith, occurrences-append h.ids r.id))
    | inr far ↦ rw far (omega (arith, home_occurrences-place r hs))
  ]

  home_occurrences-place_all :
      (ms : List GroupingRow) (hs : List Formed)
      → home_occurrences (place_all ms hs) ≡ row_occurrences x ms + home_occurrences hs
  unfolding row_occurrences place_all
  home_occurrences-place_all [] hs = omega arith
  home_occurrences-place_all (m ∷ ms) hs =
      omega (arith, home_occurrences-place_all ms (place m hs), home_occurrences-place m hs)

  group_occurrences-groups_of :
      (hs : List Formed) → group_occurrences x (groups_of hs) ≤ home_occurrences hs
  unfolding group_occurrences home_occurrences
  group_occurrences-groups_of [] = omega arith
  group_occurrences-groups_of (h ∷ hs) = elim (Bool-cases (ltb 1 (length h.ids))) [
    | inl many ↦ rw many (omega (arith, group_occurrences-groups_of hs))
    | inr few ↦ rw few (omega (arith, group_occurrences-groups_of hs))
  ]

  group_occurrences-groups_in :
      (w : GroupingPlatform) (blocks : List (Text × List GroupingRow))
      → group_occurrences x (groups_in w blocks) ≤ block_occurrences blocks
  unfolding group_occurrences block_occurrences home_occurrences
  group_occurrences-groups_in w [] = omega arith
  group_occurrences-groups_in w ((key, ms) ∷ blocks) =
      let ih = group_occurrences-groups_in w blocks in
      let formed = place_all (sort_members w ms) [] in
      elim (Bool-cases (ltb (length ms) 2)) [
        | inl single ↦ rw single (omega (arith, ih))
        | inr several ↦ rw several (
            omega (
              arith,
              ih,
              group_occurrences-append (groups_of formed) (groups_in w blocks),
              group_occurrences-groups_of formed,
              home_occurrences-place_all (sort_members w ms) [],
              row_occurrences-sort_members w ms,
            ))
      ]

  block_occurrences-add_to_block :
      (block : Text) (r : GroupingRow) (blocks : List (Text × List GroupingRow))
      → block_occurrences (add_to_block block r blocks)
        ≡ one_if (x == r.id) + block_occurrences blocks
  unfolding block_occurrences row_occurrences
  block_occurrences-add_to_block block r [] = omega arith
  block_occurrences-add_to_block block r ((key, ms) ∷ blocks) = elim (Bool-cases (key == block)) [
    | inl same ↦ rw same (omega (arith, row_occurrences-append ms r))
    | inr other ↦ rw other (omega (arith, block_occurrences-add_to_block block r blocks))
  ]

  block_occurrences-add_where :
      (found : Option Text) (r : GroupingRow) (blocks : List (Text × List GroupingRow))
      → block_occurrences (add_where found r blocks) ≤ one_if (x == r.id) + block_occurrences blocks
  block_occurrences-add_where none r blocks = omega arith
  block_occurrences-add_where (some block) r blocks =
      omega (arith, block_occurrences-add_to_block block r blocks)

  block_occurrences-blocks_of :
      (w : GroupingPlatform) (rows : List GroupingRow) (blocks : List (Text × List GroupingRow))
      → block_occurrences (blocks_of w rows blocks)
        ≤ row_occurrences x rows + block_occurrences blocks
  unfolding row_occurrences blocks_of
  block_occurrences-blocks_of w [] blocks = omega arith
  block_occurrences-blocks_of w (r ∷ rows) blocks = omega (
    arith,
    block_occurrences-blocks_of w rows (add_where (block_of w r) r blocks),
    block_occurrences-add_where (block_of w r) r blocks,
  )

pub group_occurrences-group_look_alikes :
    (w : GroupingPlatform) (rows : List GroupingRow) (x : Text)
    → group_occurrences x (group_look_alikes w rows) ≤ row_occurrences x rows
unfolding group_look_alikes block_occurrences
group_occurrences-group_look_alikes w rows x = omega (
  arith,
  group_occurrences-groups_in x w (blocks_of w rows []),
  block_occurrences-blocks_of x w rows [],
)
