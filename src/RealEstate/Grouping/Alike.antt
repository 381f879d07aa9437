-- ===== src/RealEstate/Grouping/Alike.antt =====
-- What the members of a group have in common (groupLookAlikes of src/realestate/grouping.ts).
use mathlib.Core.List.{Memᴰ}
use scraplify.Base.{
  ◌*◌, ◌≤◌, ◌≡◌, refl, sym, ap, ◌∙◌, true, Option, none, some, List, [], ◌∷◌, ◌++◌, ltb, ◌==◌,
  nat_eq, list_eq, eq_of_beq, length, map, Bool-cases, inl, inr, Text, arith,
}
use scraplify.RealEstate.Grouping.{
  GroupingRow, GroupingPlatform, Formed, block_of, add_to_block, add_where, blocks_of, known_number,
  insert_member, sorts_before, sort_members, gap, is_close, place, place_all, groups_of, groups_in,
  group_look_alikes,
}

unfoldable pub Every {ℓ κ} : {A : Type ℓ} → (A → Type κ) → List A → Type κ
Every P [] = Unit
Every P (x ∷ xs) = P x × Every P xs

module _ {ℓ κ} {A : Type ℓ} (P : A → Type κ) where
  Every-append : (xs ys : List A) → Every P xs → Every P ys → Every P (xs ++ ys)
  unfolding Every
  Every-append [] ys h k = k
  Every-append (x ∷ xs) ys (p, h) k = (p, Every-append xs ys h k)

-- A listing that was given, of this block.
abbrev pub InBlock : GroupingPlatform → List GroupingRow → Text → GroupingRow → Type 0
InBlock w rows block r = Memᴰ r rows × (block_of w r ≡ some block)

-- Within 0.6 square metres and 3 hundredths of the first one's price.
abbrev pub IsClose : GroupingRow → GroupingRow → Type 0
IsClose first r =
    (gap (known_number r.area_m2) (known_number first.area_m2) ≤ 60)
    × (gap (known_number r.price_usd) (known_number first.price_usd) * 100
        ≤ 3 * known_number first.price_usd)

pub data IsAlike (w : GroupingPlatform) (rows : List GroupingRow) (ids : List Text) : Type 0 where
  alike :
      (block : Text) (first second : GroupingRow) (others : List GroupingRow)
      → ids ≡ map (λ (r : GroupingRow). r.id) (first ∷ second ∷ others)
      → Every (InBlock w rows block) (first ∷ second ∷ others)
      → Every (IsClose first) (second ∷ others)
      → IsAlike w rows ids

IsClose-of_is_close : (first r : GroupingRow) → is_close first r ≡ true → IsClose first r
unfolding is_close
IsClose-of_is_close first r h = ground arith

map_append_one :
    (rs : List GroupingRow) (r : GroupingRow)
    → map (λ (s : GroupingRow). s.id) (rs ++ r ∷ [])
      ≡ map (λ (s : GroupingRow). s.id) rs ++ r.id ∷ []
map_append_one [] r = refl
map_append_one (s ∷ rs) r = ap (λ ids. s.id ∷ ids) (map_append_one rs r)

-- A group that is being formed, of listings that satisfy `P`.
data IsHome (P : GroupingRow → Type 0) (h : Formed) : Type 0 where
  home :
      (others : List GroupingRow)
      → h.ids ≡ map (λ (r : GroupingRow). r.id) (h.first ∷ others)
      → P h.first
      → Every P others
      → Every (IsClose h.first) others
      → IsHome P h

module _ (w : GroupingPlatform) (P : GroupingRow → Type 0) where
  insert_member-Every :
      (r : GroupingRow) (ms : List GroupingRow) → P r → Every P ms → Every P (insert_member w r ms)
  unfolding Every
  insert_member-Every r [] p h = (p, tt)
  insert_member-Every r (m ∷ ms) p (q, h) = elim (Bool-cases (sorts_before w r m)) [
    | inl first ↦ rw first (p, (q, h))
    | inr after ↦ rw after (q, insert_member-Every r ms p h)
  ]

  sort_members-Every : (ms : List GroupingRow) → Every P ms → Every P (sort_members w ms)
  unfolding Every sort_members
  sort_members-Every [] h = tt
  sort_members-Every (m ∷ ms) (p, h) =
      insert_member-Every m (sort_members w ms) p (sort_members-Every ms h)

  joined-IsHome :
      (r : GroupingRow) (h : Formed)
      → P r
      → is_close h.first r ≡ true
      → IsHome P h
      → IsHome P (record h { ids = h.ids ++ r.id ∷ [] })
  unfolding Every
  joined-IsHome r h p near (home others ids q all close) =
      home (others ++ r ∷ [])
        (ap (λ is. is ++ r.id ∷ []) ids
          ∙ ap (λ is. h.first.id ∷ is) (sym (map_append_one others r)))
        q (Every-append P others (r ∷ []) all (p, tt))
        (Every-append (IsClose h.first) others (r ∷ []) close
          (IsClose-of_is_close h.first r near, tt))

  place-IsHome :
      (r : GroupingRow) (hs : List Formed)
      → P r
      → Every (IsHome P) hs
      → Every (IsHome P) (place r hs)
  unfolding Every
  place-IsHome r [] p all = (home [] refl p tt tt, tt)
  place-IsHome r (h ∷ hs) p (this, all) = elim (Bool-cases (is_close h.first r)) [
    | inl near ↦ rw near (joined-IsHome r h p near this, all)
    | inr far ↦ rw far (this, place-IsHome r hs p all)
  ]

  place_all-IsHome :
      (ms : List GroupingRow) (hs : List Formed)
      → Every P ms
      → Every (IsHome P) hs
      → Every (IsHome P) (place_all ms hs)
  unfolding Every place_all
  place_all-IsHome [] hs h all = all
  place_all-IsHome (m ∷ ms) hs (p, h) all =
      place_all-IsHome ms (place m hs) h (place-IsHome m hs p all)

module _ (w : GroupingPlatform) (rows : List GroupingRow) where
  IsAlike-of_home :
      (block : Text) (h : Formed)
      → IsHome (InBlock w rows block) h
      → ltb 1 (length h.ids) ≡ true
      → IsAlike w rows h.ids
  unfolding Every
  IsAlike-of_home block h (home [] ids p all close) many =
      let one : length h.ids ≡ 1 = ap length ids in ground arith
  IsAlike-of_home block h (home (second ∷ others) ids p all close) many =
      alike block h.first second others ids (p, all) close

  groups_of-IsAlike :
      (block : Text) (hs : List Formed)
      → Every (IsHome (InBlock w rows block)) hs
      → Every (IsAlike w rows) (groups_of hs)
  unfolding Every
  groups_of-IsAlike block [] all = tt
  groups_of-IsAlike block (h ∷ hs) (this, all) = elim (Bool-cases (ltb 1 (length h.ids))) [
    | inl many ↦ rw many (IsAlike-of_home block h this many, groups_of-IsAlike block hs all)
    | inr few ↦ rw few (groups_of-IsAlike block hs all)
  ]

  -- The blocks that are collected: each listing in the block of its key.
  AllBlocks : List (Text × List GroupingRow) → Type 0
  AllBlocks [] = Unit
  AllBlocks ((key, members) ∷ blocks) = Every (InBlock w rows key) members × AllBlocks blocks

  add_to_block-AllBlocks :
      (block : Text) (r : GroupingRow) (blocks : List (Text × List GroupingRow))
      → InBlock w rows block r
      → AllBlocks blocks
      → AllBlocks (add_to_block block r blocks)
  unfolding Every AllBlocks
  add_to_block-AllBlocks block r [] p all = ((p, tt), tt)
  add_to_block-AllBlocks block r ((key, ms) ∷ blocks) p (this, all) =
      elim (Bool-cases (key == block)) [
        | inl same ↦
            let q : InBlock w rows key r = (p.0, p.1 ∙ ap some (sym (eq_of_beq key block same))) in
            rw same (Every-append (InBlock w rows key) ms (r ∷ []) this (q, tt), all)
        | inr other ↦ rw other (this, add_to_block-AllBlocks block r blocks p all)
      ]

  add_where-AllBlocks :
      (found : Option Text) (r : GroupingRow) (blocks : List (Text × List GroupingRow))
      → block_of w r ≡ found
      → Memᴰ r rows
      → AllBlocks blocks
      → AllBlocks (add_where found r blocks)
  unfolding AllBlocks
  add_where-AllBlocks none r blocks e m all = all
  add_where-AllBlocks (some block) r blocks e m all =
      add_to_block-AllBlocks block r blocks (m, e) all

  blocks_of-AllBlocks :
      (rest : List GroupingRow) (blocks : List (Text × List GroupingRow))
      → ((r : GroupingRow) → Memᴰ r rest → Memᴰ r rows)
      → AllBlocks blocks
      → AllBlocks (blocks_of w rest blocks)
  unfolding AllBlocks blocks_of
  blocks_of-AllBlocks [] blocks inside all = all
  blocks_of-AllBlocks (r ∷ rest) blocks inside all =
      blocks_of-AllBlocks rest (add_where (block_of w r) r blocks) (λ s m. inside s (Memᴰ.tail m))
        (add_where-AllBlocks (block_of w r) r blocks refl (inside r (Memᴰ.head refl)) all)

  groups_in-IsAlike :
      (blocks : List (Text × List GroupingRow))
      → AllBlocks blocks
      → Every (IsAlike w rows) (groups_in w blocks)
  unfolding Every AllBlocks
  groups_in-IsAlike [] all = tt
  groups_in-IsAlike ((key, ms) ∷ blocks) (this, all) =
      let formed : Every (IsHome (InBlock w rows key)) (place_all (sort_members w ms) []) =
        place_all-IsHome w (InBlock w rows key) (sort_members w ms) []
          (sort_members-Every w (InBlock w rows key) ms this) tt in
      elim (Bool-cases (ltb (length ms) 2)) [
        | inl single ↦ rw single (groups_in-IsAlike blocks all)
        | inr several ↦ rw several (
            Every-append (IsAlike w rows) (groups_of (place_all (sort_members w ms) []))
              (groups_in w blocks) (groups_of-IsAlike key _ formed) (groups_in-IsAlike blocks all))
      ]

pub group_look_alikes-IsAlike :
    (w : GroupingPlatform) (rows : List GroupingRow)
    → Every (IsAlike w rows) (group_look_alikes w rows)
unfolding group_look_alikes AllBlocks
group_look_alikes-IsAlike w rows =
    groups_in-IsAlike w rows (blocks_of w rows [])
      (blocks_of-AllBlocks w rows rows [] (λ r m. m) tt)
