-- ===== src/Base/Texts.antt =====
-- Texts as the lists of their code units, with the string operations of JavaScript that several
-- parts use, and `===` on lists and on values that may be null.
use Prim.Native.Nat.{ℕ}
use mathlib.Core.Path.{◌≡◌, refl, ap}
use mathlib.Core.Bool.{Bool, true, false, ◌&&◌, ◌||◌}
use mathlib.Core.List.{List, [], ◌∷◌, ◌++◌}
use mathlib.Core.Option.{Option, none, some}
use scraplify.Base.Tests.{
  Eq, ◌==◌, nat_eq, leb, if◌then◌else◌, eq_of_beq, beq_refl, and_left, and_right,
}
use scraplify.Base.Lists.{all}
use scraplify.Base.Sets.{has}

abbrev pub Text : Type 0
Text = List ℕ

-- The white space and line ends of JavaScript, `\s`.
abbrev pub is_space : ℕ → Bool
is_space c =
    leb 9 c && leb c 13
    || leb 8192 c && leb c 8202
    || has c (32 ∷ 160 ∷ 5760 ∷ 8232 ∷ 8233 ∷ 8239 ∷ 8287 ∷ 12288 ∷ 65279 ∷ [])

abbrev pub trim_start : Text → Text
trim_start [] = []
trim_start (c ∷ s) = if is_space c then trim_start s else c ∷ s

abbrev pub trim_end : Text → Text
trim_end [] = []
trim_end (c ∷ s) = if all is_space (c ∷ s) then [] else c ∷ trim_end s

-- `s.trim()`.
abbrev pub trim : Text → Text
trim s = trim_end (trim_start s)

-- `texts.join(',')`.
abbrev pub join_by_comma : List Text → Text
join_by_comma [] = []
join_by_comma (s ∷ []) = s
join_by_comma (s ∷ t ∷ ts) = s ++ b',' ∷ join_by_comma (t ∷ ts)

module _ {ℓ} {A : Type ℓ} ⦃e : Eq A⦄ where
  abbrev pub list_beq : List A → List A → Bool
  list_beq [] [] = true
  list_beq (x ∷ xs) (y ∷ ys) = x == y && list_beq xs ys
  list_beq _ _ = false

  pub list_beq_sound : (xs ys : List A) → list_beq xs ys ≡ true → xs ≡ ys
  list_beq_sound [] [] h = refl
  list_beq_sound [] (y ∷ ys) h = cc
  list_beq_sound (x ∷ xs) [] h = cc
  list_beq_sound (x ∷ xs) (y ∷ ys) h =
      let head = eq_of_beq x y (and_left (x == y) (list_beq xs ys) h) in
      let tail = list_beq_sound xs ys (and_right (x == y) (list_beq xs ys) h) in cc

  pub list_beq_complete : (xs : List A) → list_beq xs xs ≡ true
  list_beq_complete [] = refl
  list_beq_complete (x ∷ xs) = rw (beq_refl x, list_beq_complete xs) refl

  instance abbrev pub list_eq : Eq (List A)
  list_eq = record { test = list_beq; sound = list_beq_sound; complete = list_beq_complete }

  abbrev pub option_beq : Option A → Option A → Bool
  option_beq none none = true
  option_beq (some x) (some y) = x == y
  option_beq _ _ = false

  pub option_beq_sound : (o p : Option A) → option_beq o p ≡ true → o ≡ p
  option_beq_sound none none h = refl
  option_beq_sound none (some y) h = cc
  option_beq_sound (some x) none h = cc
  option_beq_sound (some x) (some y) h = ap some (eq_of_beq x y h)

  pub option_beq_complete : (o : Option A) → option_beq o o ≡ true
  option_beq_complete none = refl
  option_beq_complete (some x) = beq_refl x

  instance abbrev pub option_eq : Eq (Option A)
  option_eq = record { test = option_beq; sound = option_beq_sound; complete = option_beq_complete }

-- `[...new Set(xs)]`.
module _ {ℓ} {A : Type ℓ} ⦃e : Eq A⦄ where
  abbrev pub unique_from : List A → List A → List A
  unique_from seen [] = seen
  unique_from seen (x ∷ xs) = unique_from (if has x seen then seen else seen ++ x ∷ []) xs

  abbrev pub unique : List A → List A
  unique xs = unique_from [] xs
