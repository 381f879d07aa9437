-- ===== src/Net/IpPolicy/Text.antt =====
-- The string operations of JavaScript that src/domain/ip-policy.ts applies to an address, over
-- lists of code points.
use Prim.Native.Char.{code}
use scraplify.Base.{
  ℕ, zero, suc, ◌+◌, ◌-◌, ◌*◌, ◌/◌, ◌%◌, Bool, ◌&&◌, ◌||◌, Option, none, some, List, [], ◌∷◌, ◌++◌,
  String, ◌==◌, nat_eq, ltb, leb, if◌then◌else◌, length, all,
}

abbrev pub codes : String → List ℕ
codes String.[] = []
codes (String.◌∷◌ c s) = code c ∷ codes s

abbrev pub is_digit : ℕ → Bool
is_digit c = leb b'0' c && leb c b'9'

abbrev pub is_hex_digit : ℕ → Bool
is_hex_digit c = is_digit c || (leb b'a' c && leb c b'f') || (leb b'A' c && leb c b'F')

-- /^\d{lo,hi}$/
abbrev pub is_digits : ℕ → ℕ → List ℕ → Bool
is_digits lo hi s = leb lo (length s) && leb (length s) hi && all is_digit s

unfoldable pub value_from : ℕ → List ℕ → ℕ
value_from n [] = n
value_from n (c ∷ s) = value_from (n * 10 + (c - b'0')) s

-- `Number(part)` of a text of digits.
unfoldable pub decimal_value : List ℕ → ℕ
unfolding value_from
decimal_value s = value_from 0 s

unfoldable pub hex_digit_value : ℕ → ℕ
hex_digit_value c =
    if is_digit c then c - b'0' else if leb b'a' c then c - b'a' + 10 else c - b'A' + 10

unfoldable pub hex_from : ℕ → List ℕ → ℕ
hex_from n [] = n
hex_from n (c ∷ s) = hex_from (n * 16 + hex_digit_value c) s

-- `Number.parseInt(group, 16)` of a text of hexadecimal digits.
unfoldable pub hex_value : List ℕ → ℕ
unfolding hex_from hex_digit_value
hex_value s = hex_from 0 s

-- /^[0-9a-fA-F]{1,4}$/
abbrev pub is_hex_group : List ℕ → Bool
is_hex_group s = leb 1 (length s) && leb (length s) 4 && all is_hex_digit s

abbrev pub hex_digit : ℕ → ℕ
hex_digit d = if ltb d 10 then b'0' + d else b'a' + (d - 10)

to_hex_from : ℕ → ℕ → List ℕ
to_hex_from zero n = []
to_hex_from (suc fuel) n =
    let more = to_hex_from fuel (n / 16) in
    if ltb n 16 then hex_digit n ∷ [] else more ++ hex_digit (n % 16) ∷ []

-- `n.toString(16)` of a number below 2^16: four digits are enough.
unfoldable pub to_hex : ℕ → List ℕ
unfolding to_hex_from
to_hex n = to_hex_from 4 n

-- `s.split(c)` for one character: the part being read stands at the head.
unfoldable pub split : ℕ → List ℕ → List (List ℕ)
split c [] = [] ∷ []
split c (d ∷ s) = elim (split c s) [
  | [] ↦ (d ∷ []) ∷ []
  | part ∷ parts ↦ if d == c then [] ∷ part ∷ parts else (d ∷ part) ∷ parts
]

abbrev pub shift_index : Option ℕ → Option ℕ
shift_index none = none
shift_index (some i) = some (suc i)

-- `s.indexOf(c)`; `none` is its -1.
unfoldable pub index_of : ℕ → List ℕ → Option ℕ
index_of c [] = none
index_of c (d ∷ s) = if d == c then some 0 else shift_index (index_of c s)

abbrev last_step : Bool → Option ℕ → Option ℕ
last_step here (some i) = some (suc i)
last_step here none = if here then some 0 else none

-- `s.lastIndexOf(c)`.
unfoldable pub last_index_of : ℕ → List ℕ → Option ℕ
last_index_of c [] = none
last_index_of c (d ∷ s) = last_step (d == c) (last_index_of c s)

module _ {ℓ} {A : Type ℓ} where
  abbrev pub take : ℕ → List A → List A
  take zero xs = []
  take (suc n) [] = []
  take (suc n) (x ∷ xs) = x ∷ take n xs

  abbrev pub drop : ℕ → List A → List A
  drop zero xs = xs
  drop (suc n) [] = []
  drop (suc n) (x ∷ xs) = drop n xs

  abbrev pub replicate : ℕ → A → List A
  replicate zero a = []
  replicate (suc n) a = a ∷ replicate n a

-- How often /::/g matches.
unfoldable pub double_colon_count : List ℕ → ℕ
double_colon_count [] = 0
double_colon_count (c ∷ []) = 0
double_colon_count (c ∷ d ∷ s) =
    let past = suc (double_colon_count s) in
    let next = double_colon_count (d ∷ s) in if c == b':' && d == b':' then past else next

-- `s.split('::')` where it matches once: what stands before and behind it.
unfoldable pub split_double_colon : List ℕ → Option (List ℕ × List ℕ)
split_double_colon [] = none
split_double_colon (c ∷ []) = none
split_double_colon (c ∷ d ∷ s) =
    if c == b':' && d == b':' then some ([], s) else elim (split_double_colon (d ∷ s)) [
      | none ↦ none
      | some (left, right) ↦ some (c ∷ left, right)
    ]
