-- ===== src/PathPolicy/Decoding.antt =====
-- `decodeURIComponent` on code points: percent escapes are bytes, and the bytes are UTF-8;
-- anything malformed throws.
use scraplify.Base.{
  ℕ, ◌+◌, ◌-◌, ◌*◌, Bool, true, false, not, ◌&&◌, Option, none, some, List, [], ◌∷◌, nat_eq, ◌==◌,
  ltb, leb, if◌then◌else◌, ◌≡◌, refl, arith,
}
use scraplify.Net.IpPolicy.Text.{is_hex_digit, hex_digit_value}

pub data Token : Type 0 where
  plain byte : ℕ → Token

-- What the scanner has read of an escape.
pub data Escape : Type 0 where
  outside after_percent : Escape
  after_digit : ℕ → Escape

abbrev pub cons_to {ℓ} : {A : Type ℓ} → A → Option (List A) → Option (List A)
cons_to a none = none
cons_to a (some xs) = some (a ∷ xs)

unfoldable pub scan : Escape → List ℕ → Option (List Token)
unfolding hex_digit_value
scan outside [] = some []
scan after_percent [] = none
scan (after_digit h) [] = none
scan outside (c ∷ cs) =
    let escaped = scan after_percent cs in
    let rest = scan outside cs in if c == b'%' then escaped else cons_to (plain c) rest
scan after_percent (c ∷ cs) =
    let rest = scan (after_digit (hex_digit_value c)) cs in if is_hex_digit c then rest else none
scan (after_digit h) (c ∷ cs) =
    let rest = scan outside cs in
    if is_hex_digit c then cons_to (byte (h * 16 + hex_digit_value c)) rest else none

-- How many continuation bytes are missing, the value so far and the least value of that length.
pub data Sequence : Type 0 where
  complete : Sequence
  missing : (n value least : ℕ) → Sequence

-- The start of a sequence; `none` for a byte that cannot start one.
abbrev pub start_sequence : ℕ → Option Sequence
start_sequence b =
    if ltb b 0xc0
    then none
    else if ltb b 0xe0
    then some (missing 1 (b - 0xc0) 0x80)
    else if ltb b 0xf0
    then some (missing 2 (b - 0xe0) 0x800)
    else if ltb b 0xf8
    then some (missing 3 (b - 0xf0) 0x10000)
    else none

-- No overlong form, no surrogate and nothing beyond Unicode.
abbrev pub is_scalar : ℕ → ℕ → Bool
is_scalar value least =
    leb least value && leb value 0x10ffff && not (leb 0xd800 value && leb value 0xdfff)

unfoldable pub assemble : Sequence → List Token → Option (List ℕ)
assemble complete [] = some []
assemble (missing n value least) [] = none
assemble complete (plain c ∷ ts) = cons_to c (assemble complete ts)
assemble (missing n value least) (plain c ∷ ts) = none
assemble complete (byte b ∷ ts) =
    let rest = assemble complete ts in
    let more = λ (s : Sequence). assemble s ts in
    if ltb b 0x80 then cons_to b rest else elim (start_sequence b) [ none ↦ none | some s ↦ more s ]
assemble (missing n value least) (byte b ∷ ts) =
    let next = value * 64 + (b - 0x80) in
    let more = assemble (missing (n - 1) next least) ts in
    let rest = assemble complete ts in
    if not (leb 0x80 b && ltb b 0xc0)
    then none
    else if ltb 1 n
    then more
    else if is_scalar next least
    then cons_to next rest
    else none

abbrev pub assemble_all : Option (List Token) → Option (List ℕ)
assemble_all none = none
assemble_all (some ts) = assemble complete ts

unfoldable pub decode_uri_component : List ℕ → Option (List ℕ)
unfolding scan assemble
decode_uri_component text = assemble_all (scan outside text)

-- `===` on texts.
abbrev pub text_eq : List ℕ → List ℕ → Bool
text_eq [] [] = true
text_eq [] (d ∷ ds) = false
text_eq (c ∷ cs) [] = false
text_eq (c ∷ cs) (d ∷ ds) = c == d && text_eq cs ds

-- `text.startsWith(start)`.
abbrev pub starts_with : List ℕ → List ℕ → Bool
starts_with cs [] = true
starts_with [] (d ∷ ds) = false
starts_with (c ∷ cs) (d ∷ ds) = c == d && starts_with cs ds

pub text_eq_sound : (a b : List ℕ) → text_eq a b ≡ true → a ≡ b
text_eq_sound [] [] h = refl
text_eq_sound [] (d ∷ ds) h = absurd (ground arith)
text_eq_sound (c ∷ cs) [] h = absurd (ground arith)
text_eq_sound (c ∷ cs) (d ∷ ds) h = ground (arith, text_eq_sound cs ds)

pub text_eq_refl : (a : List ℕ) → text_eq a a ≡ true
text_eq_refl [] = refl
text_eq_refl (c ∷ cs) = ground (arith, text_eq_refl cs)
