-- ===== src/Outreach/Content.antt =====
-- The hash of what an approval binds (`contentHash` of src/outreach/draft-store.ts): the JSON text
-- of an array in a fixed order, as `JSON.stringify` writes it, under SHA-256, which is a parameter.
pub mod Digits
pub mod Quoting
pub mod Canonical
use Prim.Native.Char.{code}
use scraplify.Base.{
  ℕ, zero, suc, ◌+◌, ◌-◌, ◌*◌, ◌/◌, ◌%◌, Bool, true, false, ◌&&◌, ◌||◌, Option, none, some, List,
  [], ◌∷◌, ◌++◌, ltb, leb, ◌==◌, nat_eq, if◌then◌else◌, Text, join_by_comma,
}
use scraplify.Net.IpPolicy.Text.{codes, hex_digit}
use scraplify.Outreach.Model.{DraftKind, email, cover_letter, BoundContent}

abbrev pub is_high_surrogate : ℕ → Bool
is_high_surrogate c = leb 55296 c && leb c 56319

abbrev pub is_low_surrogate : ℕ → Bool
is_low_surrogate c = leb 56320 c && leb c 57343

-- The letter of a short escape, 0 where there is none.
unfoldable pub short_escape : ℕ → ℕ
short_escape c =
    if c == 8
    then b'b'
    else if c == 9
    then b't'
    else if c == 10
    then b'n'
    else if c == 12
    then b'f'
    else if c == 13
    then b'r'
    else if c == 34
    then 34
    else if c == 92
    then 92
    else 0

unfoldable pub hex4 : ℕ → Text
hex4 c =
    hex_digit (c / 4096)
    ∷ hex_digit (c / 256 % 16)
    ∷ hex_digit (c / 16 % 16)
    ∷ hex_digit (c % 16)
    ∷ []

abbrev pub is_hex_escaped : ℕ → Bool
is_hex_escaped c = ltb c 32 || leb 55296 c && leb c 57343

-- One code unit that is not half of a surrogate pair.
unfoldable pub escape_unit : ℕ → Text
unfolding short_escape hex4
escape_unit c =
    if ltb 0 (short_escape c)
    then 92 ∷ short_escape c ∷ []
    else if is_hex_escaped c
    then 92 ∷ b'u' ∷ hex4 c
    else c ∷ []

-- The inside of a JSON string and its closing quote.
unfoldable pub escape : Text → Text
unfolding escape_unit
escape [] = 34 ∷ []
escape (c ∷ []) = escape_unit c ++ 34 ∷ []
escape (c ∷ d ∷ s) =
    let pair_rest = escape s in
    let unit_rest = escape (d ∷ s) in
    if is_high_surrogate c && is_low_surrogate d
    then c ∷ d ∷ pair_rest
    else escape_unit c ++ unit_rest

abbrev pub quote : Text → Text
quote s = 34 ∷ escape s

abbrev pub nullable : Option Text → Text
nullable none = codes "null"
nullable (some s) = quote s

unfoldable pub decimal_from : ℕ → ℕ → Text
decimal_from zero n = []
decimal_from (suc fuel) n =
    let more = decimal_from fuel (n / 10) in
    if ltb n 10 then (b'0' + n) ∷ [] else more ++ (b'0' + n % 10) ∷ []

-- A number in decimals: its own value is more than enough digits.
unfoldable pub decimal : ℕ → Text
unfolding decimal_from
decimal n = decimal_from (suc n) n

abbrev pub kind_word : DraftKind → Text
kind_word email = codes "email"
kind_word cover_letter = codes "cover_letter"

abbrev pub hash_scheme : Text
hash_scheme = codes "outreach-approval-v1"

unfoldable pub canonical : BoundContent → Text
unfolding escape decimal
canonical c =
    b'['
      ∷ join_by_comma (
          quote hash_scheme
          ∷ quote (kind_word c.kind)
          ∷ nullable c.recipient
          ∷ nullable c.subject
          ∷ quote c.body
          ∷ codes "[]"
          ∷ quote c.profile_id
          ∷ decimal c.profile_version
          ∷ quote c.opportunity_revision_id
          ∷ quote c.source_listing_revision_id
          ∷ [])
    ++ b']' ∷ []

-- `sha256` takes the UTF-16 text; that it is written in UTF-8 first is part of the parameter.
unfoldable pub content_hash : (Text → Text) → BoundContent → Text
unfolding canonical
content_hash sha256 c = sha256 (canonical c)
