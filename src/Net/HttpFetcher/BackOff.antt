-- ===== src/Net/HttpFetcher/BackOff.antt =====
-- How long to wait after a source pushes back (`backOffSpacingMs` of src/net/http-fetcher.ts).
-- JavaScript computes in doubles there; the cap is far below where they lose whole numbers.
use scraplify.Base.{
  ℕ, zero, suc, ◌-◌, ◌*◌, ◌^◌, ◌≤◌, min, max, ◌&&◌, Option, none, some, List, [], ◌∷◌, leb, nat_eq,
  if◌then◌else◌, length, all, Text, trim, arith,
}
use scraplify.Net.IpPolicy.Text.{is_digit, decimal_value}

-- A header's value: `undefined`, a string or an array of strings.
pub data HeaderValue : Type 0 where
  absent : HeaderValue
  single : Text → HeaderValue
  several : List Text → HeaderValue

abbrev pub first_value : HeaderValue → Option Text
first_value absent = none
first_value (single value) = some value
first_value (several []) = none
first_value (several (value ∷ values)) = some value

abbrev pub base_ms : ℕ
base_ms = 5000

abbrev pub max_ms : ℕ
max_ms = 60000

-- `Date.parse(trimmed) || now`.
abbrev pub or_now : ℕ → Option ℕ → ℕ
or_now now none = now
or_now now (some zero) = now
or_now now (some (suc t)) = suc t

abbrev pub requested_ms : (Text → Option ℕ) → ℕ → Option Text → ℕ
requested_ms parse_date now none = 0
requested_ms parse_date now (some value) =
    let trimmed : Text = trim value in
    if leb 1 (length trimmed) && all is_digit trimmed
    then decimal_value trimmed * 1000
    else or_now now (parse_date trimmed) - now

unfoldable pub back_off_spacing_ms : (Text → Option ℕ) → HeaderValue → ℕ → ℕ → ℕ
back_off_spacing_ms parse_date retry_after previous_back_offs now =
    min max_ms (
      max (base_ms * 2 ^ previous_back_offs)
        (requested_ms parse_date now (first_value retry_after)))

one_le_pow : (n : ℕ) → 1 ≤ 2 ^ n
one_le_pow zero = omega arith
one_le_pow (suc n) = omega (arith, one_le_pow n)

-- Whatever the source asks for, the spacing is between 5 and 60 seconds, it is no shorter than what
-- was asked for, up to the cap, and from the fourth push-back before it on it is the cap.
pub back_off_spacing_ms-between :
    (parse_date : Text → Option ℕ) (retry_after : HeaderValue) (previous now : ℕ)
    → let spacing : ℕ = back_off_spacing_ms parse_date retry_after previous now in
      (5000 ≤ spacing)
      × (spacing ≤ 60000)
      × (min 60000 (requested_ms parse_date now (first_value retry_after)) ≤ spacing)
unfolding back_off_spacing_ms
back_off_spacing_ms-between parse_date retry_after previous now =
    let grown : 1 ≤ 2 ^ previous = one_le_pow previous in (omega arith, omega arith, omega arith)
