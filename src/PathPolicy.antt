-- ===== src/PathPolicy.antt =====
-- Which paths a source's policy lets the crawlers fetch (src/domain/source.ts). A text is the list
-- of its code points; the patterns are compared with decoded paths, as the source does.
pub mod Decoding
pub mod Rules
mod Tests
use scraplify.Base.{
  ℕ, zero, suc, Bool, true, false, not, ◌&&◌, ◌||◌, Option, none, some, List, [], ◌∷◌, nat_eq, ◌==◌,
  if◌then◌else◌, any,
}
use scraplify.Net.IpPolicy.Text.{split}
use scraplify.PathPolicy.Decoding.{decode_uri_component, text_eq, starts_with}

pub data MatchKind : Type 0 where
  exact prefix : MatchKind

pub record PathMatchRule : Type 0 where
  pub pattern : List ℕ
  pub kind : MatchKind

pub record PathPatterns : Type 0 where
  pub allowed_path_patterns : List PathMatchRule
  pub disallowed_path_patterns : List PathMatchRule

abbrev pub max_decode_rounds : ℕ
max_decode_rounds = 5

abbrev pub is_dot_segment : List ℕ → Bool
is_dot_segment segment = text_eq segment (b'.' ∷ []) || text_eq segment (b'.' ∷ b'.' ∷ [])

abbrev pub contains_dot_segment : List ℕ → Bool
contains_dot_segment path = any is_dot_segment (split b'/' path)

-- What a round does with `decodeURIComponent(current)`.
abbrev pub after_decoding : List ℕ → Option (List ℕ) → (List ℕ → Option (List ℕ)) → Option (List ℕ)
after_decoding current none further = none
after_decoding current (some next) further =
    if text_eq next current
    then (if contains_dot_segment current then none else some current)
    else further next

-- The loop of `decodePathSafely`; a round is one unit of fuel, and running out is "not
-- stabilized".
unfoldable pub decode_rounds : ℕ → List ℕ → Option (List ℕ)
decode_rounds zero current = none
decode_rounds (suc rounds) current =
    after_decoding current (decode_uri_component current) (λ next. decode_rounds rounds next)

unfoldable pub decode_path_safely : List ℕ → Option (List ℕ)
unfolding decode_rounds
decode_path_safely path = decode_rounds max_decode_rounds path

abbrev pub matches_decoded : MatchKind → List ℕ → List ℕ → Bool
matches_decoded exact decoded pattern = text_eq decoded pattern
matches_decoded prefix decoded pattern = starts_with decoded pattern

abbrev pub matches_read : PathMatchRule → Option (List ℕ) → Bool
matches_read rule none = false
matches_read rule (some decoded) = matches_decoded rule.kind decoded rule.pattern

unfoldable pub matches_path_rule : List ℕ → PathMatchRule → Bool
matches_path_rule path rule = matches_read rule (decode_path_safely path)

unfoldable pub is_path_allowed : PathPatterns → List ℕ → Bool
unfolding matches_path_rule
is_path_allowed policy path =
    if any (matches_path_rule path) policy.disallowed_path_patterns
    then false
    else any (matches_path_rule path) policy.allowed_path_patterns
