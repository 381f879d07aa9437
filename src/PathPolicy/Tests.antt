-- ===== src/PathPolicy/Tests.antt =====
-- A policy that allows one directory and disallows a part of it.
use scraplify.Base.{◌≡◌, refl, false, none, some, [], ◌∷◌}
use scraplify.Net.IpPolicy.Text.{codes, split, hex_digit_value}
use scraplify.PathPolicy.{
  prefix, exact, PathPatterns, decode_path_safely, decode_rounds, is_path_allowed,
}
use scraplify.PathPolicy.Decoding.{decode_uri_component}
use scraplify.PathPolicy.Rules.{Allowed, is_path_allowed-Allowed}

abbrev policy : PathPatterns
policy = record {
  allowed_path_patterns =
      record { pattern = codes "/ge/"; kind = prefix }
      ∷ record { pattern = codes "/"; kind = exact }
      ∷ [];
  disallowed_path_patterns = record { pattern = codes "/ge/ads"; kind = prefix } ∷ [];
}

-- `%2561` decodes to `%61`, and that to `a`.
twice_encoded : is_path_allowed policy (codes "/ge/%2561ds") ≡ false
unfolding is_path_allowed decode_path_safely decode_rounds decode_uri_component split
    hex_digit_value
twice_encoded = refl

climbing : decode_path_safely (codes "/ge/%252e%252e/x") ≡ none
unfolding decode_path_safely decode_rounds decode_uri_component split hex_digit_value
climbing = refl

georgian : decode_uri_component (codes "%E1%83%90") ≡ some (0x10d0 ∷ [])
unfolding decode_uri_component
georgian = refl

overlong : decode_uri_component (codes "%C0%AF") ≡ none
unfolding decode_uri_component
overlong = refl

is_path_allowed-Allowed_example : Allowed policy (codes "/ge/%66")
unfolding is_path_allowed decode_path_safely decode_rounds decode_uri_component split
    hex_digit_value
is_path_allowed-Allowed_example = is_path_allowed-Allowed policy (codes "/ge/%66") refl
