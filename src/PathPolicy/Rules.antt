-- ===== src/PathPolicy/Rules.antt =====
-- What an allowed path is (`decodePathSafely`, `isPathAllowed` of src/domain/source.ts).
use scraplify.Base.{
  ℕ, zero, suc, ◌≡◌, refl, sym, ap, ◌∙◌, subst, Bool, true, false, not, ◌&&◌, ◌||◌, Option, none,
  some, List, [], ◌∷◌, any, arith, Bool-cases, Option-cases, inl, inr,
}
use scraplify.PathPolicy.{
  PathMatchRule, PathPatterns, contains_dot_segment, decode_rounds, decode_path_safely,
  matches_decoded, matches_path_rule, matches_read, after_decoding, is_path_allowed,
  max_decode_rounds,
}
use scraplify.PathPolicy.Decoding.{decode_uri_component, text_eq, text_eq_sound, text_eq_refl}

-- A path with nothing left to decode and no dot segment.
abbrev pub IsPlain : List ℕ → Type 0
IsPlain path = (decode_uri_component path ≡ some path) × (contains_dot_segment path ≡ false)

decode_rounds-IsPlain :
    (rounds : ℕ) (path decoded : List ℕ)
    → decode_rounds rounds path ≡ some decoded
    → IsPlain decoded
unfolding decode_rounds
decode_rounds-IsPlain zero path decoded h = absurd (ground arith)
decode_rounds-IsPlain (suc rounds) path decoded h =
    round (decode_uri_component path) refl h (λ next. decode_rounds-IsPlain rounds next decoded)
  where
    round :
        (read : Option (List ℕ))
        → decode_uri_component path ≡ read
        → after_decoding path read (λ next. decode_rounds rounds next) ≡ some decoded
        → ((next : List ℕ) → decode_rounds rounds next ≡ some decoded → IsPlain decoded)
        → IsPlain decoded
    round none e k later = absurd (ground arith)
    round (some next) e k later = elim (Bool-cases (text_eq next path)) [
      | inr further ↦ later next (rw further at k)
      | inl stable ↦ elim (Bool-cases (contains_dot_segment path)) [
        | inl dots ↦ absurd (ground arith)
        | inr clean ↦
            let own : path ≡ decoded = ground arith in
            subst IsPlain own (e ∙ ap some (text_eq_sound next path stable), clean)
      ]
    ]

-- A plain path decodes to itself.
decode_path_safely-plain : (path : List ℕ) → IsPlain path → decode_path_safely path ≡ some path
unfolding decode_path_safely decode_rounds
decode_path_safely-plain path (read, clean) =
    ap (λ (r : Option (List ℕ)). after_decoding path r (λ next. decode_rounds 4 next)) read
    ∙ rw (text_eq_refl path, clean) refl

-- Whether a rule of the list matches the decoded path.
abbrev pub some_rule : List ℕ → List PathMatchRule → Bool
some_rule decoded rules =
    any (λ (r : PathMatchRule). matches_decoded r.kind decoded r.pattern) rules

any-matches_path_rule :
    (path decoded : List ℕ) (rules : List PathMatchRule)
    → decode_path_safely path ≡ some decoded
    → any (matches_path_rule path) rules ≡ some_rule decoded rules
unfolding matches_path_rule
any-matches_path_rule path decoded [] e = refl
any-matches_path_rule path decoded (r ∷ rules) e =
    ap (λ (read : Option (List ℕ)). matches_read r read || any (matches_path_rule path) rules) e
    ∙ ap (λ (b : Bool). matches_decoded r.kind decoded r.pattern || b)
        (any-matches_path_rule path decoded rules e)

any-unreadable :
    (path : List ℕ) (rules : List PathMatchRule)
    → decode_path_safely path ≡ none
    → any (matches_path_rule path) rules ≡ false
unfolding matches_path_rule
any-unreadable path [] e = refl
any-unreadable path (r ∷ rules) e =
    ap (λ (read : Option (List ℕ)). matches_read r read || any (matches_path_rule path) rules) e
    ∙ any-unreadable path rules e

-- What lets a path through: it decodes to a plain path, which an allow rule matches and no
-- disallow rule.
pub record Allowed (policy : PathPatterns) (path : List ℕ) : Type 0 where
  pub decoded : List ℕ
  pub read : decode_path_safely path ≡ some decoded
  pub plain : IsPlain decoded
  pub allowed : some_rule decoded policy.allowed_path_patterns ≡ true
  pub not_disallowed : some_rule decoded policy.disallowed_path_patterns ≡ false
  pub same_decision : is_path_allowed policy decoded ≡ true

allowed-decoded :
    (policy : PathPatterns) (path decoded : List ℕ)
    → decode_path_safely path ≡ some decoded
    → is_path_allowed policy path ≡ (
        not (some_rule decoded policy.disallowed_path_patterns)
        && some_rule decoded policy.allowed_path_patterns)
unfolding is_path_allowed
allowed-decoded policy path decoded e =
    rw
      (
        any-matches_path_rule path decoded policy.disallowed_path_patterns e,
        any-matches_path_rule path decoded policy.allowed_path_patterns e,
      )
      (ground arith)

-- A path is let through only if it decodes, within the rounds, to a path in which nothing is left
-- to decode and no segment is `.` or `..`, which an allow rule matches and no disallow rule does;
-- and the decoded path is then let through as well, so that encoding changes no decision.
pub is_path_allowed-Allowed :
    (policy : PathPatterns) (path : List ℕ)
    → is_path_allowed policy path ≡ true
    → Allowed policy path
unfolding is_path_allowed decode_path_safely
is_path_allowed-Allowed policy path h = elim (Option-cases (decode_path_safely path)) [
  | inl unreadable ↦
      let nothing = any-unreadable path policy.allowed_path_patterns unreadable in
      absurd (ground arith)
  | inr (decoded, read) ↦
      let plain = decode_rounds-IsPlain max_decode_rounds path decoded read in
      let here = allowed-decoded policy path decoded read in
      let there = allowed-decoded policy decoded decoded (decode_path_safely-plain decoded plain) in
      record {
        decoded = decoded;
        read = read;
        plain = plain;
        allowed = ground arith;
        not_disallowed = ground arith;
        same_decision = there ∙ (sym here ∙ h);
      }
]
