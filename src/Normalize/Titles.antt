-- ===== src/Normalize/Titles.antt =====
-- Matching keys of titles and of employers' names (normalizeTitle of src/normalize/text.ts and
-- src/normalize/organization.ts). A text is its UTF-16 code units; Unicode's normalization form and
-- lower case, which are tables, are given.
mod Tests
use scraplify.Base.{
  ℕ, Bool, true, false, not, ◌&&◌, Option, none, some, List, [], ◌∷◌, ◌++◌, leb, ◌==◌, nat_eq,
  list_eq, if◌then◌else◌, length, filter, has, Text, is_space,
}
use scraplify.Net.IpPolicy.Text.{codes}

pub record Unicode : Type 0 where
  pub nfkc : Text → Text
  pub to_lower_case : Text → Text

abbrev pub quote_characters : List ℕ
quote_characters = 34 ∷ 39 ∷ 96 ∷ 8222 ∷ 8220 ∷ 8221 ∷ 171 ∷ 187 ∷ 8216 ∷ 8217 ∷ []

abbrev pub punctuation : List ℕ
punctuation = codes ".,;:!?()[]{}\\/|_+*&@#~^<>-"

-- `.replace(QUOTE_CHARACTERS, '')`
abbrev pub without_quotes : Text → Text
without_quotes s = filter (λ c. not (has c quote_characters)) s

-- `.replace(PUNCTUATION_TO_SPACE, ' ')`: a run of punctuation becomes one space; `in_run` tells that
-- the space is written.
abbrev pub punctuation_to_space : (in_run : Bool) → Text → Text
punctuation_to_space in_run [] = []
punctuation_to_space in_run (c ∷ s) =
    let rest : Text = punctuation_to_space (has c punctuation) s in
    if has c punctuation then (if in_run then rest else 32 ∷ rest) else c ∷ rest

abbrev pub before_word : Text → List Text → List Text
before_word [] words = words
before_word (c ∷ word) words = (c ∷ word) ∷ words

-- The parts between white space that are not empty, with the word that has begun.
abbrev pub words_from : Text → Text → List Text
words_from word [] = before_word word []
words_from word (c ∷ s) =
    let rest : List Text = words_from (if is_space c then [] else word ++ c ∷ []) s in
    if is_space c then before_word word rest else rest

-- `.split(/\s+/).filter((token) => token.length > 0)`
abbrev pub tokens_of : Text → List Text
tokens_of s = words_from [] s

abbrev pub join_by_space : List Text → Text
join_by_space [] = []
join_by_space (s ∷ []) = s
join_by_space (s ∷ t ∷ ts) = s ++ 32 ∷ join_by_space (t ∷ ts)

abbrev pub unless_empty : List Text → Option Text
unless_empty [] = none
unless_empty (t ∷ ts) = some (join_by_space (t ∷ ts))

abbrev pub folded : Unicode → Text → Text
folded u raw = u.to_lower_case (punctuation_to_space false (without_quotes (u.nfkc raw)))

unfoldable pub normalize_title : Unicode → Option Text → Option Text
normalize_title u none = none
normalize_title u (some raw) = unless_empty (tokens_of (folded u raw))

-- As the source has them, the one with a slash inside included.
abbrev pub legal_form_tokens : List Text
legal_form_tokens =
    codes "შპს"
    ∷ codes "სს"
    ∷ codes "ააიპ"
    ∷ codes "სსიპ"
    ∷ codes "ი/მ"
    ∷ codes "ინდმეწარმე"
    ∷ codes "llc"
    ∷ codes "ltd"
    ∷ codes "ltda"
    ∷ codes "limited"
    ∷ codes "jsc"
    ∷ codes "inc"
    ∷ codes "co"
    ∷ codes "corp"
    ∷ codes "corporation"
    ∷ codes "gmbh"
    ∷ codes "llp"
    ∷ codes "plc"
    ∷ []

unfoldable pub normalize_organization_name : Unicode → Option Text → Option Text
normalize_organization_name u none = none
normalize_organization_name u (some raw) =
    unless_empty (filter (λ token. not (has token legal_form_tokens)) (tokens_of (folded u raw)))
