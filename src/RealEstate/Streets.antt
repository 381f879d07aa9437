-- ===== src/RealEstate/Streets.antt =====
-- One key for a street however its name is written (streetKey of src/realestate/grouping.ts). Lower
-- case is the platform's.
mod Tests
use scraplify.Base.{
  ℕ, zero, suc, Bool, true, false, not, ◌&&◌, ◌||◌, Option, none, some, List, [], ◌∷◌, ◌++◌, leb,
  ◌==◌, nat_eq, list_eq, if◌then◌else◌, filter, has, Text, is_space,
}
use scraplify.Net.IpPolicy.Text.{codes}
use scraplify.Normalize.Titles.{before_word, unless_empty}

abbrev pub street_type_words : List Text
street_type_words =
    codes "ქ"
    ∷ codes "ქუჩა"
    ∷ codes "ქუჩის"
    ∷ codes "გამზ"
    ∷ codes "გამზირი"
    ∷ codes "გამზირის"
    ∷ codes "str"
    ∷ codes "st"
    ∷ codes "street"
    ∷ codes "ave"
    ∷ codes "avenue"
    ∷ []

-- `[a-zა-ჿ]`
abbrev pub is_letter : ℕ → Bool
is_letter c = leb 97 c && leb c 122 || leb 4304 c && leb c 4351

-- `[0-9a-zა-ჿ]`
abbrev pub is_word_character : ℕ → Bool
is_word_character c = leb 48 c && leb c 57 || is_letter c

-- `.replace(/\([^)]*\)/g, ' ')`; `inside` from a bracket that is closed later on.
abbrev pub without_brackets : (inside : Bool) → Text → Text
without_brackets inside [] = []
without_brackets true (c ∷ s) =
    let rest : Text = without_brackets (not (c == b')')) s in if c == b')' then 32 ∷ rest else rest
without_brackets false (c ∷ s) =
    let opens : Bool = c == b'(' && has b')' s in
    let rest : Text = without_brackets opens s in if opens then rest else c ∷ rest

abbrev pub begins_with_letters : ℕ → Text → Bool
begins_with_letters zero s = true
begins_with_letters (suc n) [] = false
begins_with_letters (suc n) (c ∷ s) = is_letter c && begins_with_letters n s

-- `(?=\s*[a-zა-ჿ]{3})`: white space is no letter, so all of it is skipped.
abbrev pub name_follows : Text → Bool
name_follows [] = false
name_follows (c ∷ s) = if is_space c then name_follows s else begins_with_letters 3 (c ∷ s)

-- `.(?=\s*[a-zა-ჿ]{3})`, the dot of an initial.
abbrev pub dot_and_name : Text → Bool
dot_and_name [] = false
dot_and_name (c ∷ s) = c == b'.' && name_follows s

-- How many characters the initial at the start of the text has with its dot, 0 where there is none.
abbrev pub initial_length : Text → ℕ
initial_length [] = 0
initial_length (a ∷ []) = 0
initial_length (a ∷ b ∷ s) =
    if is_letter a && dot_and_name (b ∷ s)
    then 2
    else if is_letter a && is_letter b && dot_and_name s
    then 3
    else 0

abbrev pub space_for : (length : ℕ) → Text → Text
space_for zero rest = rest
space_for (suc n) rest = 32 ∷ rest

-- `skip` characters of an initial are still to be dropped.
abbrev pub drop_initials : (skip : ℕ) → Text → Text
drop_initials skip [] = []
drop_initials (suc skip) (c ∷ s) = drop_initials skip s
drop_initials zero (c ∷ s) =
    let found : ℕ = if is_space c || c == b',' then initial_length s else 0 in
    c ∷ space_for found (drop_initials found s)

-- `.replace(/(^|[\s,])[a-zა-ჿ]{1,2}\.(?=\s*[a-zა-ჿ]{3})/g, '$1 ')`
abbrev pub without_initials : Text → Text
without_initials s = space_for (initial_length s) (drop_initials (initial_length s) s)

abbrev pub street_words_from : Text → Text → List Text
street_words_from word [] = before_word word []
street_words_from word (c ∷ s) =
    let rest : List Text =
      street_words_from (if is_word_character c then word ++ c ∷ [] else []) s in
    if is_word_character c then rest else before_word word rest

-- The words between runs of other characters; a hyphen is one, so reading it as a space first
-- changes nothing.
abbrev pub street_words : Text → List Text
street_words s = street_words_from [] s

unfoldable pub street_key : (to_lower_case : Text → Text) → Option Text → Option Text
street_key to_lower_case none = none
street_key to_lower_case (some name) = unless_empty (
    filter (λ word. not (has word street_type_words))
      (street_words (without_initials (without_brackets false (to_lower_case name)))))
