-- ===== src/Outreach/Content/Canonical.antt =====
-- The text whose hash an approval keeps (`contentHash` of src/outreach/draft-store.ts): different
-- contents have different texts.
use mathlib.Core.List.{append_assoc}
use scraplify.Base.{
  ℕ, ◌≡◌, ◌≢◌, refl, sym, ap, ◌∙◌, Option, none, some, [], ◌∷◌, ◌++◌, nat_eq, Text, arith,
}
use scraplify.Outreach.Model.{DraftKind, email, cover_letter, BoundContent}
use scraplify.Outreach.Content.{quote, nullable, decimal, kind_word, hash_scheme, canonical}
use scraplify.Outreach.Content.Digits.{decimal-injective}
use scraplify.Outreach.Content.Quoting.{escape-injective, head_eq}

quote-injective : (s t r q : Text) → quote s ++ r ≡ quote t ++ q → (s ≡ t) × (r ≡ q)
quote-injective s t r q e = escape-injective s t r q (head_eq _ _ _ _ e).1

n_ne_quote : (c d : ℕ) → c ≡ b'n' → d ≡ 34 → c ≢ d
n_ne_quote c d h k = λ e. omega arith

nullable-injective :
    (s t : Option Text) (r q : Text) → nullable s ++ r ≡ nullable t ++ q → (s ≡ t) × (r ≡ q)
nullable-injective none none r q e =
    let null_rest = head_eq _ _ _ _ e in
    let ll_rest = head_eq _ _ _ _ null_rest.1 in
    let l_rest = head_eq _ _ _ _ ll_rest.1 in (refl, (head_eq _ _ _ _ l_rest.1).1)
nullable-injective none (some t) r q e = absurd (n_ne_quote b'n' 34 refl refl (head_eq _ _ _ _ e).0)
nullable-injective (some s) none r q e =
    absurd (n_ne_quote b'n' 34 refl refl (sym (head_eq _ _ _ _ e).0))
nullable-injective (some s) (some t) r q e =
    let (same, rest) = quote-injective s t r q e in (ap some same, rest)

-- A way of writing a field that can be read back before a comma.
abbrev IsReadable {ℓ} : {A : Type ℓ} → (A → Text) → Type ℓ
IsReadable {A = A} f =
    (x y : A) (r q : Text) → f x ++ b',' ∷ r ≡ f y ++ b',' ∷ q → (x ≡ y) × (r ≡ q)

-- One field of the array, in front of the others.
field {ℓ} :
    {A : Type ℓ} (f : A → Text) (x y : A) (r q : Text) (tail : Text)
    → IsReadable f
    → (f x ++ b',' ∷ r) ++ tail ≡ (f y ++ b',' ∷ q) ++ tail
    → (x ≡ y) × (r ++ tail ≡ q ++ tail)
field f x y r q tail readable e =
    readable x y (r ++ tail) (q ++ tail)
      (sym (append_assoc (f x) (b',' ∷ r) tail) ∙ e ∙ append_assoc (f y) (b',' ∷ q) tail)

quote_field : IsReadable quote
quote_field s t r q e =
    let (same, rest) = quote-injective s t _ _ e in (same, (head_eq _ _ _ _ rest).1)

nullable_field : IsReadable nullable
nullable_field s t r q e =
    let (same, rest) = nullable-injective s t _ _ e in (same, (head_eq _ _ _ _ rest).1)

kind_word-injective : (k l : DraftKind) → kind_word k ≡ kind_word l → k ≡ l
kind_word-injective email email e = refl
kind_word-injective email cover_letter e =
    let letter = (head_eq _ _ _ _ e).0 in absurd (omega arith)
kind_word-injective cover_letter email e =
    let letter = (head_eq _ _ _ _ e).0 in absurd (omega arith)
kind_word-injective cover_letter cover_letter e = refl

-- The array from each of its fields on.
abbrev from_listing : BoundContent → Text
from_listing c = quote c.source_listing_revision_id

abbrev from_opportunity : BoundContent → Text
from_opportunity c = quote c.opportunity_revision_id ++ b',' ∷ from_listing c

abbrev from_version : BoundContent → Text
from_version c = decimal c.profile_version ++ b',' ∷ from_opportunity c

abbrev from_profile : BoundContent → Text
from_profile c = quote c.profile_id ++ b',' ∷ from_version c

abbrev from_attachments : BoundContent → Text
from_attachments c = b'[' ∷ b']' ∷ b',' ∷ from_profile c

abbrev from_body : BoundContent → Text
from_body c = quote c.body ++ b',' ∷ from_attachments c

abbrev from_subject : BoundContent → Text
from_subject c = nullable c.subject ++ b',' ∷ from_body c

abbrev from_recipient : BoundContent → Text
from_recipient c = nullable c.recipient ++ b',' ∷ from_subject c

abbrev from_kind : BoundContent → Text
from_kind c = quote (kind_word c.kind) ++ b',' ∷ from_recipient c

abbrev closing : Text
closing = b']' ∷ []

from_profile-injective :
    (b c : BoundContent)
    → from_profile b ++ closing ≡ from_profile c ++ closing
    → (b.profile_id ≡ c.profile_id)
      × (b.profile_version ≡ c.profile_version)
      × (b.opportunity_revision_id ≡ c.opportunity_revision_id)
      × (b.source_listing_revision_id ≡ c.source_listing_revision_id)
from_profile-injective b c e =
    let (profile, r1) =
      field quote b.profile_id c.profile_id (from_version b) (from_version c) closing quote_field
        e in
    let (version, r2) =
      field decimal b.profile_version c.profile_version (from_opportunity b) (from_opportunity c)
        closing decimal-injective r1 in
    let (opportunity, r3) =
      field quote b.opportunity_revision_id c.opportunity_revision_id (from_listing b)
        (from_listing c) closing quote_field r2 in
    let (listing, r4) =
      quote-injective b.source_listing_revision_id c.source_listing_revision_id closing closing
        r3 in
    (profile, version, opportunity, listing)

from_kind-injective :
    (b c : BoundContent)
    → from_kind b ++ closing ≡ from_kind c ++ closing
    → (b.kind ≡ c.kind)
      × (b.recipient ≡ c.recipient)
      × (b.subject ≡ c.subject)
      × (b.body ≡ c.body)
      × (from_attachments b ++ closing ≡ from_attachments c ++ closing)
from_kind-injective b c e =
    let (kind, r1) =
      field quote (kind_word b.kind) (kind_word c.kind) (from_recipient b) (from_recipient c)
        closing quote_field e in
    let (recipient, r2) =
      field nullable b.recipient c.recipient (from_subject b) (from_subject c) closing
        nullable_field r1 in
    let (subject, r3) =
      field nullable b.subject c.subject (from_body b) (from_body c) closing nullable_field r2 in
    let (body, r4) =
      field quote b.body c.body (from_attachments b) (from_attachments c) closing quote_field r3 in
    (kind_word-injective b.kind c.kind kind, recipient, subject, body, r4)

tail_eq : (c d : ℕ) (r q : Text) → c ∷ r ≡ d ∷ q → r ≡ q
tail_eq c d r q e = (head_eq c d r q e).1

-- The canonical text of what an approval binds tells every field: two contents that differ in the
-- kind, the recipient, the subject, the body, the profile or a pinned version have different texts,
-- whatever quotes, commas, brackets, control characters or lone surrogates they contain.
pub canonical-injective : (b c : BoundContent) → canonical b ≡ canonical c → b ≡ c
unfolding canonical
canonical-injective b c e =
    let (scheme, r0) =
      field quote hash_scheme hash_scheme (from_kind b) (from_kind c) closing quote_field
        (tail_eq _ _ _ _ e) in
    let (kind, recipient, subject, body, rest) = from_kind-injective b c r0 in
    let (profile, version, opportunity, listing) =
      from_profile-injective b c (tail_eq _ _ _ _ (tail_eq _ _ _ _ (tail_eq _ _ _ _ rest))) in
    cc
