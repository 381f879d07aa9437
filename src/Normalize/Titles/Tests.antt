-- ===== src/Normalize/Titles/Tests.antt =====
-- Titles and names as the boards write them.
use scraplify.Base.{◌≡◌, refl, none, some}
use scraplify.Net.IpPolicy.Text.{codes}
use scraplify.Normalize.Titles.{Unicode, normalize_title, normalize_organization_name}

abbrev plain : Unicode
plain = record { nfkc = λ s. s; to_lower_case = λ s. s }

titles :
    (normalize_title plain (some (codes "გადამზიდი/დისტრიბუტორი"))
      ≡ normalize_title plain (some (codes " გადამზიდი / დისტრიბუტორი")))
    × (normalize_title plain (some (codes "\"...\"")) ≡ none)
    × (normalize_title plain (some (codes "a-b, \"c\"")) ≡ some (codes "a b c"))
unfolding normalize_title
titles = (refl, refl, refl)

-- The form with a slash is never a token, so its letters stay in the key.
organizations :
    (normalize_organization_name plain (some (codes "შპს იუ")) ≡ some (codes "იუ"))
    × (normalize_organization_name plain (some (codes "სსიპ იუ")) ≡ some (codes "იუ"))
    × (normalize_organization_name plain (some (codes "ი/მ იუ")) ≡ some (codes "ი მ იუ"))
    × (normalize_organization_name plain (some (codes "llc.")) ≡ none)
unfolding normalize_organization_name
organizations = (refl, refl, refl, refl)
