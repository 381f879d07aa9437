-- ===== src/RealEstate/Streets/Tests.antt =====
-- Streets as the posters write them.
use scraplify.Base.{◌≡◌, refl, Option, none, some, Text}
use scraplify.Net.IpPolicy.Text.{codes}
use scraplify.RealEstate.Streets.{street_key}

abbrev key : Text → Option Text
key name = street_key (λ s. s) (some name)

streets :
    (key (codes "ს.ცინცაძის ქ.") ≡ some (codes "ცინცაძის"))
    × (key (codes "ალ. იოსელიანის ქუჩა") ≡ some (codes "იოსელიანის"))
    × (key (codes "ა. ბ. ჭავჭავაძის (ლენინის) გამზ.") ≡ some (codes "ა ჭავჭავაძის"))
    × (key (codes "mtskheta (old str") ≡ some (codes "mtskheta old"))
    × (key (codes "ვაჟა-ფშაველას II ჩიხი") ≡ some (codes "ვაჟა ფშაველას ჩიხი"))
    × (key (codes "...") ≡ none)
unfolding street_key
streets = (refl, refl, refl, refl, refl, refl)
