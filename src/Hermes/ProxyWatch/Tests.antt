-- ===== src/Hermes/ProxyWatch/Tests.antt =====
-- An outage of twelve minutes, checked every four.
use scraplify.Base.{◌≡◌, refl, Bool, true, false, some, [], ◌∷◌, arith}
use scraplify.Hermes.ProxyWatch.{up, ProxyCheck}
use scraplify.Hermes.ProxyWatch.History.{History, watch, summary, news, watch-history}

abbrev check : Bool → ProxyCheck
check answers = record { answers = answers; tunnel = true }

abbrev outage : History
outage =
    (check true, 960000)
    ∷ (check false, 720000)
    ∷ (check false, 480000)
    ∷ (check false, 240000)
    ∷ (check false, 0)
    ∷ []

back :
    (watch outage).1
    ≡ some (record { state = up; since = 960000; tunnel = true; down_minutes = some 16 })
unfolding watch
back = refl

watch-history_example : watch outage ≡ (summary outage, news outage)
watch-history_example =
    watch-history outage
      (omega arith, (omega arith, (omega arith, (omega arith, (omega arith, tt)))))
