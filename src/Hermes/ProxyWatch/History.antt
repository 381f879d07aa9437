-- ===== src/Hermes/ProxyWatch/History.antt =====
-- What a whole history of checks leaves (src/hermes/proxy-watch.ts), without the state machine:
-- the owner holds the proxy down exactly while its last failures span ten minutes.
use scraplify.Base.{
  ℕ, ◌+◌, ◌-◌, ◌≤◌, ◌≡◌, refl, ap, Bool, true, false, not, ◌&&◌, Option, none, some, List, [], ◌∷◌,
  ltb, leb, if◌then◌else◌, get_or, arith, Bool-cases, inl, inr, ◌∙◌,
}
use scraplify.Hermes.ProxyWatch.{
  Reported, up, down, ProxyWatchState, ProxyCheck, ProxyChange, initial_proxy_watch_state,
  next_proxy_watch, down_after_ms, down_minutes,
}

-- The checks with their instants, the newest first.
abbrev pub History : Type 0
History = List (ProxyCheck × ℕ)

-- The state after the checks, and the message of the newest.
unfoldable pub watch : History → ProxyWatchState × Option ProxyChange
unfolding next_proxy_watch
watch [] = (initial_proxy_watch_state, none)
watch ((check, at) ∷ older) = next_proxy_watch (watch older).0 check at

-- The first check of the failing stretch that the history ends with.
abbrev pub first_failure : History → Option ℕ
first_failure [] = none
first_failure ((check, at) ∷ older) =
    if check.answers then none else some (get_or (first_failure older) at)

-- The history ends with failures that span ten minutes.
abbrev pub is_outage : History → Bool
is_outage [] = false
is_outage ((check, at) ∷ older) =
    not check.answers && leb (get_or (first_failure older) at + down_after_ms) at

abbrev pub newest : History → ℕ
newest [] = 0
newest ((check, at) ∷ older) = at

-- The clock does not run backwards.
abbrev pub IsOrdered : History → Type 0
IsOrdered [] = Unit
IsOrdered ((check, at) ∷ older) = (newest older ≤ at) × IsOrdered older

abbrev pub told : Bool → Reported
told true = down
told false = up

-- The state that the history describes.
abbrev pub summary : History → ProxyWatchState
summary h = record { reported = told (is_outage h); failing_since = first_failure h }

-- The message where the newest check began or ended an outage.
abbrev pub news : History → Option ProxyChange
news [] = none
news ((check, at) ∷ older) =
    if is_outage older
    then (if check.answers
        then some (record {
          state = up;
          since = at;
          tunnel = check.tunnel;
          down_minutes = down_minutes at (first_failure older);
        })
        else none)
    else if is_outage ((check, at) ∷ older)
    then some (record {
      state = down;
      since = get_or (first_failure older) at;
      tunnel = check.tunnel;
      down_minutes = none;
    })
    else none

-- An outage goes on while the checks fail.
outage_lasts :
    (check : ProxyCheck) (at : ℕ) (older : History)
    → newest older ≤ at
    → check.answers ≡ false
    → is_outage older ≡ true
    → leb (get_or (first_failure older) at + down_after_ms) at ≡ true
outage_lasts check at [] le failed o = absurd (ground arith)
outage_lasts check at ((c, t) ∷ older) le failed o = ground arith

next-summary :
    (check : ProxyCheck) (at : ℕ) (older : History)
    → newest older ≤ at
    → next_proxy_watch (summary older) check at
      ≡ (summary ((check, at) ∷ older), news ((check, at) ∷ older))
unfolding next_proxy_watch
next-summary check at older le = elim (Bool-cases check.answers) [
  | inl passed ↦ elim (Bool-cases (is_outage older)) [
    | inl o ↦ rw (passed, o) refl
    | inr o ↦ rw (passed, o) refl
  ]
  | inr failed ↦ elim (Bool-cases (is_outage older)) [
    | inl o ↦ let long = outage_lasts check at older le failed o in rw (failed, o, long) refl
    | inr o ↦ elim (Bool-cases (ltb (at - get_or (first_failure older) at) down_after_ms)) [
      | inl short ↦
          let still : leb (get_or (first_failure older) at + down_after_ms) at ≡ false =
            ground arith in
          rw (failed, o, short, still) refl
      | inr long ↦
          let ten : leb (get_or (first_failure older) at + down_after_ms) at ≡ true =
            ground arith in
          rw (failed, o, long, ten) refl
    ]
  ]
]

-- After checks at instants that do not decrease, the state says `down` exactly when the checks
-- end with failures that span at least ten minutes, and `failingSince` is the first of them. The
-- newest check is told exactly when it began such an outage or ended one, with the outage's first
-- failure or the minutes since it.
pub watch-history : (h : History) → IsOrdered h → watch h ≡ (summary h, news h)
unfolding watch
watch-history [] ordered = refl
watch-history ((check, at) ∷ older) (le, ordered) =
    ap (λ (w : ProxyWatchState × Option ProxyChange). next_proxy_watch w.0 check at)
      (watch-history older ordered)
    ∙ next-summary check at older le
