-- ===== src/Net/HttpFetcher/Redirects.antt =====
-- How far a fetch follows redirects (the loop of `fetchUrl`, src/net/http-fetcher.ts): the fuel of
-- the model is enough, the requests are counted, and the result is that of the last of them.
use scraplify.Base.{
  ℕ, Text, zero, suc, ◌+◌, ◌≤◌, ◌≡◌, refl, sym, ap, subst, Option, none, some, List, [], ◌∷◌, ◌++◌,
  inl, inr, length, Bool-cases, arith,
}
use scraplify.Net.HttpFetcher.Body.{HttpError, Result, ok, err}
use scraplify.Net.HttpFetcher.{
  HttpFetcherOptions, Platform, Network, Answer, no_response, responds, Response, Event, requested,
  Outcome, fetched, thrown, unfinished, Fetched, Hop, moved, ended, refusal, is_push_back,
  events_of, body_event, released, hop_after, after_hop, count_after, prepend, after_response,
  redirect_target, outcome_of, move_to, unless_refused, fetch_from, fetch_url,
}

abbrev pub requested_urls : List Event → List Text
requested_urls [] = []
requested_urls (requested url ∷ es) = url ∷ requested_urls es
requested_urls (_ ∷ es) = requested_urls es

requested_urls-body_event :
    (target : Option Text) (es : List Event)
    → requested_urls (body_event target ∷ released ∷ es) ≡ requested_urls es
requested_urls-body_event none es = refl
requested_urls-body_event (some location) es = refl

pub requested_urls-events_of :
    (o : HttpFetcherOptions) (p : Platform) (url : Text) (count now : ℕ) (a : Answer)
    (es : List Event)
    → requested_urls (events_of o p url count now a ++ es) ≡ url ∷ requested_urls es
requested_urls-events_of o p url count now no_response es = refl
requested_urls-events_of o p url count now (responds r) es =
    elim (Bool-cases (is_push_back (responds r))) [
      | inl e ↦ rw e (ap (λ us. url ∷ us) (requested_urls-body_event (redirect_target o r) es))
      | inr e ↦ rw e (ap (λ us. url ∷ us) (requested_urls-body_event (redirect_target o r) es))
    ]

refusal-none :
    (o : HttpFetcherOptions) (p : Platform) (initial_url : Text) (n : ℕ) (url : Text)
    → refusal o p initial_url n url ≡ none
    → n ≤ o.max_redirects
unfolding refusal
refusal-none o p initial_url n url h = ground arith

-- How a fetch ends that has followed n redirects before: with an error, or with a result that is
-- that of the last request and counts the redirects before it.
abbrev pub Concludes : ℕ → List Text → Outcome → Type 0
Concludes n urls (fetched result) =
    (front : List Text) × (urls ≡ front ++ result.final_url ∷ [])
    × (result.redirect_count ≡ n + length front)
Concludes n urls (thrown e) = Unit
Concludes n urls unfinished = ⊥

-- The same after one more request.
Concludes-suc :
    (n : ℕ) (url : Text) (urls : List Text) (outcome : Outcome)
    → Concludes (suc n) urls outcome
    → Concludes n (url ∷ urls) outcome
Concludes-suc n url urls (fetched result) (front, e, k) =
    (url ∷ front, ap (λ us. url ∷ us) e, omega arith)
Concludes-suc n url urls (thrown e) h = tt
Concludes-suc n url urls unfinished h = h

abbrev EndsAt : Text → ℕ → Hop → Type 0
EndsAt url n (moved next) = Unit
EndsAt url n (ended outcome) = Concludes n (url ∷ []) outcome

EndsAt-outcome_of :
    (r : Response) (url : Text) (n : ℕ) (body : Result Text)
    → EndsAt url n (ended (outcome_of r url n body))
EndsAt-outcome_of r url n (ok body) = ([], refl, omega arith)
EndsAt-outcome_of r url n (err e) = tt

EndsAt-move_to : (url : Text) (n : ℕ) (target : Option Text) → EndsAt url n (move_to target)
EndsAt-move_to url n none = tt
EndsAt-move_to url n (some next) = tt

EndsAt-after_response :
    (o : HttpFetcherOptions) (p : Platform) (url : Text) (n : ℕ) (r : Response)
    → (target : Option Text) → EndsAt url n (after_response o p url n r target)
unfolding after_response
EndsAt-after_response o p url n r (some location) = elim (Bool-cases r.dumps) [
  | inl e ↦ rw e (EndsAt-move_to url n (p.resolve_url location url))
  | inr e ↦ rw e tt
]
EndsAt-after_response o p url n r none = EndsAt-outcome_of r url n _

EndsAt-hop_after :
    (o : HttpFetcherOptions) (p : Platform) (url : Text) (n : ℕ) (a : Answer)
    → EndsAt url n (hop_after o p url n a)
EndsAt-hop_after o p url n no_response = tt
EndsAt-hop_after o p url n (responds r) = EndsAt-after_response o p url n r (redirect_target o r)

-- After n redirects: the fetch concludes, and makes no more requests than are left.
abbrev IsWithin : ℕ → ℕ → Fetched → Type 0
IsWithin limit n f =
    Concludes n (requested_urls f.events) f.outcome
    × (n + length (requested_urls f.events) ≤ limit + 1)

abbrev IsWithinAfter : ℕ → ℕ → Text → Fetched → Type 0
IsWithinAfter limit n url f =
    Concludes n (url ∷ requested_urls f.events) f.outcome
    × (n + suc (length (requested_urls f.events)) ≤ limit + 1)

IsWithin-after_hop :
    (limit n count : ℕ) (url : Text) (continue : Text → Fetched) (h : Hop)
    → n ≤ limit
    → EndsAt url n h
    → ((next : Text) → IsWithin limit (suc n) (continue next))
    → IsWithinAfter limit n url (after_hop continue count h)
IsWithin-after_hop limit n count url continue (moved next) le e k =
    (Concludes-suc n url _ _ (k next).0, omega (arith, (k next).1))
IsWithin-after_hop limit n count url continue (ended outcome) le e k = (e, omega arith)

IsWithin-unless_refused :
    (limit n count : ℕ) (f : Fetched) (e : Option HttpError)
    → n ≤ limit + 1
    → (e ≡ none → IsWithin limit n f)
    → IsWithin limit n (unless_refused f count e)
IsWithin-unless_refused limit n count f none le k = k refl
IsWithin-unless_refused limit n count f (some e) le k = (tt, omega arith)

IsWithin-prepend :
    (o : HttpFetcherOptions) (limit n : ℕ) (p : Platform) (url : Text) (count now : ℕ) (a : Answer)
    (f : Fetched)
    → IsWithinAfter limit n url f
    → IsWithin limit n (prepend (events_of o p url count now a) f)
IsWithin-prepend o limit n p url count now a f h =
    subst (λ urls. Concludes n urls f.outcome × (n + length urls ≤ limit + 1))
      (sym (requested_urls-events_of o p url count now a f.events)) h

module _ (o : HttpFetcherOptions) (p : Platform) (net : Network) (initial_url : Text) where
  fetch_from-IsWithin :
      (fuel n count : ℕ) (url : Text)
      → n ≤ o.max_redirects + 1
      → o.max_redirects + 2 ≤ fuel + n
      → IsWithin o.max_redirects n (fetch_from o p net initial_url fuel n count url)
  unfolding fetch_from
  fetch_from-IsWithin zero n count url le enough = absurd (omega arith)
  fetch_from-IsWithin (suc fuel) n count url le enough =
      let a : Answer = net.answer n url in
      let continue : (Text → Fetched) =
        fetch_from o p net initial_url fuel (suc n) (count_after count a) in
      let f : Fetched = after_hop continue (count_after count a) (hop_after o p url n a) in
      IsWithin-unless_refused o.max_redirects n count _ _ le (λ passed.
        let left : n ≤ o.max_redirects = refusal-none o p initial_url n url passed in
        IsWithin-prepend o o.max_redirects n p url count (net.clock n) a f (
          IsWithin-after_hop o.max_redirects n (count_after count a) url continue
            (hop_after o p url n a) left (EndsAt-hop_after o p url n a)
            (λ next.
              fetch_from-IsWithin fuel (suc n) (count_after count a) next (omega arith)
                (omega arith))))

-- A fetch always ends, whatever the network answers: after at most `max_redirects + 1` requests,
-- with an error, or with a result whose final URL is the last one requested and whose redirect
-- count is the number of requests before that one.
pub fetch_url-Concludes :
    (o : HttpFetcherOptions) (p : Platform) (net : Network) (count : ℕ) (url : Text)
    → let f : Fetched = fetch_url o p net count url in
      Concludes 0 (requested_urls f.events) f.outcome
      × (length (requested_urls f.events) ≤ o.max_redirects + 1)
unfolding fetch_url
fetch_url-Concludes o p net count url =
    let (concludes, bound) =
      fetch_from-IsWithin o p net url (o.max_redirects + 2) 0 count url (omega arith)
        (omega arith) in
    (concludes, omega arith)
