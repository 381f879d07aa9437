-- ===== src/Net/HttpFetcher/Hops.antt =====
-- How a fetch uses the limiter (`rateLimiter.acquire()`, `release()` and the finally block of
-- src/net/http-fetcher.ts): the events of a fetch, read by an independent automaton.
use scraplify.Base.{
  ℕ, Text, zero, suc, ◌≡◌, refl, ap, Bool, true, false, Option, none, some, List, [], ◌∷◌, ◌++◌,
  ◌∙◌, Bool-cases, inl, inr, ◌==◌, nat_eq, ◌||◌, if◌then◌else◌, arith,
}
use scraplify.Net.HttpFetcher.Body.{HttpError}
use scraplify.Net.HttpFetcher.{
  HttpFetcherOptions, Platform, Network, Answer, no_response, responds, Event, acquired, requested,
  responded, backed_off, body_dumped, body_read, released, body_event, redirect_target, Fetched,
  Hop, moved, ended, refusal, is_push_back, spacing_after, events_of, hop_after, after_hop,
  unless_refused, fetch_from, fetch_url,
}

-- Where a fetch is: it holds no slot, one that it has not used, one whose request is under way, one
-- with a response that asks to slow down, one with a body to come, or one whose body is through.
pub data Phase : Type 0 where
  idle holding asked slowing answered drained : Phase

abbrev pub is_paced : Phase → List Event → Bool
is_paced idle [] = true
is_paced idle (acquired ∷ es) = is_paced holding es
is_paced holding (requested url ∷ es) = is_paced asked es
is_paced asked (released ∷ es) = is_paced idle es
is_paced asked (responded status ∷ es) =
    is_paced (if status == 429 || status == 503 then slowing else answered) es
is_paced slowing (backed_off spacing_ms ∷ es) = is_paced answered es
is_paced answered (body_dumped ∷ es) = is_paced drained es
is_paced answered (body_read ∷ es) = is_paced drained es
is_paced drained (released ∷ es) = is_paced idle es
is_paced _ _ = false

is_paced-body_event :
    (target : Option Text) (es : List Event)
    → is_paced answered (body_event target ∷ released ∷ es) ≡ is_paced idle es
is_paced-body_event none es = refl
is_paced-body_event (some location) es = refl

is_paced-events_of :
    (o : HttpFetcherOptions) (p : Platform) (url : Text) (count now : ℕ) (a : Answer)
    (es : List Event)
    → is_paced idle (events_of o p url count now a ++ es) ≡ is_paced idle es
is_paced-events_of o p url count now no_response es = refl
is_paced-events_of o p url count now (responds r) es =
    elim (Bool-cases (is_push_back (responds r))) [
      | inl slow ↦
          let slower : (r.status_code == 429 || r.status_code == 503) ≡ true = ground arith in
          let rest : List Event = body_event (redirect_target o r) ∷ released ∷ es in
          rw slow (
            ap
              (λ b.
                is_paced (if b then slowing else answered)
                  (backed_off (spacing_after p count now (responds r)) ∷ rest))
              slower
            ∙ is_paced-body_event (redirect_target o r) es)
      | inr fine ↦
          let normal : (r.status_code == 429 || r.status_code == 503) ≡ false = ground arith in
          let rest : List Event = body_event (redirect_target o r) ∷ released ∷ es in
          rw fine (
            ap (λ b. is_paced (if b then slowing else answered) rest) normal
            ∙ is_paced-body_event (redirect_target o r) es)
    ]

module _ (o : HttpFetcherOptions) (p : Platform) (net : Network) (initial_url : Text) where
  paced_hop :
      (continue : Text → Fetched) (count : ℕ) (h : Hop)
      → ((url : Text) → is_paced idle (continue url).events ≡ true)
      → is_paced idle (after_hop continue count h).events ≡ true
  paced_hop continue count (moved url) k = k url
  paced_hop continue count (ended outcome) k = refl

  paced_unless :
      (f : Fetched) (count : ℕ) (e : Option HttpError)
      → is_paced idle f.events ≡ true
      → is_paced idle (unless_refused f count e).events ≡ true
  paced_unless f count none k = k
  paced_unless f count (some e) k = refl

  fetch_from-paced :
      (fuel n count : ℕ) (url : Text)
      → is_paced idle (fetch_from o p net initial_url fuel n count url).events ≡ true
  unfolding fetch_from
  fetch_from-paced zero n count url = refl
  fetch_from-paced (suc fuel) n count url =
      let a : Answer = net.answer n url in
      let rest =
        paced_hop (fetch_from o p net initial_url fuel (suc n) _) _ (hop_after o p url n a)
          (fetch_from-paced fuel (suc n) _) in
      paced_unless _ count (refusal o p initial_url n url)
        (is_paced-events_of o p url count (net.clock n) a _ ∙ rest)

-- Whatever the network answers and however a fetch ends, errors included, its use of the limiter is
-- a sequence of rounds: each takes a slot, makes exactly one request and gives the slot back, and
-- where there is a response, not before its body was read or thrown away. A push-back is told, once,
-- exactly for the statuses 429 and 503. At the end the fetch holds no slot.
pub fetch_url-paced :
    (o : HttpFetcherOptions) (p : Platform) (net : Network) (count : ℕ) (url : Text)
    → is_paced idle (fetch_url o p net count url).events ≡ true
unfolding fetch_url
fetch_url-paced o p net count url = fetch_from-paced o p net url _ 0 count url
