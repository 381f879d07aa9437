-- ===== src/Net/HttpFetcher.antt =====
-- Fetching a page of a source (src/net/http-fetcher.ts). What stands outside that file is given: the
-- URL parser, the date parser, the decompressors and the UTF-8 decoder of the platform, and the
-- network, which answers the n-th request and tells the time of its answer. A fetch returns its
-- outcome together with what it did to the limiter and the network, in order; the limiter's count
-- of push-backs is passed on as a state. A page is a list of bytes, a text one of code points.
-- Time-outs are answers that never come (`no_response`); logging is left out.
pub mod BackOff
pub mod Body
pub mod Hops
pub mod Redirects
pub mod Targets
mod Tests
use scraplify.Base.{
  ℕ, Text, zero, suc, ◌+◌, Bool, true, false, not, ◌&&◌, ◌||◌, Option, none, some, List, [], ◌∷◌,
  ◌++◌, ltb, leb, ◌==◌, nat_eq, if◌then◌else◌, length, has,
}
use scraplify.Net.IpPolicy.{IpAddressClassification, public, classify_ip_address}
use scraplify.Net.HttpFetcher.BackOff.{HeaderValue, first_value, back_off_spacing_ms}
use scraplify.Net.HttpFetcher.Body.{
  HttpError, url_not_allowed_error, ssrf_blocked_error, too_many_redirects_error, other_error,
  Result, ok, err, Codec, read_body_with_limit, decode_body,
}

pub record Headers : Type 0 where
  pub location : HeaderValue
  pub retry_after : HeaderValue
  pub content_encoding : HeaderValue

-- The body arrives in chunks and may break after them; `dumps` tells whether undici can throw the
-- body of a redirect away.
pub record Response : Type 0 where
  pub status_code : ℕ
  pub headers : Headers
  pub chunks : List (List ℕ)
  pub breaks : Bool
  pub dumps : Bool

pub data Answer : Type 0 where
  no_response : Answer
  responds : Response → Answer

pub record HttpFetchResult : Type 0 where
  pub status : ℕ
  pub headers : Headers
  pub body : Text
  pub final_url : Text
  pub redirect_count : ℕ

-- `follows` is `redirect !== 'manual'`.
pub record HttpFetcherOptions : Type 0 where
  pub is_url_allowed : Text → Bool
  pub max_redirects : ℕ
  pub follows : Bool
  pub max_response_bytes : ℕ

-- `new URL(url).hostname` and `new URL(location, url).toString()`, none where they throw; and the
-- time that `Date.parse` reads, none where it reads no date or one before 1970.
pub record Platform : Type 0 where
  pub hostname_of : Text → Option Text
  pub resolve_url : Text → Text → Option Text
  pub parse_date : Text → Option ℕ
  pub codec : Codec

pub record Network : Type 0 where
  pub answer : ℕ → Text → Answer
  pub clock : ℕ → ℕ

-- The headers of a response come before its body; `body_dumped` and `body_read` tell that the transfer
-- of the body is over, at its end or with an error.
pub data Event : Type 0 where
  acquired : Event
  requested : Text → Event
  responded : (status_code : ℕ) → Event
  backed_off : (spacing_ms : ℕ) → Event
  body_dumped body_read : Event
  released : Event

pub data Outcome : Type 0 where
  fetched : HttpFetchResult → Outcome
  thrown : HttpError → Outcome
  unfinished : Outcome

pub record Fetched : Type 0 where
  pub outcome : Outcome
  pub events : List Event
  pub back_off_count : ℕ

abbrev pub redirect_status_codes : List ℕ
redirect_status_codes = 301 ∷ 302 ∷ 303 ∷ 307 ∷ 308 ∷ []

abbrev pub back_off_status_codes : List ℕ
back_off_status_codes = 429 ∷ 503 ∷ []

abbrev pub after_char : ℕ → Option Text → Option Text
after_char c none = none
after_char c (some s) = some (c ∷ s)

-- `hostname.endsWith(']') ? hostname.slice(1, -1)` of a hostname after its first character.
abbrev pub without_bracket : Text → Option Text
without_bracket [] = none
without_bracket (c ∷ []) = if c == b']' then some [] else none
without_bracket (c ∷ d ∷ s) = after_char c (without_bracket (d ∷ s))

abbrev pub or_whole : Text → Option Text → Text
or_whole s none = s
or_whole s (some t) = t

abbrev pub bare_address : Text → Text
bare_address [] = []
bare_address (c ∷ s) = if c == b'[' then or_whole (c ∷ s) (without_bracket s) else c ∷ s

abbrev pub unless_public : Text → Option IpAddressClassification → Option Text
unless_public bare none = none
unless_public bare (some public) = none
unless_public bare (some _) = some bare

unfoldable pub literal_ip_blocked : Text → Option Text
literal_ip_blocked hostname =
    unless_public (bare_address hostname) (classify_ip_address (bare_address hostname))

abbrev pub refusal_of_literal : Text → Option Text → Option HttpError
refusal_of_literal hostname none = none
refusal_of_literal hostname (some blocked) = some (ssrf_blocked_error hostname (blocked ∷ []))

abbrev pub refusal_of_host : Text → Option Text → Option HttpError
refusal_of_host url none = some (url_not_allowed_error url)
refusal_of_host url (some hostname) = refusal_of_literal hostname (literal_ip_blocked hostname)

-- The checks before each request, in their order.
unfoldable pub refusal :
    HttpFetcherOptions → Platform → (initial_url : Text) → ℕ → Text → Option HttpError
refusal o p initial_url redirect_count url =
    if ltb o.max_redirects redirect_count
    then some (too_many_redirects_error initial_url o.max_redirects)
    else if not (o.is_url_allowed url)
    then some (url_not_allowed_error url)
    else refusal_of_host url (p.hostname_of url)

-- Where the response sends the fetcher, when it is one that this fetcher follows.
unfoldable pub redirect_target : HttpFetcherOptions → Response → Option Text
redirect_target o r =
    if o.follows && has r.status_code redirect_status_codes
    then first_value r.headers.location
    else none

pub data Hop : Type 0 where
  moved : Text → Hop
  ended : Outcome → Hop

abbrev pub move_to : Option Text → Hop
move_to none = ended (thrown other_error)
move_to (some url) = moved url

abbrev pub outcome_of : Response → Text → ℕ → Result Text → Outcome
outcome_of r url redirect_count (err e) = thrown e
outcome_of r url redirect_count (ok body) = fetched (record {
  status = r.status_code;
  headers = r.headers;
  body = body;
  final_url = url;
  redirect_count = redirect_count;
})

abbrev pub decode_read : Codec → HeaderValue → ℕ → Text → Result (List ℕ) → Result Text
decode_read codec encoding limit url (err e) = err e
decode_read codec encoding limit url (ok bytes) = decode_body codec bytes encoding limit url

-- The rest of the try block once the back-off is done.
unfoldable pub after_response :
    HttpFetcherOptions → Platform → Text → ℕ → Response → Option Text → Hop
after_response o p url redirect_count r (some location) =
    if r.dumps then move_to (p.resolve_url location url) else ended (thrown other_error)
after_response o p url redirect_count r none = ended (
    outcome_of r url redirect_count (
      decode_read p.codec r.headers.content_encoding o.max_response_bytes url
        (read_body_with_limit r.chunks r.breaks o.max_response_bytes url)))

abbrev pub is_push_back : Answer → Bool
is_push_back no_response = false
is_push_back (responds r) = has r.status_code back_off_status_codes

abbrev pub spacing_after : Platform → ℕ → ℕ → Answer → ℕ
spacing_after p count now no_response = 0
spacing_after p count now (responds r) =
    back_off_spacing_ms p.parse_date r.headers.retry_after count now

abbrev pub hop_after : HttpFetcherOptions → Platform → Text → ℕ → Answer → Hop
hop_after o p url redirect_count no_response = ended (thrown other_error)
hop_after o p url redirect_count (responds r) =
    after_response o p url redirect_count r (redirect_target o r)

-- How the body of a response is taken off the connection: thrown away before a redirect, or read.
abbrev pub body_event : Option Text → Event
body_event none = body_read
body_event (some location) = body_dumped

abbrev pub back_off_events : Platform → ℕ → ℕ → Answer → List Event
back_off_events p count now a =
    if is_push_back a then backed_off (spacing_after p count now a) ∷ [] else []

-- The try block, from the request on.
abbrev pub try_events : HttpFetcherOptions → Platform → Text → ℕ → ℕ → Answer → List Event
try_events o p url count now no_response = requested url ∷ []
try_events o p url count now (responds r) =
    requested url ∷ responded r.status_code ∷ back_off_events p count now (responds r)
    ++ body_event (redirect_target o r) ∷ []

-- `acquire`, the try block, and the finally block after it.
abbrev pub events_of : HttpFetcherOptions → Platform → Text → ℕ → ℕ → Answer → List Event
events_of o p url count now a = acquired ∷ try_events o p url count now a ++ released ∷ []

abbrev pub count_after : ℕ → Answer → ℕ
count_after count a = if is_push_back a then suc count else count

abbrev pub prepend : List Event → Fetched → Fetched
prepend es f = record f { events = es ++ f.events }

abbrev pub after_hop : (Text → Fetched) → ℕ → Hop → Fetched
after_hop continue count (moved url) = continue url
after_hop continue count (ended outcome) = record {
  outcome = outcome;
  events = [];
  back_off_count = count;
}

abbrev pub unless_refused : Fetched → ℕ → Option HttpError → Fetched
unless_refused f count none = f
unless_refused f count (some e) = record { outcome = thrown e; events = []; back_off_count = count }

-- The loop, on fuel.
unfoldable pub fetch_from :
    HttpFetcherOptions
    → Platform
    → Network
    → (initial_url : Text) → (fuel redirect_count count : ℕ) → Text
    → Fetched
fetch_from o p net initial_url zero redirect_count count url = record {
  outcome = unfinished;
  events = [];
  back_off_count = count;
}
fetch_from o p net initial_url (suc fuel) redirect_count count url =
    let a : Answer = net.answer redirect_count url in
    unless_refused
      (prepend (events_of o p url count (net.clock redirect_count) a) (
        after_hop (fetch_from o p net initial_url fuel (suc redirect_count) (count_after count a))
          (count_after count a) (hop_after o p url redirect_count a)))
      count (refusal o p initial_url redirect_count url)

-- `fetchUrl`, of a limiter that was pushed back `count` times before.
unfoldable pub fetch_url : HttpFetcherOptions → Platform → Network → ℕ → Text → Fetched
unfolding fetch_from
fetch_url o p net count initial_url =
    fetch_from o p net initial_url (o.max_redirects + 2) 0 count initial_url
