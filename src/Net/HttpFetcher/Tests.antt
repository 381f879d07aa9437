-- ===== src/Net/HttpFetcher/Tests.antt =====
-- A redirect within a site, one to an address inside, and a source that asks to slow down.
use scraplify.Base.{
  ◌==◌, list_eq, nat_eq, Text, ◌+◌, ◌≤◌, ◌≡◌, refl, true, false, none, some, [], ◌∷◌, length, All,
  if◌then◌else◌,
}
use scraplify.Net.IpPolicy.{
  classify_ip_address, parse_ipv4, parse_ipv6, classify_ipv4, classify_ipv6, ipv4_in_cidr,
  ipv6_in_cidr,
}
use scraplify.Net.IpPolicy.Text.{codes}
use scraplify.Net.HttpFetcher.BackOff.{absent, single, back_off_spacing_ms}
use scraplify.Net.HttpFetcher.Body.{
  decoded, ssrf_blocked_error, too_many_redirects_error, read_body_with_limit, decode_body,
  read_chunks,
}
use scraplify.Net.HttpFetcher.{
  HttpFetcherOptions, Platform, Network, Answer, responds, acquired, requested, responded,
  backed_off, body_read, released, thrown, Fetched, literal_ip_blocked, refusal, redirect_target,
  after_response, fetch_from, fetch_url,
}
use scraplify.Net.HttpFetcher.Hops.{is_paced, idle, fetch_url-paced}
use scraplify.Net.HttpFetcher.Redirects.{requested_urls, Concludes, fetch_url-Concludes}
use scraplify.Net.HttpFetcher.Targets.{IsPermitted, fetch_url-IsPermitted}

-- A URL is its hostname here.
abbrev platform : Platform
platform = record {
  hostname_of = λ url. some url;
  resolve_url = λ location base. some location;
  parse_date = λ s. none;
  codec = record { decompress = λ name bytes limit. decoded bytes; to_utf8 = λ bytes. bytes };
}

abbrev options : HttpFetcherOptions
options = record {
  is_url_allowed = λ url. true;
  max_redirects = 1;
  follows = true;
  max_response_bytes = 10;
}

abbrev page : Answer
page = responds (record {
  status_code = 200;
  headers = record { location = absent; retry_after = absent; content_encoding = absent };
  chunks = codes "he" ∷ codes "llo" ∷ [];
  breaks = false;
  dumps = true;
})

abbrev redirect_to : Text → Answer
redirect_to url = responds (record {
  status_code = 302;
  headers = record { location = single url; retry_after = absent; content_encoding = absent };
  chunks = [];
  breaks = false;
  dumps = true;
})

abbrev slow_down : Answer
slow_down = responds (record {
  status_code = 429;
  headers = record {
    location = absent;
    retry_after = single (codes " 7 ");
    content_encoding = absent;
  };
  chunks = [];
  breaks = false;
  dumps = true;
})

abbrev site : Network
site = record {
  answer = λ n url.
      if url == codes "a"
      then redirect_to (codes "b")
      else if url == codes "b"
      then page
      else if url == codes "in"
      then redirect_to (codes "[::1]")
      else if url == codes "loop"
      then redirect_to (codes "loop")
      else slow_down;
  clock = λ n. 0;
}

fetches :
    (requested_urls (fetch_url options platform site 0 (codes "a")).events
      ≡ codes "a" ∷ codes "b" ∷ [])
    × ((fetch_url options platform site 0 (codes "in")).outcome
        ≡ thrown (ssrf_blocked_error (codes "[::1]") (codes "::1" ∷ [])))
    × ((fetch_url options platform site 0 (codes "loop")).outcome
        ≡ thrown (too_many_redirects_error (codes "loop") 1))
    × ((fetch_url options platform site 0 (codes "slow")).events
        ≡ acquired
          ∷ requested (codes "slow")
          ∷ responded 429
          ∷ backed_off 7000
          ∷ body_read
          ∷ released
          ∷ [])
unfolding fetch_url fetch_from refusal literal_ip_blocked redirect_target after_response
    read_body_with_limit read_chunks decode_body back_off_spacing_ms classify_ip_address parse_ipv4
    parse_ipv6 classify_ipv4 classify_ipv6 ipv4_in_cidr ipv6_in_cidr
fetches = (refl, refl, refl, refl)

fetch_url-paced_example :
    is_paced idle (fetch_url options platform site 0 (codes "in")).events ≡ true
fetch_url-paced_example = fetch_url-paced options platform site 0 (codes "in")

fetch_url-Concludes_example :
    let f : Fetched = fetch_url options platform site 0 (codes "a") in
    Concludes 0 (requested_urls f.events) f.outcome
    × (length (requested_urls f.events) ≤ options.max_redirects + 1)
fetch_url-Concludes_example = fetch_url-Concludes options platform site 0 (codes "a")

fetch_url-IsPermitted_example :
    All
      (IsPermitted options platform)
      (requested_urls (fetch_url options platform site 0 (codes "in")).events)
fetch_url-IsPermitted_example = fetch_url-IsPermitted options platform site 0 (codes "in")
