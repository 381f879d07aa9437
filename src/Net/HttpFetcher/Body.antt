-- ===== src/Net/HttpFetcher/Body.antt =====
-- Reading and decoding a response's body (`readBodyWithLimit` and `decodeBody` of
-- src/net/http-fetcher.ts), and the errors that a fetch can throw. The decompressors and the UTF-8
-- decoder are the platform's.
use scraplify.Base.{
  ℕ, ◌+◌, Bool, ◌&&◌, List, [], ◌∷◌, ◌++◌, ltb, leb, nat_eq, if◌then◌else◌, length, map, has, Text,
  list_eq, trim, join_by_comma,
}
use scraplify.Net.IpPolicy.Text.{codes}
use scraplify.Net.HttpFetcher.BackOff.{HeaderValue, absent, single, several}

-- `other_error` is any error that the file does not name: a failed request, a body that breaks, a
-- redirect to no URL, an encoding that is not supported.
pub data HttpError : Type 0 where
  url_not_allowed_error : (url : Text) → HttpError
  ssrf_blocked_error : (hostname : Text) → (blocked_addresses : List Text) → HttpError
  too_many_redirects_error : (url : Text) → (limit : ℕ) → HttpError
  response_too_large_error : (url : Text) → (limit_bytes : ℕ) → HttpError
  other_error : HttpError

pub data Result {ℓ} (A : Type ℓ) : Type ℓ where
  ok : A → Result A
  err : HttpError → Result A

pub data Decompressed : Type 0 where
  decoded : List ℕ → Decompressed
  buffer_too_large : Decompressed
  broken : Decompressed

pub record Codec : Type 0 where
  pub decompress : Text → List ℕ → ℕ → Decompressed
  pub to_utf8 : List ℕ → Text

-- The loop of `readBodyWithLimit`: `read` holds what was read, `total` its length.
unfoldable pub read_chunks :
    (limit_bytes : ℕ)
    → (url : Text) → (breaks : Bool) → (total : ℕ) → (read : List ℕ) → List (List ℕ)
    → Result (List ℕ)
read_chunks limit_bytes url breaks total read [] = if breaks then err other_error else ok read
read_chunks limit_bytes url breaks total read (chunk ∷ chunks) =
    let rest = read_chunks limit_bytes url breaks (total + length chunk) (read ++ chunk) chunks in
    if ltb limit_bytes (total + length chunk)
    then err (response_too_large_error url limit_bytes)
    else rest

unfoldable pub read_body_with_limit : List (List ℕ) → Bool → ℕ → Text → Result (List ℕ)
unfolding read_chunks
read_body_with_limit chunks breaks limit_bytes url = read_chunks limit_bytes url breaks 0 [] chunks

-- `toLowerCase` of the Latin letters: the names it is compared with have no others, and no other
-- character's lower case is one letter of them.
abbrev pub lower_case : Text → Text
lower_case s = map (λ c. if leb b'A' c && leb c b'Z' then c + 32 else c) s

abbrev pub encoding_name : HeaderValue → Text
encoding_name absent = []
encoding_name (single encoding) = lower_case (trim encoding)
encoding_name (several encodings) = lower_case (trim (join_by_comma encodings))

abbrev pub decompressors : List Text
decompressors = codes "gzip" ∷ codes "br" ∷ codes "deflate" ∷ codes "zstd" ∷ []

abbrev pub body_of : Codec → Text → ℕ → Decompressed → Result Text
body_of codec url limit_bytes (decoded bytes) = ok (codec.to_utf8 bytes)
body_of codec url limit_bytes buffer_too_large = err (response_too_large_error url limit_bytes)
body_of codec url limit_bytes broken = err other_error

unfoldable pub decode_body : Codec → List ℕ → HeaderValue → ℕ → Text → Result Text
decode_body codec bytes encoding limit_bytes url =
    let name : Text = encoding_name encoding in
    if has name ([] ∷ codes "identity" ∷ [])
    then ok (codec.to_utf8 bytes)
    else if has name decompressors
    then body_of codec url limit_bytes (codec.decompress name bytes limit_bytes)
    else err other_error
