-- ===== src/Normalize/Applications.antt =====
-- The key of an application contact (normalizeApplicationValue of src/normalize/text.ts). The URL
-- parser, the writing of a query and lower case are the platform's.
use scraplify.Base.{
  not, Option, none, some, List, [], ◌∷◌, ◌++◌, ◌==◌, nat_eq, list_eq, option_eq, if◌then◌else◌,
  filter, has, Text, trim,
}
use scraplify.Net.IpPolicy.Text.{codes}

-- What is read of `new URL(trimmed)`.
pub record ApplicationUrl : Type 0 where
  pub protocol : Text
  pub host : Text
  pub pathname : Text
  pub search_params : List (Text × Text)

pub record UrlPlatform : Type 0 where
  pub to_lower : Text → Text
  pub parse_url : Text → Option ApplicationUrl
  pub encode_query : List (Text × Text) → Text

abbrev pub tracking_parameters : List Text
tracking_parameters =
    codes "utm_source"
    ∷ codes "utm_medium"
    ∷ codes "utm_campaign"
    ∷ codes "utm_term"
    ∷ codes "utm_content"
    ∷ codes "utm_id"
    ∷ codes "gclid"
    ∷ codes "fbclid"
    ∷ codes "mc_cid"
    ∷ codes "mc_eid"
    ∷ codes "ref"
    ∷ codes "referrer"
    ∷ codes "source"
    ∷ []

-- The parameters that are left after each tracking one is deleted.
abbrev pub without_tracking : UrlPlatform → List (Text × Text) → List (Text × Text)
without_tracking u params =
    filter (λ (p : Text × Text). not (has (u.to_lower p.0) tracking_parameters)) params

-- `path.slice(0, -1)` of a path that ends in a slash, any other as it is.
abbrev pub without_last_slash : Text → Text
without_last_slash [] = []
without_last_slash (c ∷ []) = if c == b'/' then [] else c ∷ []
without_last_slash (c ∷ d ∷ s) = c ∷ without_last_slash (d ∷ s)

abbrev pub path_of : Text → Text
path_of pathname = if pathname == codes "/" then pathname else without_last_slash pathname

abbrev pub query_part : Text → Text
query_part [] = []
query_part (c ∷ s) = b'?' ∷ c ∷ s

abbrev pub url_key : UrlPlatform → Text → Option ApplicationUrl → Text
url_key u trimmed none = u.to_lower trimmed
url_key u trimmed (some url) =
    u.to_lower url.protocol
    ++ codes "//"
    ++ u.to_lower url.host
    ++ path_of url.pathname
    ++ query_part (u.encode_query (without_tracking u url.search_params))

abbrev pub key_of : UrlPlatform → Option Text → Text → Option Text
key_of u type_name trimmed =
    if trimmed == []
    then none
    else if type_name == some (codes "email")
    then some (u.to_lower trimmed)
    else if type_name == some (codes "url")
    then some (url_key u trimmed (u.parse_url trimmed))
    else none

unfoldable pub normalize_application_value : UrlPlatform → Option Text → Option Text → Option Text
normalize_application_value u type_name none = none
normalize_application_value u type_name (some value) = key_of u type_name (trim value)
