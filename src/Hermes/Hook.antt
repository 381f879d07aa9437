-- ===== src/Hermes/Hook.antt =====
-- Where events are sent, and what an answer means (hookConfigFromEnv and verdictForStatus of
-- src/hermes/deliver.ts). The URL parser is given.
use scraplify.Base.{
  ℕ, Bool, not, ◌&&◌, ◌||◌, Option, none, some, List, [], ◌∷◌, ltb, leb, ◌==◌, nat_eq, list_eq,
  if◌then◌else◌, has, Text, trim,
}
use scraplify.Net.IpPolicy.Text.{codes}

pub data HookConfigError : Type 0 where
  url_not_set secret_not_set access_half_set not_a_url not_https : HookConfigError

pub record Access : Type 0 where
  pub client_id : Text
  pub client_secret : Text

pub record HookConfig : Type 0 where
  pub url : Text
  pub secret : Text
  pub access : Option Access

-- `new URL(url)`: what the check reads of it.
pub record ParsedUrl : Type 0 where
  pub is_https : Bool
  pub is_http : Bool
  pub hostname : Text
  pub href : Text

pub data Configured : Type 0 where
  not_configured : Configured
  configured : HookConfig → Configured
  refused : HookConfigError → Configured

-- The four variables of the environment, the empty text where one is not set.
pub record Env : Type 0 where
  pub hermes_hook_url : Text
  pub hermes_hook_secret : Text
  pub cf_access_client_id : Text
  pub cf_access_client_secret : Text

abbrev pub is_unset : Text → Bool
is_unset s = trim s == []

abbrev pub access_of : Text → Text → Option Access
access_of client_id client_secret =
    if client_id == []
    then none
    else some (record { client_id = client_id; client_secret = client_secret })

abbrev pub loopback_hosts : List Text
loopback_hosts = codes "127.0.0.1" ∷ codes "localhost" ∷ codes "[::1]" ∷ []

abbrev pub checked_url : Env → Option ParsedUrl → Configured
checked_url env none = refused not_a_url
checked_url env (some parsed) =
    if not parsed.is_https && not (parsed.is_http && has parsed.hostname loopback_hosts)
    then refused not_https
    else configured (record {
      url = parsed.href;
      secret = trim env.hermes_hook_secret;
      access = access_of (trim env.cf_access_client_id) (trim env.cf_access_client_secret);
    })

unfoldable pub hook_config_from_env : (Text → Option ParsedUrl) → Env → Configured
hook_config_from_env parse_url env =
    if is_unset env.hermes_hook_url
      && is_unset env.hermes_hook_secret
      && is_unset env.cf_access_client_id
      && is_unset env.cf_access_client_secret
    then not_configured
    else if is_unset env.hermes_hook_url
    then refused url_not_set
    else if is_unset env.hermes_hook_secret
    then refused secret_not_set
    else if (is_unset env.cf_access_client_id && not (is_unset env.cf_access_client_secret))
        || (not (is_unset env.cf_access_client_id) && is_unset env.cf_access_client_secret)
    then refused access_half_set
    else checked_url env (parse_url (trim env.hermes_hook_url))

pub data Verdict : Type 0 where
  delivered retry dead : Verdict

abbrev pub verdict_for_status : ℕ → Verdict
verdict_for_status status =
    if leb 200 status && ltb status 300
    then delivered
    else if status == 408 || status == 429 || leb 500 status
    then retry
    else dead

abbrev pub verdict_of : Option ℕ → Verdict
verdict_of none = retry
verdict_of (some status) = verdict_for_status status
