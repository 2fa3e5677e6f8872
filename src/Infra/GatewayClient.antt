-- ===== src/Infra/GatewayClient.antt =====
-- `GatewayClient::new` and `resolve` of backend/api-infra/src/feature_gateway/client.rs. The types
-- FeatureSource and ResolvedFeature are those of backend/feature-gateway/src/models.rs, which the file
-- copies. An `Instant` is a number of nanoseconds.
pub mod Keys
pub mod Fresh
use codenexus.Prelude.{
  ℕ, ◌+◌, ◌==◌, ℤ, Bool, true, false, ◌&&◌, Option, none, some, [], ◌∷◌, ◌++◌, Text, codes, text_eq,
  leb, ltb, display_int, if◌then◌else◌,
}
use codenexus.Gateway.Models.{
  FeatureSource, default, global_override, campus_override, grade_override, class_override,
  system_emergency_off, ResolvedFeature,
}

unfoldable pub from_scope_str : Text → Option FeatureSource
from_scope_str s =
    if text_eq s (codes "default")
    then some default
    else if text_eq s (codes "global")
    then some global_override
    else if text_eq s (codes "campus")
    then some campus_override
    else if text_eq s (codes "grade")
    then some grade_override
    else if text_eq s (codes "class")
    then some class_override
    else if text_eq s (codes "system_emergency_off")
    then some system_emergency_off
    else none

-- `trim_end_matches('/')`
trim_slashes : Text → Text
trim_slashes [] = []
trim_slashes (c ∷ s) = elim (trim_slashes s) [
  | [] ↦ if c == b'/' then [] else c ∷ []
  | d ∷ t ↦ c ∷ d ∷ t
]

-- `{:?}` of an `Option<i64>`
unfoldable pub debug_id : Option ℤ → Text
debug_id none = codes "None"
debug_id (some id) = codes "Some(" ++ (display_int id ++ codes ")")

unfoldable pub resolve_key : ℤ → Text → Option ℤ → Option ℤ → Text
unfolding debug_id
resolve_key tenant_id slug campus_id grade_id =
    display_int tenant_id
    ++ b':' ∷ ((slug ++ b':' ∷ debug_id campus_id) ++ b':' ∷ debug_id grade_id)

parameter : Text → Option ℤ → Text
parameter name none = []
parameter name (some id) = b'&' ∷ name ++ b'=' ∷ display_int id

unfoldable pub resolve_url : Text → Text → ℤ → Option ℤ → Option ℤ → Text
unfolding parameter
resolve_url base_url slug tenant_id campus_id grade_id =
    base_url
    ++ (codes "/resolve?slug="
        ++ (slug
            ++ (codes "&tenant_id="
                ++ (display_int tenant_id
                    ++ (parameter (codes "campus_id") campus_id
                        ++ parameter (codes "grade_id") grade_id)))))

pub record CachedResolve : Type 0 where
  pub resolved : ResolvedFeature
  pub expires_at : ℕ

-- An answer to a GET: none, or a status and a body. The body may be read as a `ResolveResponse`.
pub record Http : Type 1 where
  pub Env : Type 0
  pub get : Text → Text → Env → Option (ℕ × Text) × Env
  pub json : Text → Option (Bool × Text)
  pub now : Env → ℕ

pub record GatewayClient (Env : Type 0) : Type 0 where
  pub env : Env
  pub base_url : Text
  pub cache : Text → Option CachedResolve
  pub auth_header : Text

abbrev pub disabled : ResolvedFeature
disabled = record { enabled = false; source = default }

-- `unwrap_or(FeatureSource::Default)`
or_default : Option FeatureSource → FeatureSource
or_default none = default
or_default (some source) = source

module _ (http : Http) where
  open http use {Env, get, json, now}

  unfoldable pub new : Env → Text → Text → GatewayClient Env
  unfolding trim_slashes
  new env base_url worker_secret = record {
    env = env;
    base_url = trim_slashes base_url;
    cache = λ key. none;
    auth_header = codes "Bearer " ++ worker_secret;
  }

  decoded : Option (Bool × Text) → Option ResolvedFeature
  unfolding or_default from_scope_str
  decoded none = none
  decoded (some (enabled, source)) =
      some (record { enabled = enabled; source = or_default (from_scope_str source) })

  -- What a reply says, if it is a success that can be read.
  unfoldable pub said : Option (ℕ × Text) → Option ResolvedFeature
  unfolding decoded
  said none = none
  said (some (status, body)) =
      if leb 200 status && ltb status 300 then decoded (json body) else none

  kept : Text → Option ResolvedFeature → GatewayClient Env → ResolvedFeature × GatewayClient Env
  kept key none client = (disabled, client)
  kept key (some resolved) client = (
    resolved,
    record client {
      cache = λ k.
          if text_eq key k
          then some (record { resolved = resolved; expires_at = now client.env + 10_000_000_000 })
          else client.cache k;
    },
  )

  fetch : Text → Text → GatewayClient Env → ResolvedFeature × GatewayClient Env
  unfolding kept said
  fetch key url client =
      let (reply, env) = get url client.auth_header client.env in
      kept key (said reply) (record client { env = env })

  look :
      Text → Text → Option CachedResolve → GatewayClient Env → ResolvedFeature × GatewayClient Env
  unfolding fetch
  look key url none client = fetch key url client
  look key url (some cached) client =
      if ltb (now client.env) cached.expires_at
      then (cached.resolved, client)
      else fetch key url
          (record client { cache = λ k. if text_eq key k then none else client.cache k })

  unfoldable pub resolve :
      Text → ℤ → Option ℤ → Option ℤ → GatewayClient Env → ResolvedFeature × GatewayClient Env
  unfolding look
  resolve slug tenant_id campus_id grade_id client =
      look (resolve_key tenant_id slug campus_id grade_id)
        (resolve_url client.base_url slug tenant_id campus_id grade_id)
        (client.cache (resolve_key tenant_id slug campus_id grade_id)) client
