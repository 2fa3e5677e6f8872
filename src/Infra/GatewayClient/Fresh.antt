-- ===== src/Infra/GatewayClient/Fresh.antt =====
-- What `resolve` of backend/api-infra/src/feature_gateway/client.rs may answer.
use mathlib.Core.Option.{some-injective}
use mathlib.Core.Path.{subst}
use codenexus.Prelude.{
  ltb→lt, ℕ, ◌+◌, ◌≤◌, ◌<◌, ℤ, ◌≡◌, ◌⊎◌, inl, inr, refl, sym, ap, Bool, true, false, Option, none,
  some, arith, Text, text_eq, text_eq_iff, ltb, if◌then◌else◌,
}
use codenexus.Gateway.Models.{ResolvedFeature}
use codenexus.Infra.GatewayClient.{
  Http, GatewayClient, CachedResolve, disabled, resolve, resolve_key, resolve_url, said, kept,
  fetch, look,
}
use codenexus.Infra.GatewayClient.Keys.{resolve_key-injective}

module _ (http : Http) (base_url auth_header : Text) where
  open http use {Env, get, now}

  -- The gateway, asked for a context, gave an answer, and then it was a certain time.
  pub record Told (slug : Text) (tenant_id : ℤ) (campus_id grade_id : Option ℤ)
      (r : ResolvedFeature) (time : ℕ) : Type 0 where
    pub before : Env
    pub answer :
        said http
          (get (resolve_url base_url slug tenant_id campus_id grade_id) auth_header before).0
        ≡ some r
    pub at :
        now (get (resolve_url base_url slug tenant_id campus_id grade_id) auth_header before).1
        ≡ time

  abbrev ten_seconds : ℕ
  ten_seconds = 10_000_000_000

  -- Each cached answer was given for the context of its key, ten seconds before it expires.
  abbrev pub Honest : (Text → Option CachedResolve) → Type 0
  Honest cache =
      (slug : Text) (tenant_id : ℤ) (campus_id grade_id : Option ℤ) (c : CachedResolve)
      → cache (resolve_key tenant_id slug campus_id grade_id) ≡ some c
      → (time : ℕ) × Told slug tenant_id campus_id grade_id c.resolved time
        × (c.expires_at ≡ time + 10_000_000_000)

  -- Off, or what the gateway told for the context less than ten seconds ago.
  abbrev pub Answered : Text → ℤ → Option ℤ → Option ℤ → ℕ → ResolvedFeature → Type 0
  Answered slug tenant_id campus_id grade_id t r =
      (r ≡ disabled)
      ⊎ ((time : ℕ) × Told slug tenant_id campus_id grade_id r time × (t < time + 10_000_000_000))

  abbrev Sound : Text → ℤ → Option ℤ → Option ℤ → ℕ → ResolvedFeature × GatewayClient Env → Type 0
  Sound slug tenant_id campus_id grade_id t x =
      Answered slug tenant_id campus_id grade_id t x.0 × Honest x.1.cache

  module _ (slug : Text) (tenant_id : ℤ) (campus_id grade_id : Option ℤ) where
    abbrev key : Text
    key = resolve_key tenant_id slug campus_id grade_id

    abbrev url : Text
    url = resolve_url base_url slug tenant_id campus_id grade_id

    insert-Honest :
        (cache : Text → Option CachedResolve) (r : ResolvedFeature) (time : ℕ)
        → Told slug tenant_id campus_id grade_id r time
        → Honest cache
        → Honest (λ k.
          if text_eq key k
          then some (record { resolved = r; expires_at = time + 10_000_000_000 })
          else cache k)
    insert-Honest cache r time told honest s t c g e h =
        found (text_eq key (resolve_key t s c g)) refl h
      where
        found :
            (b : Bool)
            → text_eq key (resolve_key t s c g) ≡ b
            → (if b
                then some (record { resolved = r; expires_at = time + 10_000_000_000 })
                else cache (resolve_key t s c g))
              ≡ some e
            → (u : ℕ) × Told s t c g e.resolved u × (e.expires_at ≡ u + 10_000_000_000)
        found false same k = honest s t c g e k
        found true same k =
            let (tenants, slugs, campuses, grades) =
              resolve_key-injective tenant_id t slug s campus_id c grade_id g
                ((text_eq_iff key (resolve_key t s c g)).0 same) in
            let entry = some-injective _ _ k in
            rw (← entry, ← tenants, ← slugs, ← campuses, ← grades) (time, told, refl)

    evict-Honest :
        (cache : Text → Option CachedResolve)
        → Honest cache
        → Honest (λ k. if text_eq key k then none else cache k)
    evict-Honest cache honest s t c g e h = kept_entry (text_eq key (resolve_key t s c g)) h
      where
        kept_entry :
            (b : Bool)
            → (if b then none else cache (resolve_key t s c g)) ≡ some e
            → (u : ℕ) × Told s t c g e.resolved u × (e.expires_at ≡ u + 10_000_000_000)
        kept_entry true k = cc
        kept_entry false k = honest s t c g e k

    module _ (forward : (u a : Text) (e : Env) → now e ≤ now (get u a e).1) where
      kept-Sound :
          (o : Option ResolvedFeature) (before : Env) (client : GatewayClient Env)
          → client.env ≡ (get url auth_header before).1
          → said http (get url auth_header before).0 ≡ o
          → Honest client.cache
          → Sound slug tenant_id campus_id grade_id (now before) (kept http key o client)
      unfolding kept
      kept-Sound none before client f e honest = (inl refl, honest)
      kept-Sound (some r) before client f e honest =
          let told : Told slug tenant_id campus_id grade_id r (now client.env) = record {
            before = before;
            answer = e;
            at = ap now (sym f);
          } in
          (
            inr (now client.env, told, omega (arith, forward url auth_header before, ap now f)),
            insert-Honest client.cache r (now client.env) told honest,
          )

      fetch-Sound :
          (client : GatewayClient Env)
          → client.auth_header ≡ auth_header
          → Honest client.cache
          → Sound slug tenant_id campus_id grade_id (now client.env) (fetch http key url client)
      unfolding fetch
      fetch-Sound client a honest =
          subst
            (λ h. Sound slug tenant_id campus_id grade_id (now client.env) (
              kept http key (said http (get url h client.env).0)
                (record client { env = (get url h client.env).1 })))
            (sym a)
            (kept-Sound _ client.env (record client { env = (get url auth_header client.env).1 })
              refl refl honest)

      look-Sound :
          (o : Option CachedResolve) (client : GatewayClient Env)
          → client.cache key ≡ o
          → client.auth_header ≡ auth_header
          → Honest client.cache
          → Sound slug tenant_id campus_id grade_id (now client.env) (look http key url o client)
      unfolding look
      look-Sound none client h a honest = fetch-Sound client a honest
      look-Sound (some c) client h a honest = at_time (ltb (now client.env) c.expires_at) refl
        where
          at_time :
              (b : Bool)
              → ltb (now client.env) c.expires_at ≡ b
              → Sound slug tenant_id campus_id grade_id (now client.env) (
                  if b
                  then (c.resolved, client)
                  else fetch http key url (record client {
                    cache = λ k. if text_eq key k then none else client.cache k;
                  }))
          at_time true e =
              let (time, told, until) = honest slug tenant_id campus_id grade_id c h in
              (inr (time, told, omega (arith, until, ltb→lt _ _ e)), honest)
          at_time false e =
              fetch-Sound
                (record client { cache = λ k. if text_eq key k then none else client.cache k }) a
                (evict-Honest client.cache honest)

  -- On a clock that does not go back, and with a cache in which each answer was told for its key
  -- ten seconds before it expires, resolve answers off, or what the gateway told for this very
  -- tenant, slug, campus and grade less than ten seconds before the call or since; and the cache
  -- stays such.
  pub resolve-fresh :
      (forward : (u a : Text) (e : Env) → now e ≤ now (get u a e).1) (slug : Text) (tenant_id : ℤ)
      (campus_id grade_id : Option ℤ) (client : GatewayClient Env)
      → client.base_url ≡ base_url
      → client.auth_header ≡ auth_header
      → Honest client.cache
      → Answered slug tenant_id campus_id grade_id
          (now client.env)
          (resolve http slug tenant_id campus_id grade_id client).0
        × Honest (resolve http slug tenant_id campus_id grade_id client).1.cache
  unfolding resolve
  resolve-fresh forward slug tenant_id campus_id grade_id client u a honest =
      subst
        (λ b. Sound slug tenant_id campus_id grade_id (now client.env) (
          look http (key slug tenant_id campus_id grade_id)
            (resolve_url b slug tenant_id campus_id grade_id)
            (client.cache (key slug tenant_id campus_id grade_id)) client))
        (sym u) (look-Sound slug tenant_id campus_id grade_id forward _ client refl a honest)
