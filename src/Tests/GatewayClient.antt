-- ===== src/Tests/GatewayClient.antt =====
-- The client of the feature gateway on concrete inputs: a gateway that says yes once and is then down.
use codenexus.Prelude.{
  ℕ, zero, suc, ◌+◌, ◌≤◌, pos, ◌≡◌, refl, true, Option, none, some, arith, Text, codes, text_eq,
  decimal, display_int,
}
use codenexus.Gateway.Models.{ResolvedFeature, class_override}
use codenexus.Infra.GatewayClient.{
  Http, GatewayClient, new, resolve, resolve_key, from_scope_str, said, debug_id, disabled,
}
use codenexus.Infra.GatewayClient.Fresh.{Honest, Answered, resolve-fresh}

-- How many requests are still served, and the time.
abbrev Gateway : Type 0
Gateway = ℕ × ℕ

abbrev served : Text → Text → Gateway → Option (ℕ × Text) × Gateway
served url auth (zero, t) = (none, (0, t + 1))
served url auth (suc n, t) = (some (200, codes "yes"), (0, t + 1))

abbrev once : Http
once = record {
  Env = Gateway;
  get = served;
  json = λ body. some (true, codes "class");
  now = λ e. e.1;
}

abbrev client : GatewayClient Gateway
client = new once (1, 0) (codes "http://gw/") (codes "s")

forwards : (u a : Text) (e : Gateway) → e.1 ≤ (served u a e).1.1
forwards u a (zero, t) = omega arith
forwards u a (suc n, t) = omega arith

nothing_cached : Honest once (codes "http://gw") (codes "Bearer s") client.cache
unfolding new
nothing_cached slug tenant_id campus_id grade_id c h = cc

abbrev first_answer : ResolvedFeature × GatewayClient Gateway
first_answer = resolve once (codes "ai") (pos 1) none none client

answered_twice :
    (resolve once (codes "ai") (pos 1) none none first_answer.1).0
    ≡ record { enabled = true; source = class_override }
unfolding new resolve resolve_key said from_scope_str debug_id text_eq decimal display_int
answered_twice = refl

other_tenant_off : (resolve once (codes "ai") (pos 2) none none first_answer.1).0 ≡ disabled
unfolding new resolve resolve_key said from_scope_str debug_id text_eq decimal display_int
other_tenant_off = refl

resolve-fresh_example :
    Answered once
      (codes "http://gw")
      (codes "Bearer s")
      (codes "ai")
      (pos 1)
      none
      none
      0
      first_answer.0
    × Honest once (codes "http://gw") (codes "Bearer s") first_answer.1.cache
unfolding new
resolve-fresh_example =
    resolve-fresh once (codes "http://gw") (codes "Bearer s") forwards (codes "ai") (pos 1) none
      none client refl refl nothing_cached
