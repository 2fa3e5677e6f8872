-- ===== src/Judge/Worker/Send/Probes.antt =====
-- The breaker of the API in backend/judge-worker/src/main.rs while a result is sent.
use mathlib.Core.Path.{subst}
use codenexus.Prelude.{
  ℕ, zero, suc, ◌+◌, ◌^◌, ◌<◌, ℤ, ◌≡◌, refl, sym, ap, ◌∙◌, inl, inr, Bool, true, false, Option,
  none, some, arith, Text, codes,
}
use codenexus.Judge.Queue.{JudgeResult}
use codenexus.Judge.CircuitBreaker.{CircuitBreaker, allow_request}
use codenexus.Judge.CircuitBreaker.Resting.{
  Resting, Granted, Answered, allow-Answered, success-Resting, failure-Resting,
}
use codenexus.Judge.Worker.{Outside, Worker}
use codenexus.Judge.Worker.Dlq.{write_fields, with_json, write_to_dlq}
use codenexus.Judge.Worker.Send.{
  DeliveryOutcome, Sent, accepted, refused, post_with, send_result_to_api, dead_letter, store, wait,
  behind, gate, last, rounds, on_success, on_failure, send_result_with_retry_breaker,
}

module _ (outside : Outside) where
  open outside use {Env}

  post_with-api :
      (secret : Option Text) (api_url : Text) (result : JudgeResult) (w : Worker Env)
      → (post_with outside secret api_url result w).1.api ≡ w.api
  unfolding post_with
  post_with-api none api_url result w = refl
  post_with-api (some secret) api_url result w = refl

  send-api :
      (api_url : Text) (result : JudgeResult) (w : Worker Env)
      → (send_result_to_api outside api_url result w).1.api ≡ w.api
  unfolding send_result_to_api
  send-api api_url result w = post_with-api (outside.worker_secret w.env) api_url result w

  module _ (api_url : Text) (result : JudgeResult) (stream : Text) (submitted_at : Option Text)
      (original_message : Text) (school_id : Option ℤ) where
    abbrev Next : Type 0
    Next = Worker Env → Option DeliveryOutcome × Worker Env

    dead_letter-api : (x : Bool × Worker Env) → (dead_letter outside x).1.api ≡ x.1.api
    unfolding dead_letter
    dead_letter-api (true, w) = refl
    dead_letter-api (false, w) = refl

    with_json-api :
        (json : Option Text) (reason : Text) (w : Worker Env)
        → (with_json outside json result reason
            (some stream)
            submitted_at
            (some original_message)
            school_id
            w).1.api
          ≡ w.api
    unfolding with_json write_fields
    with_json-api none reason w = refl
    with_json-api (some json) reason w = refl

    store-api :
        (reason : Text) (w : Worker Env)
        → (store outside api_url result stream submitted_at original_message school_id reason
            w).1.api
          ≡ w.api
    unfolding store write_to_dlq
    store-api reason w = dead_letter-api _ ∙ with_json-api (outside.result_json result) reason w

    store-Resting :
        (reason : Text) (w : Worker Env)
        → Resting w.api
        → Resting
            (store outside api_url result stream submitted_at original_message school_id reason
              w).1.api
    store-Resting reason w r = subst Resting (sym (store-api reason w)) r

    last-Resting :
        (x : Sent × Worker Env)
        → Granted x.1.api
        → x.1.api.failure_count + 1 < 2 ^ 64
        → Resting
            (last outside api_url result stream submitted_at original_message school_id x).1.api
    unfolding last on_success on_failure
    last-Resting (accepted, w) g small = success-Resting w.api
    last-Resting (refused e, w) g small =
        store-Resting e _ (failure-Resting w.api (outside.now w.env) small g).0

    behind-Resting :
        (next : Next) (x : Sent × Worker Env)
        → Granted x.1.api
        → x.1.api.failure_count + 1 < 2 ^ 64
        → ((v : Worker Env)
            → Resting v.api
            → v.api.failure_count ≡ x.1.api.failure_count + 1
            → Resting (next v).1.api)
        → Resting
            (behind outside api_url result stream submitted_at original_message school_id next
              x).1.api
    unfolding behind on_success on_failure
    behind-Resting next (accepted, w) g small k = success-Resting w.api
    behind-Resting next (refused e, w) g small k =
        let (r, c) = failure-Resting w.api (outside.now w.env) small g in k _ r c

    gate-Resting :
        (next : Next) (p : Bool × CircuitBreaker) (w : Worker Env)
        → Answered w.api p
        → ((v : Worker Env)
            → Granted v.api
            → v.api.failure_count ≡ w.api.failure_count
            → Resting (next v).1.api)
        → Resting
            (gate outside api_url result stream submitted_at original_message school_id next p
              w).1.api
    unfolding gate
    gate-Resting next (false, cb) w (inl (e, g), c) k = cc
    gate-Resting next (false, cb) w (inr (e, r), c) k =
        store-Resting (codes "API circuit breaker open") (record w { api = cb }) r
    gate-Resting next (true, cb) w (inl (e, g), c) k = k (record w { api = cb }) g c
    gate-Resting next (true, cb) w (inr (e, r), c) k = cc

    abbrev ask : Worker Env → Sent × Worker Env
    ask v = send_result_to_api outside api_url result v

    abbrev more : ℕ → Next
    more k u =
        rounds outside api_url result stream submitted_at original_message school_id k
          (wait outside api_url result stream submitted_at original_message school_id (suc k) u)

    asked-Granted : (v : Worker Env) → Granted v.api → Granted (ask v).1.api
    asked-Granted v g = subst Granted (sym (send-api api_url result v)) g

    asked-count : (v : Worker Env) → (ask v).1.api.failure_count ≡ v.api.failure_count
    asked-count v = ap (λ c. c.failure_count) (send-api api_url result v)

    rounds-Resting :
        (k : ℕ) (w : Worker Env)
        → Resting w.api
        → w.api.failure_count + (k + 1) < 2 ^ 64
        → Resting
            (rounds outside api_url result stream submitted_at original_message school_id k w).1.api
    unfolding rounds wait
    rounds-Resting zero w r small =
        gate-Resting
          (λ v. last outside api_url result stream submitted_at original_message school_id (ask v))
          (allow_request w.api (outside.now w.env)) w (allow-Answered w.api _ r)
          (λ v g c. last-Resting (ask v) (asked-Granted v g) (omega (arith, asked-count v, c)))
    rounds-Resting (suc k) w r small =
        gate-Resting
          (λ v.
            behind outside api_url result stream submitted_at original_message school_id (more k)
              (ask v))
          (allow_request w.api (outside.now w.env)) w (allow-Answered w.api _ r)
          (λ v g c.
            behind-Resting (more k) (ask v) (asked-Granted v g) (omega (arith, asked-count v, c))
              (λ u q d.
                rounds-Resting k
                  (wait outside api_url result stream submitted_at original_message school_id
                    (suc k) u)
                  q (omega (arith, asked-count v, c, d))))

    -- If no probe of the breaker of the API is under way, and the breaker is open only with its
    -- threshold reached, the same holds after send_result_with_retry_breaker, whatever comes of
    -- the requests, so no probe that it was granted stays under way, as long as the failure count
    -- stays below 2^64.
    pub send_result_with_retry_breaker-Resting :
        (w : Worker Env)
        → Resting w.api
        → w.api.failure_count + 3 < 2 ^ 64
        → Resting
            (send_result_with_retry_breaker outside api_url result stream submitted_at
              original_message school_id w).1.api
    unfolding send_result_with_retry_breaker
    send_result_with_retry_breaker-Resting w r small = rounds-Resting 2 w r (omega arith)
