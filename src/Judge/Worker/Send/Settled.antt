-- ===== src/Judge/Worker/Send/Settled.antt =====
-- The requests of sending a result, in backend/judge-worker/src/main.rs.
use codenexus.Prelude.{
  ℕ, zero, suc, ◌+◌, ◌≤◌, ℤ, refl, Bool, true, false, Option, none, some, List, arith, Text, codes,
}
use codenexus.Judge.Queue.{JudgeResult}
use codenexus.Judge.CircuitBreaker.{CircuitBreaker, allow_request}
use codenexus.Judge.Worker.{Outside, Worker, Event}
use codenexus.Judge.Worker.Dlq.{write_fields, with_json, write_to_dlq}
use codenexus.Judge.Worker.Requests.{Run, Run-here, Run-one, Run-trans, Run-weaken}
use codenexus.Judge.Worker.Send.{
  DeliveryOutcome, Sent, accepted, refused, is_accepted, post_with, send_result_to_api, dead_letter,
  store, wait, behind, gate, last, rounds, on_success, on_failure, send_result_with_retry_breaker,
  plain_wait, plain_last, plain_behind, plain_rounds, send_result_with_retry,
}

abbrev pub is_some : Option DeliveryOutcome → Bool
is_some none = false
is_some (some o) = true

module _ (outside : Outside) where
  open outside use {Env}

  -- A step that began with a log and gave an outcome: settled if there is one.
  abbrev pub Sends : List Event → Option DeliveryOutcome × Worker Env → ℕ → Type 0
  Sends l x n = Run l x.1.log false (is_some x.0) n

  post_with-Run :
      (secret : Option Text) (api_url : Text) (result : JudgeResult) (w : Worker Env)
      → Run w.log
          (post_with outside secret api_url result w).1.log
          false
          (is_accepted (post_with outside secret api_url result w).0)
          1
  unfolding post_with is_accepted
  post_with-Run none api_url result w = Run-here w.log false 1
  post_with-Run (some secret) api_url result w = Run-one w.log false _ refl

  send-Run :
      (api_url : Text) (result : JudgeResult) (w : Worker Env)
      → Run w.log
          (send_result_to_api outside api_url result w).1.log
          false
          (is_accepted (send_result_to_api outside api_url result w).0)
          1
  unfolding send_result_to_api
  send-Run api_url result w = post_with-Run (outside.worker_secret w.env) api_url result w

  module _ (api_url : Text) (result : JudgeResult) (stream : Text) (submitted_at : Option Text)
      (original_message : Text) (school_id : Option ℤ) where
    dead_letter-Run :
        (l : List Event) (x : Bool × Worker Env)
        → Run l x.1.log false x.0 1
        → Sends l (dead_letter outside x) 1
    unfolding dead_letter
    dead_letter-Run l (true, w) r = r
    dead_letter-Run l (false, w) r = r

    with_json-Run :
        (json : Option Text) (reason : Text) (w : Worker Env)
        → let x =
            with_json outside json result reason
              (some stream)
              submitted_at
              (some original_message)
              school_id
              w in
          Run w.log x.1.log false x.0 1
    unfolding with_json write_fields
    with_json-Run none reason w = Run-here w.log false 1
    with_json-Run (some json) reason w = Run-one w.log false _ refl

    store-Run :
        (reason : Text) (w : Worker Env)
        → Sends w.log
            (store outside api_url result stream submitted_at original_message school_id reason w)
            1
    unfolding store write_to_dlq
    store-Run reason w =
        dead_letter-Run w.log _ (with_json-Run (outside.result_json result) reason w)

    abbrev Next : Type 0
    Next = Worker Env → Option DeliveryOutcome × Worker Env

    abbrev ask : Worker Env → Sent × Worker Env
    ask v = send_result_to_api outside api_url result v

    abbrev more : ℕ → Next
    more k u =
        rounds outside api_url result stream submitted_at original_message school_id k
          (wait outside api_url result stream submitted_at original_message school_id (suc k) u)

    abbrev plain_more : ℕ → Next
    plain_more k u =
        plain_rounds outside api_url result stream submitted_at original_message school_id k (
          plain_wait outside api_url result stream submitted_at original_message school_id (suc k)
            u)

    last-Run :
        (l : List Event) (x : Sent × Worker Env)
        → Run l x.1.log false (is_accepted x.0) 1
        → Sends l (last outside api_url result stream submitted_at original_message school_id x) 2
    unfolding last is_accepted on_success on_failure
    last-Run l (accepted, w) r = Run-weaken l w.log false true 1 2 (omega arith) r
    last-Run l (refused e, w) r = Run-trans l w.log _ false false _ 1 1 r (store-Run e _)

    behind-Run :
        (l : List Event) (n : ℕ) (next : Next) (x : Sent × Worker Env)
        → ((v : Worker Env) → Sends v.log (next v) n)
        → Run l x.1.log false (is_accepted x.0) 1
        → Sends l
            (behind outside api_url result stream submitted_at original_message school_id next x)
            (1 + n)
    unfolding behind is_accepted on_success on_failure
    behind-Run l n next (accepted, w) k r = Run-weaken l w.log false true 1 (1 + n) (omega arith) r
    behind-Run l n next (refused e, w) k r = Run-trans l w.log _ false false _ 1 n r (k _)

    gate-Run :
        (n : ℕ) (next : Next) (p : Bool × CircuitBreaker) (w : Worker Env)
        → 1 ≤ n
        → ((v : Worker Env) → Sends v.log (next v) n)
        → Sends w.log
            (gate outside api_url result stream submitted_at original_message school_id next p w)
            n
    unfolding gate
    gate-Run n next (false, cb) w h k =
        Run-weaken w.log _ false _ 1 n h (store-Run (codes "API circuit breaker open") _)
    gate-Run n next (true, cb) w h k = k _

    rounds-Run :
        (k : ℕ) (w : Worker Env)
        → Sends w.log
            (rounds outside api_url result stream submitted_at original_message school_id k w)
            (k + 2)
    unfolding rounds wait
    rounds-Run zero w =
        gate-Run 2
          (λ v. last outside api_url result stream submitted_at original_message school_id (ask v))
          (allow_request w.api (outside.now w.env)) w (omega arith)
          (λ v. last-Run v.log (ask v) (send-Run api_url result v))
    rounds-Run (suc k) w = Run-weaken w.log _ false _ (1 + (k + 2)) (suc k + 2) (omega arith) (
        gate-Run (1 + (k + 2))
          (λ v.
            behind outside api_url result stream submitted_at original_message school_id (more k)
              (ask v))
          (allow_request w.api (outside.now w.env)) w (omega arith)
          (λ v.
            behind-Run v.log (k + 2) (more k) (ask v)
              (λ u. rounds-Run k (
                wait outside api_url result stream submitted_at original_message school_id (suc k)
                  u))
              (send-Run api_url result v)))

    plain_last-Run :
        (l : List Event) (x : Sent × Worker Env)
        → Run l x.1.log false (is_accepted x.0) 1
        → Sends l
            (plain_last outside api_url result stream submitted_at original_message school_id x)
            2
    unfolding plain_last is_accepted
    plain_last-Run l (accepted, w) r = Run-weaken l w.log false true 1 2 (omega arith) r
    plain_last-Run l (refused e, w) r = Run-trans l w.log _ false false _ 1 1 r (store-Run e w)

    plain_behind-Run :
        (l : List Event) (n : ℕ) (next : Next) (x : Sent × Worker Env)
        → ((v : Worker Env) → Sends v.log (next v) n)
        → Run l x.1.log false (is_accepted x.0) 1
        → Sends l
            (plain_behind outside api_url result stream submitted_at original_message school_id next
              x)
            (1 + n)
    unfolding plain_behind is_accepted
    plain_behind-Run l n next (accepted, w) k r =
        Run-weaken l w.log false true 1 (1 + n) (omega arith) r
    plain_behind-Run l n next (refused e, w) k r = Run-trans l w.log _ false false _ 1 n r (k w)

    plain_rounds-Run :
        (k : ℕ) (w : Worker Env)
        → Sends w.log
            (plain_rounds outside api_url result stream submitted_at original_message school_id k w)
            (k + 2)
    unfolding plain_rounds plain_wait
    plain_rounds-Run zero w = plain_last-Run w.log (ask w) (send-Run api_url result w)
    plain_rounds-Run (suc k) w =
        Run-weaken w.log _ false _ (1 + (k + 2)) (suc k + 2) (omega arith) (
          plain_behind-Run w.log (k + 2) (plain_more k) (ask w)
            (λ u. plain_rounds-Run k (
              plain_wait outside api_url result stream submitted_at original_message school_id
                (suc k) u))
            (send-Run api_url result w))

    pub send_result_with_retry_breaker-Run :
        (w : Worker Env)
        → Sends w.log
            (send_result_with_retry_breaker outside api_url result stream submitted_at
              original_message school_id w)
            4
    unfolding send_result_with_retry_breaker
    send_result_with_retry_breaker-Run w = rounds-Run 2 w

    pub send_result_with_retry-Run :
        (w : Worker Env)
        → Sends w.log
            (send_result_with_retry outside api_url result stream submitted_at original_message
              school_id w)
            4
    unfolding send_result_with_retry
    send_result_with_retry-Run w = plain_rounds-Run 2 w
