-- ===== src/Tests/Worker.antt =====
-- The judge worker on concrete inputs, against an API that answers by a script.
use codenexus.Prelude.{
  ℕ, ◌+◌, ◌*◌, pos, ◌≡◌, refl, inl, Bool, true, false, none, some, List, [], ◌∷◌, arith, codes,
}
use codenexus.Judge.Queue.{JudgeResult}
use codenexus.Judge.CircuitBreaker.{new, allow_request, record_success, record_failure}
use codenexus.Judge.CircuitBreaker.Resting.{Resting}
use codenexus.Judge.Worker.{Outside, Reply, unreachable, replied, Worker, posted, acked}
use codenexus.Judge.Worker.Send.{
  backoff_ms, send_result_to_api, rounds, send_result_with_retry_breaker,
}
use codenexus.Judge.Worker.Send.Probes.{send_result_with_retry_breaker-Resting}
use codenexus.Judge.Worker.Acknowledge.{
  acknowledge_submission, attempts, acknowledge_with_retry_breaker,
}
use codenexus.Judge.Worker.Acknowledge.Probes.{acknowledge_with_retry_breaker-Resting}
use codenexus.Judge.Worker.Task.{compute_wait_ms, new_avg, handle_message, recovered}
use codenexus.Judge.Worker.Task.Settled.{handle_message-Run, recovered-Run}
use codenexus.Judge.Worker.Loop.{consume}
use codenexus.Judge.Worker.Loop.Probes.{consume-Resting}
use codenexus.Judge.Worker.Requests.{Run}
use codenexus.Tests.Queue.{streams, start, contest, normal, sample, from_contest}

-- The answers of the API that are still to come, and the time in nanoseconds.
abbrev World : Type 0
World = List Reply × ℕ

abbrev reply_of : World → Reply × World
reply_of ([], t) = (unreachable (codes "refused"), ([], t + 1))
reply_of (r ∷ rs, t) = (r, (rs, t + 1))

abbrev full_score : JudgeResult
full_score = record {
  submission_id = pos 42;
  status = codes "accepted";
  score = some 100;
  runtime_ms = none;
  memory_kb = none;
  test_case_results = [];
}

abbrev world : Outside
world = record {
  Env = World;
  worker_secret = λ e. some (codes "s");
  post = λ url secret result e. reply_of e;
  xadd = λ stream fields e. (true, e);
  xack = λ stream group id e. (some 1, e);
  now = λ e. e.1;
  rfc3339 = λ n. codes "now";
  parse_rfc3339 = λ t. some 0;
  sleep = λ ms e. (e.0, e.1 + ms * 1_000_000);
  result_json = λ r. some (codes "{}");
  message_json = λ m. some (codes "{}");
  process_submission = λ m e. (some full_score, e);
}

abbrev worker : List Reply → Worker World
worker replies = record {
  env = (replies, 3_000_000);
  log = [];
  api = new 5 30;
  redis = new 5 30;
  total_processed = 0;
  avg_wait_ms = 0;
}

abbrev down : List Reply
down = replied 503 [] ∷ replied 503 [] ∷ replied 503 [] ∷ []

second_time_accepted :
    (handle_message world
      (codes "http://api")
      (codes "judges")
      from_contest
      (worker (replied 503 [] ∷ replied 200 [] ∷ []))).log
    ≡ posted full_score false ∷ posted full_score true ∷ acked contest (codes "1-0") true ∷ []
unfolding handle_message send_result_with_retry_breaker rounds send_result_to_api backoff_ms
    acknowledge_with_retry_breaker attempts acknowledge_submission allow_request record_success
    record_failure new new_avg compute_wait_ms
second_time_accepted = refl

new_rests : Resting (new 5 30)
unfolding new
new_rests = (refl, inl refl)

handle_message-Run_example :
    (seen : Bool) × Run []
      (handle_message world (codes "http://api") (codes "judges") from_contest (worker down)).log
      false
      seen
      7
handle_message-Run_example =
    handle_message-Run world (codes "http://api") (codes "judges") from_contest (worker down)

recovered-Run_example :
    (seen : Bool) × Run []
      (recovered world
        (codes "http://api")
        (codes "judges")
        contest
        (codes "1-0", sample, none)
        (some full_score, (down, 5))
        (worker down)).log
      false
      seen
      7
recovered-Run_example =
    recovered-Run world (codes "http://api") (codes "judges") contest (codes "1-0") sample none
      (some full_score, (down, 5)) (worker down)

send_result_with_retry_breaker-Resting_example :
    Resting
      (send_result_with_retry_breaker world
        (codes "http://api")
        full_score
        contest
        none
        []
        none
        (worker down)).1.api
unfolding new
send_result_with_retry_breaker-Resting_example =
    send_result_with_retry_breaker-Resting world (codes "http://api") full_score contest none []
      none (worker down) new_rests (omega arith)

acknowledge_with_retry_breaker-Resting_example :
    Resting
      (acknowledge_with_retry_breaker world contest
        (codes "judges")
        (codes "1-0")
        (worker [])).1.redis
unfolding new
acknowledge_with_retry_breaker-Resting_example =
    acknowledge_with_retry_breaker-Resting world contest (codes "judges") (codes "1-0") (worker [])
      new_rests (omega arith)

consume-Resting_example :
    Resting
      (consume world streams
        (codes "http://api")
        contest
        normal
        (codes "judges")
        none
        (worker [])
        start).1.redis
unfolding new
consume-Resting_example =
    consume-Resting world streams (codes "http://api") contest normal (codes "judges") none
      (worker []) start new_rests (omega arith)
