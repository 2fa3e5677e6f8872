-- ===== src/Judge/Processor/Execute.antt =====
-- `execute_program` of backend/judge-worker/src/processor/service.rs: one run of a program on an
-- input, with what the machine does as a parameter.
use codenexus.Prelude.{
  ℕ, ℤ, ◌==◌, ◌*◌, ◌/◌, ◌%◌, ◌^◌, Bool, false, ◌||◌, Option, none, some, List, [], ◌∷◌, ◌++◌, Text,
  codes, text_eq, leb, ltb, if◌then◌else◌,
}
use codenexus.Judge.Queue.{SubmissionMessage}

pub record TestCase : Type 0 where
  pub id : ℤ
  pub input : Text
  pub expected_output : Text
  pub is_hidden : Bool
  pub score : ℕ

-- What is known of a program that ran: its outputs as they can be read, the milliseconds that it
-- took, and the peak of its memory in bytes where the control group tells it.
pub record Report : Type 0 where
  pub stdout : Text
  pub stderr : Text
  pub elapsed_ms : ℕ
  pub memory_peak : Option ℕ

-- The process was not started or not put in its control group; it was still running at the limit;
-- waiting for it failed; it ended, with success or not.
pub data Waited : Type 0 where
  not_started wait_failed : Waited
  timed_out : Report → Waited
  exited : Bool → Report → Waited

-- The file system, the database, the compilers and the sandbox.
pub record Machine : Type 1 where
  pub World : Type 0
  -- `fs::write`, of a text to a path; `false` is an error
  pub write_file : Text → Text → World → Bool × World
  -- SELECT .. FROM test_cases WHERE problem_id ORDER BY order_index, id
  pub fetch_test_cases : ℤ → World → Option (List TestCase) × World
  -- A compiler in the sandbox, with 30 seconds and 512 MB; `false` if it is not started, does not
  -- end in time or fails
  pub run_compiler : List Text → World → Bool × World
  -- The files for the input and the outputs, the control group with a time and a memory limit, and
  -- the root directory of the program; `false` is an error in one of them.
  pub prepare : Text → ℕ → ℕ → World → Bool × World
  -- `spawn`, and a wait of so many milliseconds
  pub run : List Text → ℕ → World → Waited × World

pub record ExecutionOutput : Type 0 where
  pub status : Text
  pub stdout : Text
  pub stderr : Text
  pub runtime_ms : ℕ
  pub memory_kb : ℕ

abbrev pub max_time_limit_ms : ℕ
max_time_limit_ms = 30_000

-- `time_limit_ms.min(MAX_TIME_LIMIT_MS).max(1)`
unfoldable pub effective_time_limit : ℕ → ℕ
effective_time_limit limit =
    let capped = if leb limit max_time_limit_ms then limit else max_time_limit_ms in
    if leb 1 capped then capped else 1

-- The path `/work/<file name>` for a path.
after_slash : Text → Text → Text
after_slash acc [] = acc
after_slash acc (c ∷ s) = after_slash (if c == b'/' then [] else acc ++ c ∷ []) s

in_work : Text → Text
unfolding after_slash
in_work path = codes "/work/" ++ after_slash [] path

program : Option Text → Option (List Text)
unfolding in_work
program none = none
program (some path) = some (in_work path ∷ [])

unfoldable pub build_runtime_command : SubmissionMessage → Text → Option Text → Option (List Text)
unfolding in_work program
build_runtime_command submission source_file executable_path =
    if text_eq submission.language (codes "python3")
    then some (codes "python3" ∷ in_work source_file ∷ [])
    else if text_eq submission.language (codes "javascript")
    then some (codes "node" ∷ in_work source_file ∷ [])
    else if text_eq submission.language (codes "java")
    then some (codes "java" ∷ codes "-cp" ∷ codes "/work" ∷ codes "Main" ∷ [])
    else if text_eq submission.language (codes "c")
        || text_eq submission.language (codes "cpp")
        || text_eq submission.language (codes "rust")
        || text_eq submission.language (codes "go")
    then program executable_path
    else none

-- `(bytes / 1024) as i32`, and 0 where it is not known.
cgroup_memory_kb : Option ℕ → ℕ
cgroup_memory_kb none = 0
cgroup_memory_kb (some bytes) = (bytes / 1024) % 2 ^ 32

-- Is an `i32` above zero?
is_positive : ℕ → Bool
is_positive n = if leb 1 n then ltb n (2 ^ 31) else false

unfoldable pub measured_memory_kb : ℕ → Option ℕ → ℕ
unfolding cgroup_memory_kb is_positive
measured_memory_kb memory_limit_mb peak =
    if is_positive (cgroup_memory_kb peak)
    then cgroup_memory_kb peak
    else (memory_limit_mb * 1024) % 2 ^ 32

output : SubmissionMessage → Text → Report → ExecutionOutput
output submission status report = record {
  status = status;
  stdout = report.stdout;
  stderr = report.stderr;
  runtime_ms = report.elapsed_ms % 2 ^ 32;
  memory_kb = measured_memory_kb submission.memory_limit_mb report.memory_peak;
}

unfoldable pub waited : SubmissionMessage → Waited → Option ExecutionOutput
unfolding output
waited submission not_started = none
waited submission wait_failed = none
waited submission (timed_out report) = some (output submission (codes "time_limit_exceeded") report)
waited submission (exited success report) =
    some (output submission (if success then codes "accepted" else codes "runtime_error") report)

module _ (machine : Machine) where
  open machine use {World, prepare, run}

  started : SubmissionMessage → ℕ → Option (List Text) → World → Option ExecutionOutput × World
  unfolding waited
  started submission limit none w = (none, w)
  started submission limit (some command) w =
      let (result, w₁) = run command limit w in (waited submission result, w₁)

  unfoldable pub execute_program :
      SubmissionMessage → Text → Option Text → Text → World → Option ExecutionOutput × World
  unfolding started
  execute_program submission source_file executable_path input w =
      let limit = effective_time_limit submission.time_limit_ms in
      let bytes = (submission.memory_limit_mb * 1024 * 1024) % 2 ^ 64 in
      let (prepared, w₁) = prepare input limit bytes w in
      if prepared
      then started submission limit (build_runtime_command submission source_file executable_path)
          w₁
      else (none, w₁)
