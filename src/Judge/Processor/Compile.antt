-- ===== src/Judge/Processor/Compile.antt =====
-- `save_source_code` and `compile_code` of backend/judge-worker/src/processor/service.rs, up to the
-- file system and the compilers.
use codenexus.Prelude.{
  Bool, true, false, Option, none, some, List, [], ◌∷◌, ◌++◌, Text, codes, text_eq, if◌then◌else◌,
}
use codenexus.Judge.Queue.{SubmissionMessage}
use codenexus.Judge.Processor.Execute.{Machine}

source_name : Text → Text
source_name language =
    if text_eq language (codes "python3")
    then codes "solution.py"
    else if text_eq language (codes "javascript")
    then codes "solution.js"
    else if text_eq language (codes "c")
    then codes "solution.c"
    else if text_eq language (codes "cpp")
    then codes "solution.cpp"
    else if text_eq language (codes "java")
    then codes "Main.java"
    else if text_eq language (codes "rust")
    then codes "solution.rs"
    else if text_eq language (codes "go")
    then codes "main.go"
    else codes "solution.txt"

-- `work_dir.join(name)`
in_dir : Text → Text → Text
in_dir work_dir name = work_dir ++ (codes "/" ++ name)

output_path : Text → Text → Text
unfolding in_dir
output_path work_dir language =
    if text_eq language (codes "java")
    then in_dir work_dir (codes "Main.class")
    else in_dir work_dir (codes "solution_bin")

compiler : Text → Text → Text → Option (List Text)
compiler language source_file output =
    if text_eq language (codes "c")
    then some (codes "gcc" ∷ source_file ∷ codes "-O2" ∷ codes "-o" ∷ output ∷ [])
    else if text_eq language (codes "cpp")
    then some
        (codes "g++" ∷ source_file ∷ codes "-O2" ∷ codes "-std=c++17" ∷ codes "-o" ∷ output ∷ [])
    else if text_eq language (codes "rust")
    then some (codes "rustc" ∷ source_file ∷ codes "-O" ∷ codes "-o" ∷ output ∷ [])
    else if text_eq language (codes "go")
    then some (codes "go" ∷ codes "build" ∷ codes "-o" ∷ output ∷ source_file ∷ [])
    else if text_eq language (codes "java")
    then some (codes "javac" ∷ source_file ∷ [])
    else none

module _ (machine : Machine) where
  open machine use {World, write_file, run_compiler}

  saved : Text → Bool × World → Option Text × World
  saved path (true, w) = (some path, w)
  saved path (false, w) = (none, w)

  unfoldable pub save_source_code : Text → SubmissionMessage → World → Option Text × World
  unfolding saved in_dir source_name
  save_source_code work_dir submission w =
      let path : Text = in_dir work_dir (source_name submission.language) in
      saved path (write_file path submission.source_code w)

  compile_with : Text → Option (List Text) → World → Option Text × World
  unfolding saved
  compile_with output none w = (none, w)
  compile_with output (some command) w = saved output (run_compiler command w)

  unfoldable pub compile_code : Text → Text → Text → World → Option Text × World
  unfolding compile_with output_path compiler
  compile_code work_dir source_file language w =
      let output : Text = output_path work_dir language in
      compile_with output (compiler language source_file output) w
