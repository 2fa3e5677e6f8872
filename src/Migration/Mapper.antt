-- ===== src/Migration/Mapper.antt =====
-- backend/migration-tool/src/mapper.rs: the values of migrated rows. The Unicode tables behind
-- `to_lowercase` and `is_alphanumeric` and the JSON decoder are parameters.
pub mod Slugs
pub mod Fits
use codenexus.Prelude.{
  ℕ, suc, ◌+◌, ◌-◌, ◌*◌, ◌%◌, ◌^◌, ◌==◌, ℤ, pos, negsuc, Bool, true, false, ◌||◌, Option, none,
  some, [], ◌∷◌, ◌++◌, Text, codes, text_eq, is_empty, display_int, if◌then◌else◌,
}

unfoldable pub map_usergroup_to_role : Text → Option Text
map_usergroup_to_role usergroup =
    if text_eq usergroup (codes "U") || text_eq usergroup (codes "S")
    then some (codes "student")
    else none

unfoldable pub map_language : Text → Option Text
map_language lang =
    if text_eq lang (codes "C")
    then some (codes "c")
    else if text_eq lang (codes "C++")
        || (text_eq lang (codes "C++11")
            || (text_eq lang (codes "C++17") || text_eq lang (codes "C++20")))
    then some (codes "cpp")
    else if text_eq lang (codes "Python3")
    then some (codes "python3")
    else none

unfoldable pub map_status_verdict : Option Text → Text × Option Text
map_status_verdict none = (codes "queued", none)
map_status_verdict (some result) =
    if text_eq result (codes "Accepted")
    then (codes "judged", some (codes "ac"))
    else if text_eq result (codes "Wrong Answer")
    then (codes "judged", some (codes "wa"))
    else if text_eq result (codes "Runtime Error")
    then (codes "judged", some (codes "rte"))
    else if text_eq result (codes "Time Limit Exceeded")
    then (codes "judged", some (codes "tle"))
    else if text_eq result (codes "Memory Limit Exceeded")
    then (codes "judged", some (codes "mle"))
    else if text_eq result (codes "Output Limit Exceeded")
    then (codes "judged", some (codes "ole"))
    else if text_eq result (codes "Compile Error")
    then (codes "failed", some (codes "ce"))
    else if text_eq result (codes "System Error")
    then (codes "failed", some (codes "ie"))
    else (codes "queued", none)

-- The trailing hyphen is taken away.
strip_hyphen : Text → Text
strip_hyphen [] = []
strip_hyphen (c ∷ []) = if c == b'-' then [] else c ∷ []
strip_hyphen (c ∷ d ∷ s) = c ∷ strip_hyphen (d ∷ s)

module _ (to_lowercase : Text → Text) (is_alphanumeric : ℕ → Bool) where
  -- The loop over the characters, with `prev_hyphen`.
  slug_chars : Bool → Text → Text
  slug_chars prev_hyphen [] = []
  slug_chars prev_hyphen (ch ∷ s) =
      let kept = slug_chars false s in
      let dropped = slug_chars true s in
      if is_alphanumeric ch then ch ∷ kept else if prev_hyphen then dropped else b'-' ∷ dropped

  unfoldable pub generate_slug : Text → ℤ → Text
  unfolding slug_chars strip_hyphen
  generate_slug title id =
      strip_hyphen (slug_chars true (to_lowercase title)) ++ b'-' ∷ display_int id

unfoldable pub generate_synthetic_email : Text → Text
generate_synthetic_email username = username ++ codes "@migrated.uoj.local"

-- `as i32`, as 32 bits.
as_i32 : ℤ → ℕ
as_i32 (pos n) = n % 2 ^ 32
as_i32 (negsuc n) = 2 ^ 32 - 1 - n % 2 ^ 32

-- `v * 1024`, whose low 32 bits do not depend on an overflow of 64 bits.
kilobytes : ℤ → ℤ
kilobytes (pos n) = pos (n * 1024)
kilobytes (negsuc n) = negsuc (suc n * 1024 - 1)

limit_or : ℕ → Option ℤ → ℕ
unfolding as_i32
limit_or default none = default
limit_or default (some v) = as_i32 v

memory_of : Option ℤ → Option ℤ
unfolding kilobytes
memory_of none = none
memory_of (some v) = some (kilobytes v)

-- `object` reads a text as a JSON object, and gives the integers under its names.
with_object : Option (Text → Option ℤ) → ℕ × ℕ
unfolding limit_or memory_of
with_object none = (1000, 256_000)
with_object (some fields) = (
  limit_or 1000 (fields (codes "time_limit")),
  limit_or 256_000 (memory_of (fields (codes "memory_limit"))),
)

unfoldable pub parse_extra_config : (Text → Option (Text → Option ℤ)) → Option Text → ℕ × ℕ
unfolding with_object
parse_extra_config object none = (1000, 256_000)
parse_extra_config object (some json_str) =
    if is_empty json_str
    then (1000, 256_000)
    else if text_eq json_str (codes "NULL")
    then (1000, 256_000)
    else with_object (object json_str)

unfoldable pub map_visibility : Bool → Text
map_visibility is_hidden = if is_hidden then codes "private" else codes "public"
