-- ===== src/Judge/Processor/Output.antt =====
-- `normalize_output` of backend/judge-worker/src/processor/service.rs, with the functions of `str`
-- that it calls.
use codenexus.Prelude.{
  ℕ, ◌==◌, Bool, List, [], ◌∷◌, ◌++◌, map, Text, is_whitespace, is_empty, trim_start_matches,
  if◌then◌else◌,
}

-- `trim_end`: a code point stays if it is no white space or something behind it stays.
unfoldable pub trim_end : Text → Text
trim_end [] = []
trim_end (c ∷ s) =
    let rest = trim_end s in
    if is_empty rest then if is_whitespace c then [] else c ∷ [] else c ∷ rest

unfoldable pub trim : Text → Text
trim s = trim_end (trim_start_matches is_whitespace s)

unfoldable pub is_blank : Text → Bool
is_blank s = is_empty (trim s)

-- `lines`: cut behind each newline; a newline at the end begins no line. The carriage return that a
-- line may end with is white space, which `trim_end` takes away.
put : ℕ → List Text → List Text
put c [] = (c ∷ []) ∷ []
put c (l ∷ ls) = (c ∷ l) ∷ ls

lines : Text → List Text
unfolding put
lines [] = []
lines (c ∷ s) = let rest = lines s in if c == 10 then [] ∷ rest else put c rest

-- `join("\n")`
join : List Text → Text
join [] = []
join (l ∷ []) = l
join (l ∷ m ∷ ls) = l ++ 10 ∷ join (m ∷ ls)

unfoldable pub normalize_output : Text → Text
unfolding lines join
normalize_output output = trim (join (map trim_end (lines output)))
