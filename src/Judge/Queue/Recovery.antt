-- ===== src/Judge/Queue/Recovery.antt =====
-- backend/judge-worker/src/queue/recovery.rs: finding and claiming the messages that a crashed worker
-- left pending. An idle time and a sequence number are `u64`.
pub mod Cursor
pub mod Scan
use codenexus.Prelude.{
  ℕ, zero, suc, ◌+◌, ◌-◌, ◌%◌, ◌^◌, ◌==◌, ℤ, pos, negsuc, Bool, true, false, Option, none, some,
  List, [], ◌∷◌, ◌++◌, Text, codes, text_eq, leb, length, is_empty, decimal, parse_i64, parse_u64,
  if◌then◌else◌,
}
use codenexus.Judge.Queue.{SubmissionMessage}

-- `redis::Value`, as far as the module tells its cases apart; a bulk string is its text.
mutual
  pub data Value : Type 0 where
    nil other : Value
    int : ℤ → Value
    bulk_string : Text → Value
    array : Values → Value

  -- The values of an array, in their order.
  pub data Values : Type 0 where
    end : Values
    item : Value → Values → Values

unfoldable pub values_length : Values → ℕ
values_length end = 0
values_length (item v vs) = suc (values_length vs)

-- What stands before and behind the last place of a code point.
rsplit : ℕ → Text → Option (Text × Text)
rsplit c [] = none
rsplit c (x ∷ s) = elim (rsplit c s) [
  | some p ↦ some (x ∷ p.0, p.1)
  | none ↦ if x == c then some ([], s) else none
]

-- `parse().unwrap_or(0)`
or_zero : Option ℕ → ℕ
or_zero none = 0
or_zero (some n) = n

incremented : Text → Option (Text × Text) → Text
unfolding or_zero
incremented id none = id ++ codes "-1"
incremented id (some (timestamp, seq)) =
    timestamp ++ (b'-' ∷ decimal ((or_zero (parse_u64 seq) + 1) % 2 ^ 64))

unfoldable pub increment_stream_id : Text → Text
unfolding incremented rsplit
increment_stream_id id = incremented id (rsplit b'-' id)

-- `as u64`
as_u64 : ℤ → ℕ
as_u64 (pos n) = n
as_u64 (negsuc n) = 2 ^ 64 - (n + 1)

idle_of : Value → Option ℕ
unfolding as_u64 or_zero
idle_of (int n) = some (as_u64 n)
idle_of (bulk_string t) = some (or_zero (parse_u64 t))
idle_of _ = none

-- The identifiers to claim, and the last one that was seen.
abbrev pub Seen : Type 0
Seen = List Text × Option Text

seen : ℕ → Text → Option ℕ → Seen → Seen
seen min_idle_ms id none found = found
seen min_idle_ms id (some idle_ms) (ids, last) =
    (if leb min_idle_ms idle_ms then ids ++ id ∷ [] else ids, some id)

-- The body of the loop over the entries of a page.
scan_entry : ℕ → Value → Seen → Seen
unfolding idle_of seen
scan_entry min_idle_ms (array (item (bulk_string id) (item v (item idle rest)))) found =
    seen min_idle_ms id (idle_of idle) found
scan_entry min_idle_ms _ found = found

unfoldable pub scan_entries : ℕ → Values → Seen → Seen
unfolding scan_entry
scan_entries min_idle_ms end found = found
scan_entries min_idle_ms (item e es) found =
    scan_entries min_idle_ms es (scan_entry min_idle_ms e found)

abbrev pub batch_size : ℕ
batch_size = 100

-- The loop did not end within its fuel, a command failed, or the result.
pub data Recovered (A : Type 0) : Type 0 where
  unfinished failed : Recovered A
  found : A → Recovered A

-- The last value of a field among the pairs, as far as both its parts are strings.
field_of : Text → Values → Option Text → Option Text
field_of key (item (bulk_string k) (item (bulk_string v) rest)) last =
    field_of key rest (if text_eq k key then some v else last)
field_of key (item k (item v rest)) last = field_of key rest last
field_of key _ last = last

unfoldable pub school_of : Option Text → Option ℤ
school_of none = none
school_of (some t) = parse_i64 t

module _ (Env : Type 0) (xpending : Text → Env → Option Value × Env)
    (xclaim : List Text → Env → Option Value × Env) (from_json : Text → Option SubmissionMessage)
    (min_idle_ms : ℕ) where
  abbrev pub Next : Type 0
  Next = Text → List Text → Env → Recovered (List Text) × Env

  -- Behind a page of so many entries: the next one, or the end.
  paged : Next → ℕ → Seen → Env → Recovered (List Text) × Env
  paged next n (ids, none) e = (found ids, e)
  paged next n (ids, some id) e = elim (n == batch_size) [
    | true ↦ next (increment_stream_id id) ids e
    | false ↦ (found ids, e)
  ]

  read : Next → List Text → Option Value × Env → Recovered (List Text) × Env
  unfolding paged scan_entries values_length
  read next ids (none, e) = (failed, e)
  read next ids (some (array end), e) = (found ids, e)
  read next ids (some (array (item v vs)), e) =
      paged next (values_length (item v vs)) (scan_entries min_idle_ms (item v vs) (ids, none)) e
  read next ids (some _, e) = (found ids, e)

  -- The loop over the pages, on fuel.
  unfoldable pub scan : ℕ → Next
  unfolding read
  scan zero start ids e = (unfinished, e)
  scan (suc n) start ids e = read (scan n) ids (xpending start e)

  message : Text → Values → Option Text → List (Text × SubmissionMessage × Option ℤ)
  message id fields none = []
  message id fields (some json) = elim (from_json json) [
    | none ↦ []
    | some msg ↦ (id, msg, school_of (field_of (codes "school_id") fields none)) ∷ []
  ]

  -- The body of the loop over the claimed entries.
  claimed_entry : Value → List (Text × SubmissionMessage × Option ℤ)
  unfolding message field_of
  claimed_entry (array (item (bulk_string id) (item (array fields) rest))) =
      message id fields (field_of (codes "data") fields none)
  claimed_entry _ = []

  claimed_entries : Values → List (Text × SubmissionMessage × Option ℤ)
  unfolding claimed_entry
  claimed_entries end = []
  claimed_entries (item v vs) = claimed_entry v ++ claimed_entries vs

  claimed : Option Value × Env → Recovered (List (Text × SubmissionMessage × Option ℤ)) × Env
  unfolding claimed_entries
  claimed (none, e) = (failed, e)
  claimed (some (array vs), e) = (found (claimed_entries vs), e)
  claimed (some _, e) = (found [], e)

  claim : Recovered (List Text) × Env → Recovered (List (Text × SubmissionMessage × Option ℤ)) × Env
  unfolding claimed
  claim (unfinished, e) = (unfinished, e)
  claim (failed, e) = (failed, e)
  claim (found [], e) = (found [], e)
  claim (found (id ∷ ids), e) = claimed (xclaim (id ∷ ids) e)

  unfoldable pub recover_pending_submissions :
      ℕ → Env → Recovered (List (Text × SubmissionMessage × Option ℤ)) × Env
  unfolding claim scan
  recover_pending_submissions fuel e = claim (scan fuel (codes "-") [] e)
