-- ===== src/Judge/Queue/Recovery/Scan.antt =====
-- The pages of XPENDING in backend/judge-worker/src/queue/recovery.rs: the loop ends, and it finds every
-- message that is pending long enough.
use mathlib.Core.List.{append_assoc, append-nil}
use codenexus.Prelude.{
  ℕ, zero, suc, ◌+◌, ◌*◌, ◌≤◌, ◌<◌, ◌^◌, ◌≡◌, refl, sym, ap, ◌∙◌, ◌⊎◌, inl, inr, pos, Bool, true,
  false, Bool-cases, Option, none, some, List, [], ◌∷◌, ◌++◌, arith, Text, codes, leb, length,
  length-append, if◌then◌else◌,
}
use codenexus.Judge.Queue.{SubmissionMessage}
use codenexus.Judge.Queue.Recovery.{
  Value, int, bulk_string, array, Values, end, item, values_length, idle_of, seen, scan_entry,
  scan_entries, Recovered, found, Next, paged, read, scan, as_u64, increment_stream_id,
}
use codenexus.Judge.Queue.Recovery.Cursor.{entry_id, increment-entry_id}

-- A message that is pending: an entry whose identifier has a time and a sequence number.
pub record Pending : Type 0 where
  pub timestamp : Text
  pub seq : ℕ
  pub consumer : Text
  pub idle_ms : ℕ
  pub deliveries : ℕ
  pub small : suc seq < 2 ^ 64

abbrev pub id_of : Pending → Text
id_of p = entry_id p.timestamp p.seq

-- What XPENDING says of a message, and of a page of them.
abbrev pub row : Pending → Value
row p = array (
    item (bulk_string (id_of p)) (
      item (bulk_string p.consumer)
        (item (int (pos p.idle_ms)) (item (int (pos p.deliveries)) end))))

abbrev pub rows : List Pending → Values
rows [] = end
rows (p ∷ ps) = item (row p) (rows ps)

-- Those that are idle for long enough.
abbrev pub old : ℕ → List Pending → List Text
old min_idle_ms [] = []
old min_idle_ms (p ∷ ps) =
    let rest = old min_idle_ms ps in if leb min_idle_ms p.idle_ms then id_of p ∷ rest else rest

-- While nobody else uses the group and no time passes, XPENDING tells at most a page of the messages
-- from an identifier on, and from the next identifier on there are those behind.
pub record Snapshot (Env : Type 0) (xpending : Text → Env → Option Value × Env) : Type 0 where
  pub pending : Text → List Pending
  pub page : Text → List Pending
  pub rest : Text → List Pending
  pub parted : (start : Text) → pending start ≡ page start ++ rest start
  pub sized :
      (start : Text)
      → (length (page start) ≡ 100) ⊎ ((rest start ≡ []) × (length (page start) < 100))
  pub told : (start : Text) (e : Env) → (xpending start e).0 ≡ some (array (rows (page start)))
  pub behind :
      (start : Text) (before : List Pending) (p : Pending)
      → page start ≡ before ++ p ∷ []
      → pending (entry_id p.timestamp (suc p.seq)) ≡ rest start

old-append : (m : ℕ) (xs ys : List Pending) → old m (xs ++ ys) ≡ old m xs ++ old m ys
old-append m [] ys = refl
old-append m (x ∷ xs) ys = elim (Bool-cases (leb m x.idle_ms)) [
  | inl e ↦ rw (e, old-append m xs ys) refl
  | inr e ↦ rw (e, old-append m xs ys) refl
]

length-rows : (ps : List Pending) → values_length (rows ps) ≡ length ps
unfolding values_length
length-rows [] = refl
length-rows (p ∷ ps) = ap suc (length-rows ps)

-- The last of a page.
abbrev last_of : Option Text → List Pending → Option Text
last_of o [] = o
last_of o (p ∷ ps) = last_of (some (id_of p)) ps

kept-append :
    (ids : List Text) (id : Text) (rest : List Text) (b : Bool)
    → (if b then ids ++ id ∷ [] else ids) ++ rest ≡ ids ++ (if b then id ∷ rest else rest)
kept-append ids id rest true = append_assoc ids (id ∷ []) rest
kept-append ids id rest false = refl

scan-rows :
    (m : ℕ) (ps : List Pending) (ids : List Text) (last : Option Text)
    → scan_entries m (rows ps) (ids, last) ≡ (ids ++ old m ps, last_of last ps)
unfolding scan_entries scan_entry seen idle_of as_u64
scan-rows m [] ids last = rw (append-nil ids) refl
scan-rows m (p ∷ ps) ids last =
    scan-rows m ps (if leb m p.idle_ms then ids ++ id_of p ∷ [] else ids) (some (id_of p))
    ∙ ap (λ (t : List Text). (t, last_of (some (id_of p)) ps))
        (kept-append ids (id_of p) (old m ps) (leb m p.idle_ms))

-- A list that is not empty has a last member.
abbrev Last : List Pending → Type 0
Last ps =
    (before : List Pending) × (p : Pending) × (ps ≡ before ++ p ∷ [])
    × ((o : Option Text) → last_of o ps ≡ some (id_of p))

has-Last : (p : Pending) (ps : List Pending) → Last (p ∷ ps)
has-Last p [] = ([], p, refl, λ o. refl)
has-Last p (q ∷ qs) =
    let (before, r, e, k) = has-Last q qs in (p ∷ before, r, ap (p ∷◌) e, λ o. k (some (id_of p)))

module _ {Env : Type 0} (xpending : Text → Env → Option Value × Env)
    (xclaim : List Text → Env → Option Value × Env) (from_json : Text → Option SubmissionMessage)
    (min_idle_ms : ℕ) (snapshot : Snapshot Env xpending) where
  open snapshot use {pending, page, rest, parted, sized, told, behind}

  abbrev Finds : Recovered (List Text) × Env → List Text → Type 0
  Finds x ids = x.0 ≡ found ids

  abbrev step :
      Next Env xpending xclaim from_json min_idle_ms
      → List Text
      → Option Value × Env
      → Recovered (List Text) × Env
  step next ids x = read Env xpending xclaim from_json min_idle_ms next ids x

  paged-Finds :
      (next : Next Env xpending xclaim from_json min_idle_ms) (n : ℕ) (ids all : List Text)
      (id : Text) (e : Env)
      → (n ≡ 100 → Finds (next (increment_stream_id id) ids e) all)
      → (n < 100 → ids ≡ all)
      → n ≤ 100
      → Finds (paged Env xpending xclaim from_json min_idle_ms next n (ids, some id) e) all
  unfolding paged
  paged-Finds next n ids all id e full short small = ground (arith, full, short)

  read-Finds :
      (next : Next Env xpending xclaim from_json min_idle_ms) (ids all : List Text)
      (ps : List Pending) (x : Option Value × Env)
      → x.0 ≡ some (array (rows ps))
      → ((before : List Pending) (p : Pending)
          → ps ≡ before ++ p ∷ []
          → length ps ≡ 100
          → Finds (next (entry_id p.timestamp (suc p.seq)) (ids ++ old min_idle_ms ps) x.1) all)
      → (length ps < 100 → ids ++ old min_idle_ms ps ≡ all)
      → length ps ≤ 100
      → Finds (step next ids x) all
  unfolding read
  read-Finds next ids all [] (o, e) h full short small =
      rw h (ap found (sym (append-nil ids) ∙ short (omega arith)))
  read-Finds next ids all (q ∷ qs) (o, e) h full short small =
      let (before, p, same, last) = has-Last q qs in
      rw (h, length-rows qs, scan-rows min_idle_ms (q ∷ qs) ids none, last none)
        (paged-Finds next (length (q ∷ qs)) (ids ++ old min_idle_ms (q ∷ qs)) all (id_of p) e
          (λ n. rw (increment-entry_id p.timestamp p.seq p.small) (full before p same n)) short
          small)

  length-pending :
      (start : Text) → length (pending start) ≡ length (page start) + length (rest start)
  length-pending start = ap length (parted start) ∙ length-append (page start) (rest start)

  length-page : (start : Text) → length (page start) ≤ 100
  length-page start = elim (sized start) [
    | inl full ↦ omega (arith, full)
    | inr less ↦ omega (arith, less.1)
  ]

  parted-old :
      (start : Text) (ids : List Text)
      → ids ++ old min_idle_ms (pending start)
        ≡ (ids ++ old min_idle_ms (page start)) ++ old min_idle_ms (rest start)
  parted-old start ids =
      ap (λ t. ids ++ old min_idle_ms t) (parted start)
      ∙ ap (ids ++◌) (old-append min_idle_ms (page start) (rest start))
      ∙ sym (append_assoc ids (old min_idle_ms (page start)) (old min_idle_ms (rest start)))

  last_page :
      (start : Text) (ids : List Text)
      → length (page start) < 100
      → ids ++ old min_idle_ms (page start) ≡ ids ++ old min_idle_ms (pending start)
  last_page start ids h = elim (sized start) [
    | inl full ↦ absurd (omega (arith, full))
    | inr (none_behind, less) ↦
        ap (λ t. ids ++ old min_idle_ms t)
          (sym (parted start ∙ ap (page start ++◌) none_behind ∙ append-nil (page start)))
  ]

  scan-Finds :
      (fuel : ℕ) (start : Text) (ids : List Text) (e : Env)
      → length (pending start) < 100 * fuel
      → Finds
          (scan Env xpending xclaim from_json min_idle_ms fuel start ids e)
          (ids ++ old min_idle_ms (pending start))
  unfolding scan
  scan-Finds zero start ids e h = absurd (omega arith)
  scan-Finds (suc n) start ids e h =
      read-Finds (scan Env xpending xclaim from_json min_idle_ms n) ids _ (page start)
        (xpending start e) (told start e)
        (λ before p same full.
          let next = behind start before p same in
          scan-Finds n (entry_id p.timestamp (suc p.seq)) (ids ++ old min_idle_ms (page start)) _
            (omega (arith, length-pending start, ap length next))
          ∙ ap
              (λ (t : List Pending).
                found ((ids ++ old min_idle_ms (page start)) ++ old min_idle_ms t))
              next
          ∙ ap found (sym (parted-old start ids)))
        (λ less. last_page start ids less) (length-page start)

  -- On a still group, of which XPENDING tells at most 100 messages at a time from an identifier
  -- on, the scan ends within one page for each 100 pending messages and one more, and it finds
  -- exactly those that are idle for at least min_idle_ms, in their order.
  pub scan_complete :
      (fuel : ℕ) (e : Env)
      → length (pending (codes "-")) < 100 * fuel
      → (scan Env xpending xclaim from_json min_idle_ms fuel (codes "-") [] e).0
        ≡ found (old min_idle_ms (pending (codes "-")))
  scan_complete fuel e h = scan-Finds fuel (codes "-") [] e h
