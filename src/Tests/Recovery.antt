-- ===== src/Tests/Recovery.antt =====
-- The recovery of pending messages on concrete inputs: two messages are pending, one for long enough.
use mathlib.Core.List.{append-nil}
use codenexus.Prelude.{
  ℕ, suc, ◌<◌, ◌≡◌, ◌≢◌, inr, refl, sym, ap, Bool, true, false, Option, none, some, List, [], ◌∷◌,
  arith, Text, codes, decimal, decimal-full, length, parse_u64,
}
use codenexus.Judge.Queue.{SubmissionMessage}
use codenexus.Judge.Queue.Recovery.{Value, array, found, increment_stream_id, scan, nil}
use codenexus.Judge.Queue.Recovery.Cursor.{entry_id}
use codenexus.Judge.Queue.Recovery.Scan.{Pending, Snapshot, rows, scan_complete}

sequence_counts_up : increment_stream_id (codes "1700000000000-9") ≡ codes "1700000000000-10"
unfolding increment_stream_id parse_u64 decimal
sequence_counts_up = refl

bare_time : increment_stream_id (codes "1700000000000") ≡ codes "1700000000000-1"
unfolding increment_stream_id
bare_time = refl

abbrev young : Pending
young = record {
  timestamp = codes "1700000000001";
  seq = 0;
  consumer = codes "a";
  idle_ms = 10;
  deliveries = 1;
  small = omega arith;
}

abbrev stale : Pending
stale = record {
  timestamp = codes "1700000000000";
  seq = 3;
  consumer = codes "a";
  idle_ms = 60_000;
  deliveries = 1;
  small = omega arith;
}

abbrev is_short : Text → Bool
is_short [] = false
is_short (c ∷ []) = true
is_short (c ∷ d ∷ s) = false

abbrev listed : Bool → List Pending
listed true = stale ∷ young ∷ []
listed false = []

short-dash : (t : Text) → t ≢ [] → is_short (b'-' ∷ t) ≡ false
short-dash [] h = absurd (h refl)
short-dash (c ∷ t) h = refl

short-entry : (t : Text) (n : ℕ) → is_short (entry_id t n) ≡ false
short-entry [] n = short-dash (decimal n) (decimal-full n)
short-entry (c ∷ []) n = refl
short-entry (c ∷ d ∷ t) n = refl

listed-length : (b : Bool) → length (listed b) < 100
listed-length true = omega arith
listed-length false = omega arith

abbrev answer_page : Text → ℕ → Option Value × ℕ
answer_page start e = (some (array (rows (listed (is_short start)))), e)

still : Snapshot ℕ answer_page
still = record {
  pending = λ start. listed (is_short start);
  page = λ start. listed (is_short start);
  rest = λ start. [];
  parted = λ start. sym (append-nil (listed (is_short start)));
  sized = λ start. inr (refl, listed-length (is_short start));
  told = λ start e. refl;
  behind = λ start before p same. ap listed (short-entry p.timestamp (suc p.seq));
}

abbrev claim_none : List Text → ℕ → Option Value × ℕ
claim_none ids e = (some nil, e)

abbrev undecoded : Text → Option SubmissionMessage
undecoded json = none

scan_complete_example :
    (scan ℕ answer_page claim_none undecoded 30_000 1 (codes "-") [] 0).0
    ≡ found (codes "1700000000000-3" ∷ [])
unfolding decimal still
scan_complete_example =
    scan_complete answer_page claim_none undecoded 30_000 still 1 0 (omega arith)
