-- ===== src/Judge/Queue/Recovery/Cursor.antt =====
-- `increment_stream_id` of backend/judge-worker/src/queue/recovery.rs on identifiers of entries.
use codenexus.Prelude.{
  ℕ, suc, ◌+◌, ◌%◌, ◌^◌, ◌<◌, ◌≡◌, refl, none, some, [], ◌∷◌, ◌++◌, arith, Text, All, decimal,
  decimal-digits, IsDigit, parse_u64-decimal,
}
use codenexus.Judge.Queue.Recovery.{rsplit, or_zero, incremented, increment_stream_id}

rsplit-none : (t : Text) → All IsDigit t → rsplit b'-' t ≡ none
unfolding rsplit
rsplit-none [] d = refl
rsplit-none (c ∷ t) d = ground (arith, rsplit-none t d.1)

rsplit-last : (a t : Text) → All IsDigit t → rsplit b'-' (a ++ (b'-' ∷ t)) ≡ some (a, t)
unfolding rsplit
rsplit-last [] t d = rw (rsplit-none t d) refl
rsplit-last (c ∷ a) t d = rw (rsplit-last a t d) refl

-- The identifier with the next sequence number.
abbrev pub entry_id : Text → ℕ → Text
entry_id timestamp seq = timestamp ++ (b'-' ∷ decimal seq)

pub increment-entry_id :
    (timestamp : Text) (seq : ℕ)
    → suc seq < 2 ^ 64
    → increment_stream_id (entry_id timestamp seq) ≡ entry_id timestamp (suc seq)
unfolding increment_stream_id incremented or_zero
increment-entry_id timestamp seq small =
    let same : (seq + 1) % 2 ^ 64 ≡ suc seq = omega arith in
    rw
      (
        rsplit-last timestamp (decimal seq) (decimal-digits seq),
        parse_u64-decimal seq (omega arith),
        same,
      )
      refl
