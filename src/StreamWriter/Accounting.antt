-- ===== src/StreamWriter/Accounting.antt =====
-- What the StreamWriter counts, against the calls that reached the underlying writer.
use go_httpserver.Base.{ℕ, ◌+◌, ◌%◌, ◌^◌, ◌≡◌, true, Option, List, [], ◌∷◌, arith, if◌then◌else◌}
use go_httpserver.Base.Int.{ℤ, pos, leb_ℤ, is_zero_ℤ}
use go_httpserver.Effect.{Error, Outcome, returned, panicked, Keeps}
use go_httpserver.State.{Header, Stream, Call, header_sent, body_sent, State, Platform}
use go_httpserver.StreamWriter.{
  change_header, write_header, write, flush, hijack, set_read_deadline, set_write_deadline,
  enable_full_duplex, run,
}
use go_httpserver.StreamWriter.Stable.{IsStable, run-Keeps}

-- The status that a single call commits, 0 if it commits none.
abbrev pub committed_by : Call → ℤ
committed_by (header_sent code _) = if leb_ℤ (pos 200) code then code else pos 0
committed_by (body_sent _) = pos 200
committed_by _ = pos 0

-- The first final status among calls, the latest of them first; 0 if there is none.
abbrev pub first_final : List Call → ℤ
first_final [] = pos 0
first_final (c ∷ earlier) =
    let before = first_final earlier in if is_zero_ℤ before then committed_by c else before

abbrev pub accepted : Outcome (ℕ × Option Error) → ℕ
accepted (returned (n, _)) = n
accepted (panicked _) = 0

-- The bytes that the underlying writer said it took, over all calls.
abbrev pub total_accepted : Platform → List Call → ℕ
total_accepted p [] = 0
total_accepted p (body_sent data_ ∷ earlier) =
    total_accepted p earlier + accepted (p.write earlier data_)
total_accepted p (_ ∷ earlier) = total_accepted p earlier

-- While it is attached, the StreamWriter's status is the first final status that was sent, with 200
-- for a body with none before, and its byte count the accepted bytes, modulo the word size.
abbrev pub IsAccounted : Platform → State → Type 0
IsAccounted p s =
    s.stream.attached ≡ true
    → (s.stream.status ≡ first_final s.calls)
      × (s.stream.bytes_written ≡ total_accepted p s.calls % 2 ^ 64)

module _ (p : Platform) where
  write_header-IsAccounted : (code : ℤ) → Keeps (IsAccounted p) (write_header p code)
  unfolding write_header
  write_header-IsAccounted code s h = λ a. ground (arith, h)

  write-IsAccounted : (body : List ℕ) → Keeps (IsAccounted p) (write p body)
  unfolding write
  write-IsAccounted body s h = λ a. ground (arith, h)

  pub hijack-IsAccounted : Keeps (IsAccounted p) (hijack p)
  unfolding hijack
  hijack-IsAccounted s h = λ a. ground (arith, h)

  flush-IsAccounted : Keeps (IsAccounted p) (flush p)
  unfolding flush
  flush-IsAccounted s h = λ a. ground (arith, h)

  set_read_deadline-IsAccounted : (t : ℕ) → Keeps (IsAccounted p) (set_read_deadline p t)
  unfolding set_read_deadline
  set_read_deadline-IsAccounted t s h = λ a. ground (arith, h)

  set_write_deadline-IsAccounted : (t : ℕ) → Keeps (IsAccounted p) (set_write_deadline p t)
  unfolding set_write_deadline
  set_write_deadline-IsAccounted t s h = λ a. ground (arith, h)

  enable_full_duplex-IsAccounted : Keeps (IsAccounted p) (enable_full_duplex p)
  unfolding enable_full_duplex
  enable_full_duplex-IsAccounted s h = λ a. ground (arith, h)

  change_header-IsAccounted : (f : Header → Header) → Keeps (IsAccounted p) (change_header f)
  unfolding change_header
  change_header-IsAccounted f s h = λ a. ground (arith, h)

  pub IsStable-IsAccounted : IsStable p (IsAccounted p)
  IsStable-IsAccounted = record {
    by_change_header = change_header-IsAccounted;
    by_write_header = write_header-IsAccounted;
    by_write = write-IsAccounted;
    by_flush = flush-IsAccounted;
    by_hijack = hijack-IsAccounted;
    by_set_read_deadline = set_read_deadline-IsAccounted;
    by_set_write_deadline = set_write_deadline-IsAccounted;
    by_enable_full_duplex = enable_full_duplex-IsAccounted;
  }

  -- Whatever a StreamBody does with its StreamWriter, also if it panics: the recorded status stays
  -- the first final status sent to the connection, and the byte count stays the number of accepted bytes
  -- modulo 2^64, until a hijack detaches the writer.
  pub run-IsAccounted : (body : Stream) → Keeps (IsAccounted p) (run p body)
  run-IsAccounted = run-Keeps IsStable-IsAccounted
