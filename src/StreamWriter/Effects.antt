-- ===== src/StreamWriter/Effects.antt =====
-- What a body of StreamBody can do to the request, whatever it calls: add calls of the underlying
-- writer. It cannot reach the Context, and cannot change a final status that was committed.
use go_httpserver.Base.{ℕ, ◌≡◌, arith, true, List, ◌∷◌}
use go_httpserver.Base.Int.{ℤ, pos, ◌≤ℤ◌}
use go_httpserver.Effect.{Keeps}
use go_httpserver.State.{Header, Call, Context, State, Platform}
use go_httpserver.StreamWriter.{
  change_header, write_header, write, flush, hijack, set_read_deadline, set_write_deadline,
  enable_full_duplex,
}
use go_httpserver.StreamWriter.Stable.{IsStable}

-- While it is attached, the StreamWriter has recorded a final status from 200 to 599.
abbrev pub IsCommitted : State → Type 0
IsCommitted s =
    s.stream.attached ≡ true → (pos 200 ≤ℤ s.stream.status) × (s.stream.status ≤ℤ pos 599)

-- The Context is `c`, and `Q` holds of the calls so far.
abbrev pub IsConfined : (List Call → Type 0) → Context → State → Type 0
IsConfined Q c s = (s.context ≡ c) × Q s.calls

module _ (p : Platform) where
  change_header-IsCommitted : (f : Header → Header) → Keeps IsCommitted (change_header f)
  unfolding change_header
  change_header-IsCommitted f s h = λ a. ground (arith, h)

  write_header-IsCommitted : (code : ℤ) → Keeps IsCommitted (write_header p code)
  unfolding write_header
  write_header-IsCommitted code s h = λ a. ground (arith, h)

  write-IsCommitted : (body : List ℕ) → Keeps IsCommitted (write p body)
  unfolding write
  write-IsCommitted body s h = λ a. ground (arith, h)

  flush-IsCommitted : Keeps IsCommitted (flush p)
  unfolding flush
  flush-IsCommitted s h = λ a. ground (arith, h)

  hijack-IsCommitted : Keeps IsCommitted (hijack p)
  unfolding hijack
  hijack-IsCommitted s h = λ a. ground (arith, h)

  set_read_deadline-IsCommitted : (t : ℕ) → Keeps IsCommitted (set_read_deadline p t)
  unfolding set_read_deadline
  set_read_deadline-IsCommitted t s h = λ a. ground (arith, h)

  set_write_deadline-IsCommitted : (t : ℕ) → Keeps IsCommitted (set_write_deadline p t)
  unfolding set_write_deadline
  set_write_deadline-IsCommitted t s h = λ a. ground (arith, h)

  enable_full_duplex-IsCommitted : Keeps IsCommitted (enable_full_duplex p)
  unfolding enable_full_duplex
  enable_full_duplex-IsCommitted s h = λ a. ground (arith, h)

  pub IsStable-IsCommitted : IsStable p IsCommitted
  IsStable-IsCommitted = record {
    by_change_header = change_header-IsCommitted;
    by_write_header = write_header-IsCommitted;
    by_write = write-IsCommitted;
    by_flush = flush-IsCommitted;
    by_hijack = hijack-IsCommitted;
    by_set_read_deadline = set_read_deadline-IsCommitted;
    by_set_write_deadline = set_write_deadline-IsCommitted;
    by_enable_full_duplex = enable_full_duplex-IsCommitted;
  }

module _ (p : Platform) (Q : List Call → Type 0)
    (grow : (a : Call) (cs : List Call) → Q cs → Q (a ∷ cs)) (c : Context) where
  change_header-IsConfined : (f : Header → Header) → Keeps (IsConfined Q c) (change_header f)
  unfolding change_header
  change_header-IsConfined f s h = (ground arith, ground arith)

  write_header-IsConfined : (code : ℤ) → Keeps (IsConfined Q c) (write_header p code)
  unfolding write_header
  write_header-IsConfined code s h =
      (ground arith, ground (arith, grow (Call.header_sent code s.header) s.calls))

  write-IsConfined : (body : List ℕ) → Keeps (IsConfined Q c) (write p body)
  unfolding write
  write-IsConfined body s h = (ground arith, ground (arith, grow (Call.body_sent body) s.calls))

  flush-IsConfined : Keeps (IsConfined Q c) (flush p)
  unfolding flush
  flush-IsConfined s h = (ground arith, ground (arith, grow Call.flushed s.calls))

  hijack-IsConfined : Keeps (IsConfined Q c) (hijack p)
  unfolding hijack
  hijack-IsConfined s h = (ground arith, ground (arith, grow Call.hijack_asked s.calls))

  set_read_deadline-IsConfined : (t : ℕ) → Keeps (IsConfined Q c) (set_read_deadline p t)
  unfolding set_read_deadline
  set_read_deadline-IsConfined t s h =
      (ground arith, ground (arith, grow (Call.read_deadline_asked t) s.calls))

  set_write_deadline-IsConfined : (t : ℕ) → Keeps (IsConfined Q c) (set_write_deadline p t)
  unfolding set_write_deadline
  set_write_deadline-IsConfined t s h =
      (ground arith, ground (arith, grow (Call.write_deadline_asked t) s.calls))

  enable_full_duplex-IsConfined : Keeps (IsConfined Q c) (enable_full_duplex p)
  unfolding enable_full_duplex
  enable_full_duplex-IsConfined s h =
      (ground arith, ground (arith, grow Call.full_duplex_asked s.calls))

  pub IsStable-IsConfined : IsStable p (IsConfined Q c)
  IsStable-IsConfined = record {
    by_change_header = change_header-IsConfined;
    by_write_header = write_header-IsConfined;
    by_write = write-IsConfined;
    by_flush = flush-IsConfined;
    by_hijack = hijack-IsConfined;
    by_set_read_deadline = set_read_deadline-IsConfined;
    by_set_write_deadline = set_write_deadline-IsConfined;
    by_enable_full_duplex = enable_full_duplex-IsConfined;
  }
