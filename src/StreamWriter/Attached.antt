-- ===== src/StreamWriter/Attached.antt =====
-- That nothing but a hijack detaches the StreamWriter.
use go_httpserver.Base.{ℕ, ◌≡◌, arith, Bool, true, false, ◌||◌, List, [], ◌∷◌}
use go_httpserver.Base.Int.{ℤ}
use go_httpserver.Effect.{Keeps}
use go_httpserver.State.{Header, Call, hijack_asked, State, Platform}
use go_httpserver.StreamWriter.{
  change_header, write_header, write, flush, hijack, set_read_deadline, set_write_deadline,
  enable_full_duplex,
}
use go_httpserver.StreamWriter.Stable.{IsStable}

-- The underlying writer was asked for a hijack.
abbrev pub is_asked : List Call → Bool
is_asked [] = false
is_asked (hijack_asked ∷ cs) = true
is_asked (_ ∷ cs) = is_asked cs

abbrev pub IsHeld : State → Type 0
IsHeld s = s.stream.attached || is_asked s.calls ≡ true

module _ (p : Platform) where
  change_header-IsHeld : (f : Header → Header) → Keeps IsHeld (change_header f)
  unfolding change_header
  change_header-IsHeld f s h = ground arith

  write_header-IsHeld : (code : ℤ) → Keeps IsHeld (write_header p code)
  unfolding write_header
  write_header-IsHeld code s h = ground arith

  write-IsHeld : (body : List ℕ) → Keeps IsHeld (write p body)
  unfolding write
  write-IsHeld body s h = ground arith

  flush-IsHeld : Keeps IsHeld (flush p)
  unfolding flush
  flush-IsHeld s h = ground arith

  hijack-IsHeld : Keeps IsHeld (hijack p)
  unfolding hijack
  hijack-IsHeld s h = ground arith

  set_read_deadline-IsHeld : (t : ℕ) → Keeps IsHeld (set_read_deadline p t)
  unfolding set_read_deadline
  set_read_deadline-IsHeld t s h = ground arith

  set_write_deadline-IsHeld : (t : ℕ) → Keeps IsHeld (set_write_deadline p t)
  unfolding set_write_deadline
  set_write_deadline-IsHeld t s h = ground arith

  enable_full_duplex-IsHeld : Keeps IsHeld (enable_full_duplex p)
  unfolding enable_full_duplex
  enable_full_duplex-IsHeld s h = ground arith

  pub IsStable-IsHeld : IsStable p IsHeld
  IsStable-IsHeld = record {
    by_change_header = change_header-IsHeld;
    by_write_header = write_header-IsHeld;
    by_write = write-IsHeld;
    by_flush = flush-IsHeld;
    by_hijack = hijack-IsHeld;
    by_set_read_deadline = set_read_deadline-IsHeld;
    by_set_write_deadline = set_write_deadline-IsHeld;
    by_enable_full_duplex = enable_full_duplex-IsHeld;
  }
