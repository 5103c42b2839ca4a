-- ===== src/StreamWriter/Stable.antt =====
-- Induction over the body of a StreamBody: an invariant of every operation of the StreamWriter is an
-- invariant of any code that uses it.
use go_httpserver.Base.{ℕ, List}
use go_httpserver.Base.Int.{ℤ}
use go_httpserver.Effect.{Keeps, >>=-Keeps, >>-Keeps}
use go_httpserver.State.{Header, Stream, State, Platform}
use go_httpserver.StreamWriter.{
  change_header, write_header, write, flush, hijack, set_read_deadline, set_write_deadline,
  enable_full_duplex, run,
}

pub record IsStable (p : Platform) (I : State → Type 0) : Type 0 where
  pub by_change_header : (f : Header → Header) → Keeps I (change_header f)
  pub by_write_header : (code : ℤ) → Keeps I (write_header p code)
  pub by_write : (body : List ℕ) → Keeps I (write p body)
  pub by_flush : Keeps I (flush p)
  pub by_hijack : Keeps I (hijack p)
  pub by_set_read_deadline : (t : ℕ) → Keeps I (set_read_deadline p t)
  pub by_set_write_deadline : (t : ℕ) → Keeps I (set_write_deadline p t)
  pub by_enable_full_duplex : Keeps I (enable_full_duplex p)

module _ {p : Platform} {I : State → Type 0} (stable : IsStable p I) where
  open stable use {
    by_change_header, by_write_header, by_write, by_flush, by_hijack, by_set_read_deadline,
    by_set_write_deadline, by_enable_full_duplex,
  }

  pub run-Keeps : (body : Stream) → Keeps I (run p body)
  unfolding run
  run-Keeps (Stream.done err) = λ s h. h
  run-Keeps (Stream.panic e) = λ s h. h
  run-Keeps (Stream.change_header f k) = >>-Keeps I _ _ (by_change_header f) (run-Keeps k)
  run-Keeps (Stream.write_header code k) = >>-Keeps I _ _ (by_write_header code) (run-Keeps k)
  run-Keeps (Stream.write body k) =
      >>=-Keeps I _ _ (by_write body) (λ answer. run-Keeps (k answer.0 answer.1))
  run-Keeps (Stream.flush k) = >>-Keeps I _ _ by_flush (run-Keeps k)
  run-Keeps (Stream.hijack k) = >>=-Keeps I _ _ by_hijack (λ err. run-Keeps (k err))
  run-Keeps (Stream.set_read_deadline t k) =
      >>=-Keeps I _ _ (by_set_read_deadline t) (λ err. run-Keeps (k err))
  run-Keeps (Stream.set_write_deadline t k) =
      >>=-Keeps I _ _ (by_set_write_deadline t) (λ err. run-Keeps (k err))
  run-Keeps (Stream.enable_full_duplex k) =
      >>=-Keeps I _ _ by_enable_full_duplex (λ err. run-Keeps (k err))
