-- ===== src/Tags/Shared/Progress.antt =====
-- That the mutex does not lock the goroutines out.
use go_httpserver.Base.{ℕ, Bool, true, false, Option, some, String, List, ◌≡◌}
use go_httpserver.Effect.{Panic}
use go_httpserver.Tags.Compile.{Fields}
use go_httpserver.Tags.Shared.{Phase, left, Shared, move}

abbrev pub has_left : Phase → Bool
has_left (left _ _) = true
has_left _ = false

module _ (split_fields : String → List String) (struct_of : ℕ → Option Fields)
    (apply_defaults : ℕ → Option Panic) where
  abbrev Moves : ℕ → Phase → Shared → Type 0
  Moves i p s = (t : Shared) × (move split_fields struct_of apply_defaults i p s ≡ some t)
