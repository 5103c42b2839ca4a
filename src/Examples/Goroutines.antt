-- ===== src/Examples/Goroutines.antt =====
-- Goroutines that compile one request struct at the same time.
use go_httpserver.Base.{ℕ, ◌≡◌, refl, Option, List, [], ◌∷◌}
use go_httpserver.Effect.{returned}
use go_httpserver.Schedule.{run, run-Reach, here}
use go_httpserver.Tags.Compile.{compile}
use go_httpserver.Tags.Shared.{Shared, left, unstarted, step}
use go_httpserver.Tags.Shared.Orderly.{IsOrderly, Reach-IsOrderly}
use go_httpserver.Examples.Definitions.{upload_tags, split_nothing, types, no_defaults}

abbrev turn : ℕ → Shared → Option Shared
turn = step split_nothing types no_defaults

-- All call createTags on the same type.
abbrev all_upload : ℕ → ℕ
all_upload i = 0

-- Goroutine 1 waits while goroutine 0 compiles, and then finds the tags in the cache.
abbrev two_turns : List ℕ
two_turns = 0 ∷ 1 ∷ 0 ∷ 0 ∷ 1 ∷ 0 ∷ 0 ∷ 0 ∷ 1 ∷ 1 ∷ 1 ∷ []

two_turns_end : (run turn two_turns (unstarted all_upload)).phase 1 ≡ left 0 (returned upload_tags)
unfolding run step compile
two_turns_end = refl

Reach-IsOrderly_example :
    IsOrderly split_nothing types no_defaults (run turn two_turns (unstarted all_upload))
Reach-IsOrderly_example =
    Reach-IsOrderly split_nothing types no_defaults all_upload
      (run-Reach turn two_turns (unstarted all_upload) here)

-- Goroutine 0 holds the mutex, and goroutine 1 wants it.
abbrev contended : List ℕ
contended = 0 ∷ 1 ∷ 0 ∷ []
