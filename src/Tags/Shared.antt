-- ===== src/Tags/Shared.antt =====
-- request_tags.go: createTags as it runs in many goroutines, which share the cache and its mutex.
pub mod Orderly
pub mod Progress
use go_httpserver.Base.{
  ℕ, Bool, true, false, Option, none, some, String, List, [], ◌∷◌, if◌then◌else◌, ◌==◌, ◌≡◌,
}
use go_httpserver.Effect.{Panic, bug, Outcome, returned, panicked}
use go_httpserver.Tags.{RequestTags}
use go_httpserver.Tags.Compile.{Fields, cached, compile}

-- Where a call of createTags is, with the name of its type: before the lock, at Lock, with the mutex held, at the
-- deferred Unlock, and after it.
pub data Phase : Type 0 where
  entering locking : ℕ → Phase
  looking compiling : ℕ → Phase
  storing : ℕ → RequestTags → Phase
  unlocking left : ℕ → Outcome RequestTags → Phase

-- globalTags, the goroutine that holds globalTagsMutex, and the call of each goroutine.
pub record Shared : Type 0 where
  pub cache : List (ℕ × RequestTags)
  pub holder : Option ℕ
  pub phase : ℕ → Phase

-- Before goroutine `i` calls createTags on `types i`.
abbrev pub unstarted : (ℕ → ℕ) → Shared
unstarted types = record { cache = []; holder = none; phase = λ i. entering (types i) }

abbrev pub at_phase : ℕ → Phase → (ℕ → Phase) → ℕ → Phase
at_phase i p phase j = if i == j then p else phase j

abbrev pub goes : ℕ → Phase → Shared → Shared
goes i p s = record s { phase = at_phase i p s.phase }

module _ (split_fields : String → List String) (struct_of : ℕ → Option Fields)
    (apply_defaults : ℕ → Option Panic) where
  abbrev pub entered : ℕ → Option Fields → Phase
  entered name none = left name (panicked (bug "BUG: parsed request must be a struct"))
  entered name (some members) = locking name

  abbrev pub found : ℕ → Option RequestTags → Phase
  found name (some tags) = unlocking name (returned tags)
  found name none = compiling name

  abbrev pub compiled : ℕ → Outcome RequestTags → Phase
  compiled name (returned tags) = storing name tags
  compiled name (panicked e) = unlocking name (panicked e)

  -- The compilation of the type, which has fields here.
  abbrev pub compile_type : ℕ → Option Fields → Outcome RequestTags
  compile_type name (some members) = compile split_fields struct_of apply_defaults name members
  compile_type name none = panicked (bug "BUG: parsed request must be a struct")

  -- The next step of goroutine `i`; `none`: it waits for the mutex, or has returned.
  unfoldable pub move : ℕ → Phase → Shared → Option Shared
  unfolding cached compile
  move i (entering name) s = some (goes i (entered name (struct_of name)) s)
  move i (locking name) s = elim s.holder [
    | none ↦ some (record (goes i (looking name) s) { holder = some i })
    | some _ ↦ none
  ]
  move i (looking name) s =
      some (goes i (found name (cached split_fields struct_of apply_defaults name s.cache)) s)
  move i (compiling name) s = some (goes i (compiled name (compile_type name (struct_of name))) s)
  move i (storing name tags) s =
      some (record (goes i (unlocking name (returned tags)) s) { cache = (name, tags) ∷ s.cache })
  move i (unlocking name o) s = some (record (goes i (left name o) s) { holder = none })
  move i (left name o) s = none

  unfoldable pub step : ℕ → Shared → Option Shared
  unfolding move
  step i s = move i (s.phase i) s
