-- ===== src/Effect.antt =====
-- What a Go call does besides its value: it returns or it panics, and either way the state that it
-- wrote stays written.
use go_httpserver.Base.{ℕ, String, Bool, ⊤, ◌≡◌, ap}

-- The values that the package and the Go runtime panic with. `raised` stands for a value that a
-- handler of the application, or a library that it calls, panics with.
pub data Panic : Type 0 where
  bug : String → Panic
  nil_dereference : Panic
  index_out_of_range : Panic
  abort_handler : Panic
  raised : ℕ → Panic

-- Errors are opaque but for the one that the package itself returns.
pub data Error : Type 0 where
  not_supported : Error
  failure : ℕ → Error

pub data Outcome (A : Type 0) : Type 0 where
  returned : A → Outcome A
  panicked : Panic → Outcome A

-- A computation over a state.
abbrev pub Action : Type 0 → Type 0 → Type 0
Action S A = S → Outcome A × S

module _ {S : Type 0} where
  abbrev pub pure : {A : Type 0} → A → Action S A
  pure a s = (returned a, s)

  abbrev pub panic : {A : Type 0} → Panic → Action S A
  panic p s = (panicked p, s)

  abbrev pub gets : {A : Type 0} → (S → A) → Action S A
  gets f s = (returned (f s), s)

  abbrev pub modify : (S → S) → Action S ⊤
  modify f s = (returned tt, f s)

  abbrev pub continue : {A B : Type 0} → Outcome A → (A → Action S B) → Action S B
  continue (returned a) f s = f a s
  continue (panicked p) f s = (panicked p, s)

  infixl 5 ◌>>=◌ ◌>>◌
  abbrev pub ◌>>=◌ : {A B : Type 0} → Action S A → (A → Action S B) → Action S B
  ◌>>=◌ m f s = continue (m s).0 f (m s).1

  abbrev pub ◌>>◌ : {A B : Type 0} → Action S A → Action S B → Action S B
  m >> k = m >>= λ _. k

  -- The computation leads from states with `I` to states with `I`, also where it panics.
  abbrev pub Keeps : {A : Type 0} → (S → Type 0) → Action S A → Type 0
  Keeps I m = (s : S) → I s → I (m s).1

  pub continue-Keeps :
      {A B : Type 0} (I : S → Type 0) (r : Outcome A) (f : A → Action S B)
      → ((a : A) → Keeps I (f a))
      → (s : S) → I s
      → I (continue r f s).1
  continue-Keeps I (returned a) f hf s h = hf a s h
  continue-Keeps I (panicked p) f hf s h = h

  pub >>=-Keeps :
      {A B : Type 0} (I : S → Type 0) (m : Action S A) (f : A → Action S B)
      → Keeps I m
      → ((a : A) → Keeps I (f a))
      → Keeps I (m >>= f)
  >>=-Keeps I m f hm hf s h = continue-Keeps I (m s).0 f hf (m s).1 (hm s h)

  pub >>-Keeps :
      {A B : Type 0} (I : S → Type 0) (m : Action S A) (k : Action S B)
      → Keeps I m
      → Keeps I k
      → Keeps I (m >> k)
  >>-Keeps I m k hm hk = >>=-Keeps I m (λ _. k) hm (λ _. hk)

module _ {S A B : Type 0} where
  -- A computation that follows one that returned.
  pub >>=-returned :
      (m : Action S A) (f : A → Action S B) (s : S) {a : A}
      → (m s).0 ≡ returned a
      → (m >>= f) s ≡ f a (m s).1
  >>=-returned m f s e = ap (λ r. continue r f (m s).1) e

  pub >>-returned :
      (m : Action S A) (k : Action S B) (s : S) {a : A}
      → (m s).0 ≡ returned a
      → (m >> k) s ≡ k (m s).1
  >>-returned m k s e = >>=-returned m (λ _. k) s e

abbrev pub is_returned : {A : Type 0} → Outcome A → Bool
is_returned (returned _) = Bool.true
is_returned (panicked _) = Bool.false
