-- ===== src/Slices/Places.antt =====
-- Where append puts its slice.
use go_httpserver.Base.{
  ℕ, ◌+◌, ◌≤◌, ◌<◌, ◌≡◌, ◌≢◌, ◌⊎◌, inl, inr, ap, arith, List, length, leb, Bool-cases,
}
use go_httpserver.Slices.{write_below, Slice, Heap, append, append-kept}

-- No element of the array is written through the slice.
abbrev pub Spares : Slice → ℕ → Type 0
Spares s a = (a ≢ s.array) ⊎ (s.cap ≡ 0)

module _ {A : Type 0} (blank : A) (spare : ℕ → ℕ) (s : Slice) (xs : List A) (h : Heap A) where
  abbrev pub result : Slice × Heap A
  result = append blank spare s xs h

  -- The slice grew where it is.
  abbrev pub Extends : Type 0
  Extends =
      (result.0.array ≡ s.array)
      × (result.0.from ≡ s.from)
      × (result.0.len ≡ s.len + length xs)
      × (result.0.cap ≡ s.cap)
      × (result.1.fresh ≡ h.fresh)
      × (s.len + length xs ≤ s.cap)

  abbrev pub IsMoved : Type 0
  IsMoved = (result.0.array ≡ h.fresh) × (result.1.fresh ≡ h.fresh + 1)

  pub append_cases : Extends ⊎ IsMoved
  unfolding append
  append_cases = elim (Bool-cases (leb (s.len + length xs) s.cap)) [
    | inl room ↦ inl (ground (arith, room))
    | inr full ↦ inr (ground (arith, full))
  ]

  -- What append writes is beyond the elements of the slice.
  pub append_beyond :
      (a j : ℕ)
      → a < h.fresh
      → Spares s a ⊎ (j < s.from + s.len)
      → result.1.arrays a j ≡ h.arrays a j
  unfolding append
  append_beyond a j old (inl apart) = ap (λ f. f j) (append-kept blank spare s xs h a apart old)
  append_beyond a j old (inr within) =
      ground (arith, write_below (h.arrays s.array) (s.from + s.len) xs j within)
