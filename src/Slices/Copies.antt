-- ===== src/Slices/Copies.antt =====
-- `append(append([]T(nil), s...), xs...)`: a copy of a slice with more elements.
use go_httpserver.Base.{
  ℕ, ◌+◌, ◌≤◌, ◌<◌, ◌≡◌, ◌≢◌, ◌⊎◌, ◌∙◌, inl, inr, refl, ap, arith, List, [], ◌∷◌, ◌++◌, length,
}
use go_httpserver.Slices.{
  read, Slice, nil_slice, Heap, elements, append, append-elements, append-kept,
}

-- A slice of an array that was not in use in `h`, or the nil slice.
abbrev pub IsNew : {A : Type 0} → Heap A → Slice → Heap A → Type 0
IsNew h s h' =
    (h.fresh ≤ h'.fresh) × ((s.len ≡ 0) × (s.cap ≡ 0) ⊎ (h.fresh ≤ s.array) × (s.array < h'.fresh))

module _ {A : Type 0} (blank : A) (spare : ℕ → ℕ) where
  append-IsNew :
      (h₀ h : Heap A) (s : Slice) (xs : List A)
      → IsNew h₀ s h
      → let (s', h') = append blank spare s xs h in IsNew h₀ s' h'
  unfolding append
  append-IsNew h₀ h s [] new = ground arith
  append-IsNew h₀ h s (x ∷ xs) new = ground arith

  length_after :
      (s : Slice) (xs : List A) (h : Heap A) → (append blank spare s xs h).0.len ≡ s.len + length xs
  unfolding append
  length_after s xs h = ground arith

  module _ (s : Slice) (h : Heap A) where
    abbrev pub copied : Slice × Heap A
    copied = append blank spare nil_slice (elements h s) h

    copied-IsNew : IsNew h copied.0 copied.1
    copied-IsNew = append-IsNew h h nil_slice (elements h s) (omega arith, inl (refl, refl))

    pub copied_kept : (a : ℕ) → a < h.fresh → copied.1.arrays a ≡ h.arrays a
    copied_kept a old = append-kept blank spare nil_slice (elements h s) h a (inr refl) old

    module _ (xs : List A) where
      abbrev pub extended : Slice × Heap A
      extended = append blank spare copied.0 xs copied.1

      pub extended-IsNew : IsNew h extended.0 extended.1
      extended-IsNew = append-IsNew h copied.1 copied.0 xs copied-IsNew

      pub extended-elements : elements extended.1 extended.0 ≡ elements h s ++ xs
      unfolding read
      extended-elements =
          append-elements blank spare copied.0 xs copied.1
          ∙ ap (λ l. l ++ xs) (append-elements blank spare nil_slice (elements h s) h)

      pub extended-len : extended.0.len ≡ copied.0.len + length xs
      extended-len = length_after copied.0 xs copied.1

      -- The copy writes to no array that was in use.
      pub extended_kept : (a : ℕ) → a < h.fresh → extended.1.arrays a ≡ h.arrays a
      extended_kept a old =
          let new = copied-IsNew in
          append-kept blank spare copied.0 xs copied.1 a (apart new.1) (omega arith)
          ∙ copied_kept a old
        where
          apart :
              (copied.0.len ≡ 0) × (copied.0.cap ≡ 0)
                ⊎ (h.fresh ≤ copied.0.array) × (copied.0.array < copied.1.fresh)
              → (a ≢ copied.0.array) ⊎ (copied.0.cap ≡ 0)
          apart (inl (_, none_left)) = inr none_left
          apart (inr (lo, hi)) = inl (λ e. omega arith)
