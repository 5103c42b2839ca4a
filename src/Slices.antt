-- ===== src/Slices.antt =====
-- Go's slices: views of arrays on a heap, and the built-in append, which writes in place where there is room.
pub mod Copies
pub mod Places
use mathlib.Core.Path.{ap₂}
use go_httpserver.Base.{
  ℕ, zero, suc, ◌+◌, ◌≤◌, ◌<◌, List, [], ◌∷◌, ◌++◌, length, ◌==◌, leb, if◌then◌else◌, ◌≡◌, ◌≢◌,
  refl, ap, ◌∙◌, arith, Bool-cases, inl, inr, ◌⊎◌, length-append,
}

module _ {A : Type 0} where
  -- An array, by the element at each index.
  abbrev pub set_at : (ℕ → A) → ℕ → A → ℕ → A
  set_at f i x j = if i == j then x else f j

  unfoldable pub read : (ℕ → A) → ℕ → ℕ → List A
  read f i zero = []
  read f i (suc n) = f i ∷ read f (i + 1) n

  unfoldable pub write : (ℕ → A) → ℕ → List A → ℕ → A
  write f i [] = f
  write f i (x ∷ xs) = write (set_at f i x) (i + 1) xs

  pub write_below : (f : ℕ → A) (i : ℕ) (xs : List A) (j : ℕ) → j < i → write f i xs j ≡ f j
  unfolding write
  write_below f i [] j lt = refl
  write_below f i (x ∷ xs) j lt =
      write_below (set_at f i x) (i + 1) xs j (omega arith) ∙ ground arith

  pub read_cong :
      (f g : ℕ → A) (i n : ℕ) → ((j : ℕ) → i ≤ j → j < i + n → f j ≡ g j) → read f i n ≡ read g i n
  unfolding read
  read_cong f g i zero h = refl
  read_cong f g i (suc n) h = ground (
    arith,
    h i (omega arith) (omega arith),
    read_cong f g (i + 1) n (λ j lo hi. h j (omega arith) (omega arith)),
  )

  read-write : (f : ℕ → A) (i : ℕ) (xs : List A) → read (write f i xs) i (length xs) ≡ xs
  unfolding read write
  read-write f i [] = refl
  read-write f i (x ∷ xs) = ground (
    arith,
    write_below (set_at f i x) (i + 1) xs i (omega arith),
    read-write (set_at f i x) (i + 1) xs,
  )

  read-append : (f : ℕ → A) (i n m : ℕ) → read f i (n + m) ≡ read f i n ++ read f (i + n) m
  unfolding read
  read-append f i zero m = ground arith
  read-append f i (suc n) m =
      let shift : i + 1 + n ≡ i + suc n = omega arith in
      let sum : suc n + m ≡ suc (n + m) = omega arith in
      rw sum (ap (λ (l : List A). f i ∷ l) (rw shift at (read-append f (i + 1) n m)))

-- A slice views `len` elements of an array, from an index on, with room for `cap`. The nil slice has no room; its
-- array does not matter.
pub record Slice : Type 0 where
  pub array : ℕ
  pub from : ℕ
  pub len : ℕ
  pub cap : ℕ

abbrev pub nil_slice : Slice
nil_slice = record { array = 0; from = 0; len = 0; cap = 0 }

-- The arrays, of which those below `fresh` are in use.
pub record Heap (A : Type 0) : Type 0 where
  pub arrays : ℕ → ℕ → A
  pub fresh : ℕ

module _ {A : Type 0} where
  abbrev pub elements : Heap A → Slice → List A
  elements h s = read (h.arrays s.array) s.from s.len

  abbrev pub set_array : ℕ → (ℕ → A) → Heap A → Heap A
  set_array a f h = record h { arrays = λ b. if a == b then f else h.arrays b }

  abbrev in_place : Slice → List A → Heap A → Slice × Heap A
  in_place s xs h = (
    record s { len = s.len + length xs },
    set_array s.array (write (h.arrays s.array) (s.from + s.len) xs) h,
  )

  -- A new array has `spare` cells more than are needed, which the runtime chooses, and which hold the zero value.
  module _ (blank : A) (spare : ℕ → ℕ) where
    abbrev moved : Slice → List A → Heap A → Slice × Heap A
    moved s xs h = (
      record {
        array = h.fresh;
        from = 0;
        len = s.len + length xs;
        cap = s.len + length xs + spare (s.len + length xs);
      },
      set_array h.fresh (write (λ _. blank) 0 (elements h s ++ xs))
          (record h { fresh = h.fresh + 1 }),
    )

    unfoldable pub append : Slice → List A → Heap A → Slice × Heap A
    append s xs h = if leb (s.len + length xs) s.cap then in_place s xs h else moved s xs h

    length-read : (f : ℕ → A) (i n : ℕ) → length (read f i n) ≡ n
    unfolding read
    length-read f i zero = refl
    length-read f i (suc n) = ground (arith, length-read f (i + 1) n)

    in_place-elements :
        (s : Slice) (xs : List A) (h : Heap A)
        → let (s', h') = in_place s xs h in elements h' s' ≡ elements h s ++ xs
    in_place-elements s xs h =
        let f = h.arrays s.array in
        let g = write f (s.from + s.len) xs in
        let same : (set_array s.array g h).arrays s.array ≡ g = ground arith in
        rw same (
          read-append g s.from s.len (length xs)
          ∙ ap₂ ◌++◌
              (read_cong g f s.from s.len (λ j lo hi. write_below f (s.from + s.len) xs j hi))
              (read-write f (s.from + s.len) xs))

    moved-elements :
        (s : Slice) (xs : List A) (h : Heap A)
        → let (s', h') = moved s xs h in elements h' s' ≡ elements h s ++ xs
    moved-elements s xs h =
        let all = elements h s ++ xs in
        let g = write (λ _. blank) 0 all in
        let same : (set_array h.fresh g h).arrays h.fresh ≡ g = ground arith in
        let size : length all ≡ s.len + length xs =
          length-append (elements h s) xs
          ∙ ap (λ n. n + length xs) (length-read (h.arrays s.array) s.from s.len) in
        rw (same, ← size) (read-write (λ _. blank) 0 all)

    -- What append gives views the elements of the slice and then the new ones.
    pub append-elements :
        (s : Slice) (xs : List A) (h : Heap A)
        → let (s', h') = append s xs h in elements h' s' ≡ elements h s ++ xs
    unfolding append
    append-elements s xs h = elim (Bool-cases (leb (s.len + length xs) s.cap)) [
      | inl room ↦ rw room (in_place-elements s xs h)
      | inr full ↦ rw full (moved-elements s xs h)
    ]

    -- Append writes to no array in use but the one of a slice with room.
    pub append-kept :
        (s : Slice) (xs : List A) (h : Heap A) (a : ℕ)
        → (a ≢ s.array) ⊎ (s.cap ≡ 0)
        → a < h.fresh
        → (append s xs h).1.arrays a ≡ h.arrays a
    unfolding append write
    append-kept s [] h a apart old = ground arith
    append-kept s (x ∷ xs) h a apart old = ground arith
