-- ===== src/Tags/Sliced/Passes.antt =====
-- What checkRecursively may do to the heap under a path that it was given.
use go_httpserver.Base.{
  ℕ, ◌+◌, ◌≤◌, ◌<◌, ◌≡◌, ◌⊎◌, ◌∙◌, inl, inr, refl, ap, arith, Option, none, some, List, [], ◌∷◌,
}
use mathlib.Core.Path.{fun_ext}
use go_httpserver.Slices.{read, read_cong, Slice, Heap, elements, append}
use go_httpserver.Slices.Places.{Spares, Extends, IsMoved, append_cases, append_beyond}
use go_httpserver.Tags.{Source}
use go_httpserver.Tags.Sliced.{SlicedTags, contents, tags_of}

-- No recorded path can be written through the path at hand.
pub record IsPrivate (path : Slice) (t : SlicedTags) : Type 0 where
  pub mine : (path.len ≡ 0) × (path.cap ≡ 0) ⊎ (path.array < t.heap.fresh)
  pub apart :
      (s : Source) (w : Slice)
      → t.slices s ≡ some w
      → (w.array < t.heap.fresh) × Spares path w.array

-- The elements of the path, and arrays that cannot be written through it, stay; what was recorded since then is in
-- new arrays.
pub record Goes (path : Slice) (t t' : SlicedTags) : Type 0 where
  pub grows : t.heap.fresh ≤ t'.heap.fresh
  pub kept :
      (a j : ℕ)
      → a < t.heap.fresh
      → Spares path a ⊎ (j < path.from + path.len)
      → t'.heap.arrays a j ≡ t.heap.arrays a j
  pub recorded :
      (s : Source) (w : Slice)
      → t'.slices s ≡ some w
      → (t.slices s ≡ some w) ⊎ (t.heap.fresh ≤ w.array) × (w.array < t'.heap.fresh)

pub Goes-refl : (path : Slice) (t : SlicedTags) → Goes path t t
Goes-refl path t = record {
  grows = omega arith;
  kept = λ a j old safe. refl;
  recorded = λ s w is. inl is;
}

pub Goes-trans : {path : Slice} {t u v : SlicedTags} → Goes path t u → Goes path u v → Goes path t v
Goes-trans {path} {t} {u} {v} g f = record {
  grows = omega (arith, g.grows, f.grows);
  kept = λ a j old safe. f.kept a j (omega (arith, g.grows)) safe ∙ g.kept a j old safe;
  recorded = λ s w is. elim (f.recorded s w is) [
    | inl earlier ↦ elim (g.recorded s w earlier) [
      | inl first ↦ inl first
      | inr (lo, hi) ↦ inr (lo, omega (arith, f.grows))
    ]
    | inr (lo, hi) ↦ inr (omega (arith, g.grows), hi)
  ];
}

module _ {path : Slice} {t : SlicedTags} (private : IsPrivate path t) where
  new_apart : (a : ℕ) → t.heap.fresh ≤ a → Spares path a
  new_apart a lo = elim private.mine [ inl (_, full) ↦ inr full | inr old ↦ inl (λ e. omega arith) ]

  module _ {u : SlicedTags} (g : Goes path t u) where
    pub Goes-IsPrivate : IsPrivate path u
    Goes-IsPrivate = record {
      mine = elim private.mine [ inl empty ↦ inl empty | inr old ↦ inr (omega (arith, g.grows)) ];
      apart = λ s w is. elim (g.recorded s w is) [
        | inl earlier ↦
            let (old, safe) = private.apart s w earlier in (omega (arith, g.grows), safe)
        | inr (lo, hi) ↦ (hi, new_apart w.array lo)
      ];
    }

    pub path_kept : elements u.heap path ≡ elements t.heap path
    unfolding read
    path_kept = elim private.mine [
      | inl (empty, _) ↦ rw empty refl
      | inr old ↦
          read_cong (u.heap.arrays path.array) (t.heap.arrays path.array) path.from path.len
            (λ j lo hi. g.kept path.array j old (inr hi))
    ]

    pub contents_kept :
        (s : Source) (o : Option Slice) → t.slices s ≡ o → contents u.heap o ≡ contents t.heap o
    contents_kept s none is = refl
    contents_kept s (some w) is =
        let (old, safe) = private.apart s w is in
        ap some (
          read_cong (u.heap.arrays w.array) (t.heap.arrays w.array) w.from w.len
            (λ j lo hi. g.kept w.array j old (inl safe)))

  module _ (spare : ℕ → ℕ) (index : ℕ) where
    abbrev pub longer : Slice × Heap ℕ
    longer = append 0 spare path (index ∷ []) t.heap

    abbrev pub passed : SlicedTags
    passed = record t { heap = longer.1 }

    place_of : Extends 0 spare path (index ∷ []) t.heap ⊎ IsMoved 0 spare path (index ∷ []) t.heap
    place_of = append_cases 0 spare path (index ∷ []) t.heap

    passed-Goes : Goes path t passed
    passed-Goes = record {
      grows = elim place_of [ inl there ↦ omega (arith, there) | inr moved ↦ omega (arith, moved) ];
      kept = append_beyond 0 spare path (index ∷ []) t.heap;
      recorded = λ s w is. inl is;
    }

    -- What cannot be written through the path cannot be written through the longer one.
    still_apart : (a : ℕ) → a < t.heap.fresh → Spares path a → Spares longer.0 a
    still_apart a old safe = elim place_of [
      | inl there ↦ ground (arith, there)
      | inr moved ↦ inl (λ e. omega (arith, moved))
    ]

    pub passed-IsPrivate : IsPrivate longer.0 passed
    passed-IsPrivate = record {
      mine = elim place_of [
        | inl there ↦ ground (arith, there, private.mine)
        | inr moved ↦ inr (omega (arith, moved))
      ];
      apart = λ s w is.
          let (old, safe) = private.apart s w is in
          (omega (arith, passed-Goes.grows), still_apart w.array old safe);
    }

    still_within :
        (a j : ℕ)
        → a < t.heap.fresh
        → Spares path a ⊎ (j < path.from + path.len)
        → Spares longer.0 a ⊎ (j < longer.0.from + longer.0.len)
    still_within a j old (inl safe) = inl (still_apart a old safe)
    still_within a j old (inr within) = elim place_of [
      | inl there ↦ inr (omega (arith, there))
      | inr moved ↦ inl (inl (λ e. omega (arith, moved)))
    ]

    -- What goes on under the longer path goes on under the path.
    pub longer-Goes : {u : SlicedTags} → Goes longer.0 passed u → Goes path t u
    longer-Goes {u} g = record {
      grows = omega (arith, passed-Goes.grows, g.grows);
      kept = λ a j old safe.
          g.kept a j (omega (arith, passed-Goes.grows)) (still_within a j old safe)
          ∙ passed-Goes.kept a j old safe;
      recorded = λ s w is. elim (g.recorded s w is) [
        | inl earlier ↦ inl earlier
        | inr (lo, hi) ↦ inr (omega (arith, passed-Goes.grows), hi)
      ];
    }

    pub passed-tags_of : tags_of passed ≡ tags_of t
    passed-tags_of =
        ap
          (λ (f : Source → Option (List ℕ)). record {
            flags = t.flags;
            field_index = f;
            body_content_types = t.body_content_types;
          })
          (fun_ext (λ s. contents_kept passed-Goes s (t.slices s) refl))
