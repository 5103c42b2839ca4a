-- ===== src/Tags/Sliced/Records.antt =====
-- That recording a path in a new array does with slices what it does with lists.
use go_httpserver.Base.{
  ℕ, ◌+◌, ◌≤◌, ◌<◌, ◌≡◌, ◌∙◌, inl, inr, refl, ap, sym, arith, Bool, true, false, Option, none, some,
  is_some, List, [], ◌∷◌, ◌++◌, if◌then◌else◌, ◌==◌, Bool-cases, length,
}
use mathlib.Core.Path.{fun_ext}
use go_httpserver.Effect.{Panic, Outcome, returned, panicked}
use go_httpserver.Slices.{Slice, Heap, elements}
use go_httpserver.Slices.Copies.{
  extended, copied, extended-IsNew, extended-elements, extended-len, extended_kept,
}
use go_httpserver.Tags.{Source, RequestTags}
use go_httpserver.Tags.Compile.{bit, then_check, set_index, ◌>=>◌}
use go_httpserver.Tags.Sliced.{SlicedTags, contents, tags_of, flagged, full_path, place, ◌>->◌}
use go_httpserver.Tags.Sliced.Passes.{
  IsPrivate, Goes, Goes-trans, Goes-IsPrivate, path_kept, contents_kept,
}

abbrev EndsAs : Slice → SlicedTags → Outcome SlicedTags → Outcome RequestTags → Type 0
EndsAs path t (returned u) o = (o ≡ returned (tags_of u)) × Goes path t u
EndsAs path t (panicked e) o = o ≡ panicked e

-- The same outcome, with the tags as their slices read, and a heap on which the path may go on.
pub record Agrees (path : Slice) (t : SlicedTags) (o : Outcome SlicedTags) (p : Outcome RequestTags)
    : Type 0 where
  pub ends : EndsAs path t o p

-- A part of checkRecursively on slices, and on lists, under one path.
pub record Tracks (path : Slice) (l : List ℕ) (f : SlicedTags → Outcome SlicedTags)
    (g : RequestTags → Outcome RequestTags) : Type 0 where
  pub from_tags :
      (t : SlicedTags)
      → IsPrivate path t
      → elements t.heap path ≡ l
      → Agrees path t (f t) (g (tags_of t))

module _ {path : Slice} {t : SlicedTags} where
  pub if_Agrees :
      {o o' : Outcome SlicedTags} {p p' : Outcome RequestTags} (b : Bool)
      → Agrees path t o p
      → Agrees path t o' p'
      → Agrees path t (if b then o else o') (if b then p else p')
  if_Agrees true h h' = h
  if_Agrees false h h' = h'

  later-Agrees :
      {u : SlicedTags} {p : Outcome RequestTags} (o : Outcome SlicedTags)
      → Goes path t u
      → Agrees path u o p
      → Agrees path t o p
  later-Agrees (returned v) g h = record { ends = let (same, f) = h.ends in (same, Goes-trans g f) }
  later-Agrees (panicked e) g h = record { ends = h.ends }

  pub then-Agrees :
      {l : List ℕ} {p : Outcome RequestTags} {f : SlicedTags → Outcome SlicedTags}
      {g : RequestTags → Outcome RequestTags} (o : Outcome SlicedTags)
      → IsPrivate path t
      → elements t.heap path ≡ l
      → Agrees path t o p
      → Tracks path l f g
      → Agrees path t (then_check o f) (then_check p g)
  then-Agrees {f = f} (returned u) private at h tracks =
      let (same, goes) = h.ends in
      rw same (
        later-Agrees (f u) goes
          (tracks.from_tags u (Goes-IsPrivate private goes) (path_kept private goes ∙ at)))
  then-Agrees (panicked e) private at h tracks = rw h.ends (record { ends = refl })

  pub panics_Agrees : (e : Panic) → Agrees path t (panicked e) (panicked e)
  panics_Agrees e = record { ends = refl }

  pub Goes-Agrees :
      {u : SlicedTags} {q : RequestTags}
      → tags_of u ≡ q
      → Goes path t u
      → Agrees path t (returned u) (returned q)
  Goes-Agrees same g = record { ends = (ap returned (sym same), g) }

  pub flagged-Goes :
      {u : SlicedTags} (source : Source) → Goes path t u → Goes path t (flagged source u)
  flagged-Goes source g = record { grows = g.grows; kept = g.kept; recorded = g.recorded }

  pub from_flagged-Goes :
      {u : SlicedTags} (source : Source) → Goes path (flagged source t) u → Goes path t u
  from_flagged-Goes source g = record { grows = g.grows; kept = g.kept; recorded = g.recorded }

  pub flagged-IsPrivate : (source : Source) → IsPrivate path t → IsPrivate path (flagged source t)
  flagged-IsPrivate source private = record { mine = private.mine; apart = private.apart }

pub chain-Tracks :
    {path : Slice} {l : List ℕ} {f g : SlicedTags → Outcome SlicedTags}
    {f' g' : RequestTags → Outcome RequestTags}
    → Tracks path l f f'
    → Tracks path l g g'
    → Tracks path l (f >-> g) (f' >=> g')
unfolding ◌>->◌ ◌>=>◌
chain-Tracks {f = f} first second = record {
  from_tags = λ t private at. then-Agrees (f t) private at (first.from_tags t private at) second;
}

pub is_some-contents : (h : Heap ℕ) (o : Option Slice) → is_some (contents h o) ≡ is_some o
is_some-contents h none = refl
is_some-contents h (some s) = refl

module _ (spare : ℕ → ℕ) (path : Slice) (index : ℕ) where
  module _ (source : Source) (t : SlicedTags) where
    abbrev whole : Slice × Heap ℕ
    whole = extended 0 spare path t.heap (index ∷ [])

    whole-IsNew : (t.heap.fresh ≤ whole.0.array) × (whole.0.array < whole.1.fresh)
    whole-IsNew =
        let (grows, new) = extended-IsNew 0 spare path t.heap (index ∷ []) in
        let some_element : whole.0.len ≡ (copied 0 spare path t.heap).0.len + length (index ∷ []) =
          extended-len 0 spare path t.heap (index ∷ []) in
        elim new [ inl (empty, _) ↦ absurd (omega arith) | inr there ↦ there ]

    pub place-Goes : Goes path t (place spare source path index t)
    unfolding full_path
    place-Goes = record {
      grows = omega (arith, whole-IsNew);
      kept = λ a j old safe. ap (λ f. f j) (extended_kept 0 spare path t.heap (index ∷ []) a old);
      recorded = λ s w is. elim (Bool-cases (bit s == bit source)) [
        | inl this ↦ let same : whole.0 ≡ w = grind arith in inr (rw (← same) whole-IsNew)
        | inr other ↦ inl (grind arith)
      ];
    }

    pub place-tags_of :
        {l : List ℕ}
        → IsPrivate path t
        → elements t.heap path ≡ l
        → tags_of (place spare source path index t) ≡ set_index source (l ++ index ∷ []) (tags_of t)
    unfolding full_path
    place-tags_of private at =
        ap
          (λ (f : Source → Option (List ℕ)). record {
            flags = t.flags;
            field_index = f;
            body_content_types = t.body_content_types;
          })
          (fun_ext (λ s. elim (Bool-cases (bit s == bit source)) [
            | inl this ↦
                rw (this, ← at) (ap some (extended-elements 0 spare path t.heap (index ∷ [])))
            | inr other ↦ rw other (contents_kept private place-Goes s (t.slices s) refl)
          ]))
