-- ===== src/Tags/Shared/Orderly.antt =====
-- That the mutex keeps the cache right, with one entry for a type.
use go_httpserver.Base.{
  ℕ, Bool, true, false, Option, none, some, String, List, [], ◌∷◌, ◌==◌, ◌≡◌, refl, ap, arith, ⊤,
  Bool-cases, Option-cases, inl, inr,
}
use go_httpserver.Effect.{Panic, Outcome, returned, panicked}
use go_httpserver.Tags.{RequestTags}
use go_httpserver.Tags.Compile.{Fields, cached}
use go_httpserver.Tags.Cached.{IsFaithful, fresh_tags, cached-IsFaithful}
use go_httpserver.Schedule.{Reach, Reach-keeps}
use go_httpserver.Tags.Shared.{
  Phase, entering, locking, looking, compiling, storing, unlocking, left, Shared, goes, entered,
  found, compiled, compile_type, move, step, unstarted,
}

-- The goroutine holds the mutex.
abbrev pub is_inside : Phase → Bool
is_inside (entering _) = false
is_inside (locking _) = false
is_inside (left _ _) = false
is_inside _ = true

abbrev pub is_holder : Option ℕ → ℕ → Bool
is_holder none i = false
is_holder (some j) i = i == j

module _ (split_fields : String → List String) (struct_of : ℕ → Option Fields)
    (apply_defaults : ℕ → Option Panic) where
  -- What the compilation of a type by itself gives.
  abbrev pub fresh : ℕ → Outcome RequestTags
  fresh name = fresh_tags split_fields struct_of apply_defaults name (struct_of name)

  abbrev pub in_cache : ℕ → List (ℕ × RequestTags) → Option RequestTags
  in_cache = cached split_fields struct_of apply_defaults

  -- No type has two entries.
  abbrev pub IsOnce : List (ℕ × RequestTags) → Type 0
  IsOnce [] = ⊤
  IsOnce ((name, _) ∷ cache) = (in_cache name cache ≡ none) × IsOnce cache

  -- What a goroutine at a phase knows of the cache.
  abbrev pub Knows : List (ℕ × RequestTags) → Phase → Type 0
  Knows cache (compiling name) = in_cache name cache ≡ none
  Knows cache (storing name tags) = (in_cache name cache ≡ none) × (fresh name ≡ returned tags)
  Knows cache (unlocking name o) = fresh name ≡ o
  Knows cache (left name o) = fresh name ≡ o
  Knows cache _ = ⊤

  pub record IsOrderly (s : Shared) : Type 0 where
    pub faithful : IsFaithful split_fields struct_of apply_defaults s.cache
    pub once : IsOnce s.cache
    pub owned : (i : ℕ) → is_inside (s.phase i) ≡ is_holder s.holder i
    pub known : (i : ℕ) → Knows s.cache (s.phase i)

  at_some : (u t : Shared) → some u ≡ some t → IsOrderly u → IsOrderly t
  at_some u t is h = let same : u ≡ t = cc in rw (← same) h

  goes-owned :
      (i : ℕ) (p q : Phase) (s : Shared)
      → s.phase i ≡ p
      → is_inside q ≡ is_inside p
      → IsOrderly s
      → (j : ℕ) → is_inside ((goes i q s).phase j) ≡ is_holder s.holder j
  goes-owned i p q s at same h j = ground (arith, h.owned j, h.owned i)

  goes-known :
      (i : ℕ) (q : Phase) (s : Shared)
      → Knows s.cache q
      → IsOrderly s
      → (j : ℕ) → Knows s.cache ((goes i q s).phase j)
  goes-known i q s knows h j = elim (Bool-cases (i == j)) [
    | inl mine ↦ rw mine knows
    | inr other ↦ rw other (h.known j)
  ]

  goes-IsOrderly :
      (i : ℕ) (p q : Phase) (s : Shared)
      → s.phase i ≡ p
      → is_inside q ≡ is_inside p
      → Knows s.cache q
      → IsOrderly s
      → IsOrderly (goes i q s)
  goes-IsOrderly i p q s at same knows h = record {
    faithful = h.faithful;
    once = h.once;
    owned = goes-owned i p q s at same h;
    known = goes-known i q s knows h;
  }

  entered-Knows :
      (cache : List (ℕ × RequestTags)) (name : ℕ) (o : Option Fields)
      → struct_of name ≡ o
      → Knows cache (entered split_fields struct_of apply_defaults name o)
        × (is_inside (entered split_fields struct_of apply_defaults name o) ≡ false)
  entered-Knows cache name none is =
      (ap (fresh_tags split_fields struct_of apply_defaults name) is, refl)
  entered-Knows cache name (some members) is = (tt, refl)

  found-Knows :
      (cache : List (ℕ × RequestTags)) (name : ℕ) (o : Option RequestTags)
      → IsFaithful split_fields struct_of apply_defaults cache
      → in_cache name cache ≡ o
      → Knows cache (found split_fields struct_of apply_defaults name o)
        × (is_inside (found split_fields struct_of apply_defaults name o) ≡ true)
  found-Knows cache name none faithful is = (is, refl)
  found-Knows cache name (some tags) faithful is =
      (cached-IsFaithful split_fields struct_of apply_defaults name cache tags faithful is, refl)

  compile_type-fresh :
      (name : ℕ) (o : Option Fields)
      → fresh_tags split_fields struct_of apply_defaults name o
        ≡ compile_type split_fields struct_of apply_defaults name o
  compile_type-fresh name none = refl
  compile_type-fresh name (some members) = refl

  compiled-Knows :
      (cache : List (ℕ × RequestTags)) (name : ℕ) (o : Outcome RequestTags)
      → in_cache name cache ≡ none
      → fresh name ≡ o
      → Knows cache (compiled split_fields struct_of apply_defaults name o)
        × (is_inside (compiled split_fields struct_of apply_defaults name o) ≡ true)
  compiled-Knows cache name (returned tags) missing is = ((missing, is), refl)
  compiled-Knows cache name (panicked e) missing is = (is, refl)

  -- A goroutine without the mutex knows nothing that a change of the cache could make wrong.
  outside-Knows :
      (cache cache' : List (ℕ × RequestTags)) (p : Phase)
      → is_inside p ≡ false
      → Knows cache p
      → Knows cache' p
  outside-Knows cache cache' (entering name) out h = tt
  outside-Knows cache cache' (locking name) out h = tt
  outside-Knows cache cache' (left name o) out h = h
  outside-Knows cache cache' (looking name) out h = cc
  outside-Knows cache cache' (compiling name) out h = cc
  outside-Knows cache cache' (storing name tags) out h = cc
  outside-Knows cache cache' (unlocking name o) out h = cc

  stored-IsOrderly :
      (i name : ℕ) (tags : RequestTags) (s : Shared)
      → s.phase i ≡ storing name tags
      → Knows s.cache (storing name tags)
      → IsOrderly s
      → IsOrderly
          (record (goes i (unlocking name (returned tags)) s) { cache = (name, tags) ∷ s.cache })
  stored-IsOrderly i name tags s at (missing, is) h = record {
    faithful = (is, h.faithful);
    once = (missing, h.once);
    owned = λ j. ground (arith, h.owned j, h.owned i);
    known = known;
  }
    where
      known :
          (j : ℕ)
          → Knows ((name, tags) ∷ s.cache) ((goes i (unlocking name (returned tags)) s).phase j)
      known j = elim (Bool-cases (i == j)) [
        | inl mine ↦ rw mine is
        | inr other ↦ rw other (
            outside-Knows s.cache ((name, tags) ∷ s.cache) (s.phase j)
              (ground (arith, h.owned j, h.owned i)) (h.known j))
      ]

  known_at : (i : ℕ) (p : Phase) (s : Shared) → s.phase i ≡ p → IsOrderly s → Knows s.cache p
  known_at i p s at h = rw at at (h.known i)

  move-IsOrderly :
      (i : ℕ) (p : Phase) (s t : Shared)
      → s.phase i ≡ p
      → IsOrderly s
      → move split_fields struct_of apply_defaults i p s ≡ some t
      → IsOrderly t
  unfolding move
  move-IsOrderly i (entering name) s t at h is =
      let (knows, out) = entered-Knows s.cache name (struct_of name) refl in
      at_some _ t is (goes-IsOrderly i (entering name) _ s at out knows h)
  move-IsOrderly i (locking name) s t at h is = elim (Option-cases s.holder) [
    | inr (j, held) ↦ absurd (ground (arith, held))
    | inl free ↦
        at_some (record (goes i (looking name) s) { holder = some i }) t (ground (arith, free))
          (record {
            faithful = h.faithful;
            once = h.once;
            owned = λ j. ground (arith, free, h.owned j, h.owned i);
            known = goes-known i (looking name) s tt h;
          })
  ]
  move-IsOrderly i (looking name) s t at h is =
      let (knows, inside) = found-Knows s.cache name (in_cache name s.cache) h.faithful refl in
      at_some _ t is (goes-IsOrderly i (looking name) _ s at inside knows h)
  move-IsOrderly i (compiling name) s t at h is =
      let (knows, inside) =
        compiled-Knows s.cache name
          (compile_type split_fields struct_of apply_defaults name (struct_of name))
          (known_at i (compiling name) s at h) (compile_type-fresh name (struct_of name)) in
      at_some _ t is (goes-IsOrderly i (compiling name) _ s at inside knows h)
  move-IsOrderly i (storing name tags) s t at h is =
      at_some _ t is (stored-IsOrderly i name tags s at (known_at i (storing name tags) s at h) h)
  move-IsOrderly i (unlocking name o) s t at h is = at_some _ t is (record {
    faithful = h.faithful;
    once = h.once;
    owned = λ j. ground (arith, h.owned j, h.owned i);
    known = goes-known i (left name o) s (known_at i (unlocking name o) s at h) h;
  })
  move-IsOrderly i (left name o) s t at h is = cc

  -- After any schedule of goroutines that call createTags, on types of any kind: the cache holds of each type that
  -- it has what the compilation of the type gives, and has no type twice; just the goroutine that holds the mutex is
  -- between Lock and Unlock; and a call that has returned or panicked did so as the compilation of its type does.
  pub Reach-IsOrderly :
      (types : ℕ → ℕ) {s : Shared}
      → Reach (step split_fields struct_of apply_defaults) (unstarted types) s
      → IsOrderly s
  unfolding step
  Reach-IsOrderly types =
      Reach-keeps (step split_fields struct_of apply_defaults) IsOrderly
        (λ i s t h is. move-IsOrderly i (s.phase i) s t refl h is)
        (record { faithful = tt; once = tt; owned = λ i. refl; known = λ i. tt })
