-- ===== src/Tags/Cached.antt =====
-- The cache of createTags.
use go_httpserver.Base.{
  ℕ, ◌≡◌, refl, arith, ap, sym, ◌∙◌, Option, none, some, String, List, [], ◌∷◌, ⊤, ◌==◌, Bool-cases,
  inl, inr,
}
use go_httpserver.Effect.{Panic, bug, Outcome, returned, panicked}
use go_httpserver.Tags.{RequestTags}
use go_httpserver.Tags.Compile.{
  Fields, cached, compile, store, look_up, create_struct_tags, create_tags,
}

module _ (split_fields : String → List String) (struct_of : ℕ → Option Fields)
    (apply_defaults : ℕ → Option Panic) where
  -- createTags without a cache.
  abbrev pub fresh_tags : ℕ → Option Fields → Outcome RequestTags
  fresh_tags name none = panicked (bug "BUG: parsed request must be a struct")
  fresh_tags name (some fields) = compile split_fields struct_of apply_defaults name fields

  -- What the cache holds of each type is what the compilation of the type gives.
  abbrev pub IsFaithful : List (ℕ × RequestTags) → Type 0
  IsFaithful [] = ⊤
  IsFaithful ((name, tags) ∷ cache) =
      (fresh_tags name (struct_of name) ≡ returned tags) × IsFaithful cache

  pub cached-IsFaithful :
      (name : ℕ) (cache : List (ℕ × RequestTags)) (tags : RequestTags)
      → IsFaithful cache
      → cached split_fields struct_of apply_defaults name cache ≡ some tags
      → fresh_tags name (struct_of name) ≡ returned tags
  unfolding cached
  cached-IsFaithful name [] tags h found = grind arith
  cached-IsFaithful name ((n, t) ∷ cache) tags (same, h) found = elim (Bool-cases (n == name)) [
    | inl equal ↦
        let at : name ≡ n = ground arith in
        let stored : t ≡ tags = grind arith in rw at (same ∙ ap returned stored)
    | inr other ↦ cached-IsFaithful name cache tags h (grind arith)
  ]

  -- On a cache that holds of each type what its compilation gives, createTags gives what the
  -- compilation of the type gives, with the same panic where it panics, and the cache stays such a cache.
  pub create_tags-IsFaithful :
      (name : ℕ) (cache : List (ℕ × RequestTags))
      → IsFaithful cache
      → ((create_tags split_fields struct_of apply_defaults name cache).0
          ≡ fresh_tags name (struct_of name))
        × IsFaithful (create_tags split_fields struct_of apply_defaults name cache).1
  unfolding create_tags
  create_tags-IsFaithful name cache h = on_struct (struct_of name) refl
    where
      on_store :
          (r : Outcome RequestTags)
          → fresh_tags name (struct_of name) ≡ r
          → ((store split_fields struct_of apply_defaults name r cache).0
              ≡ fresh_tags name (struct_of name))
            × IsFaithful (store split_fields struct_of apply_defaults name r cache).1
      on_store (returned tags) e = (sym e, (e, h))
      on_store (panicked p) e = (sym e, h)

      on_cached :
          (members : Fields) (c : Option RequestTags)
          → struct_of name ≡ some members
          → cached split_fields struct_of apply_defaults name cache ≡ c
          → ((look_up split_fields struct_of apply_defaults name members c cache).0
              ≡ fresh_tags name (struct_of name))
            × IsFaithful (look_up split_fields struct_of apply_defaults name members c cache).1
      on_cached members none is found = on_store _ (ap (fresh_tags name) is)
      on_cached members (some tags) is found = (sym (cached-IsFaithful name cache tags h found), h)

      on_struct :
          (o : Option Fields)
          → struct_of name ≡ o
          → ((create_struct_tags split_fields struct_of apply_defaults name o cache).0
              ≡ fresh_tags name (struct_of name))
            × IsFaithful (create_struct_tags split_fields struct_of apply_defaults name o cache).1
      on_struct none is = (sym (ap (fresh_tags name) is), h)
      on_struct (some members) is = on_cached members _ is refl
