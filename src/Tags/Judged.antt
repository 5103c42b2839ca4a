-- ===== src/Tags/Judged.antt =====
-- The checks of the compilation, one by one, against the lists of the tagged fields.
use go_httpserver.Base.{
  ℕ, ◌==◌, Bool, true, false, not, ◌&&◌, Option, none, String, List, [], ◌++◌, ◌≡◌, ◌⊎◌, refl, sym,
  ap, ◌∙◌, arith, if◌then◌else◌, Bool-cases, inl, inr,
}
use mathlib.Core.List.{append_assoc, append-nil}
use go_httpserver.Effect.{Outcome, returned, panicked}
use go_httpserver.Tags.{
  Source, RequestTags, header, cookie, query, url, form, json, multipart, body,
}
use go_httpserver.Tags.Compile.{FieldType, then_check, ◌>=>◌, bit}
use go_httpserver.Tags.Shape.{Tagged, is_empty, allowed, index_of, listed, tag_of, allowed-append}

-- The flag and the index path of a source are those of its tagged fields, which are allowed.
pub record IsLaid (s : Source) (xs : List Tagged) (flag : Bool) (index : Option (List ℕ))
    : Type 0 where
  pub fine : allowed s xs ≡ true
  pub flagged : flag ≡ not (is_empty xs)
  pub indexed : index ≡ index_of s xs

module _ (split_fields : String → List String) where
  -- The tags are those of the tagged fields `T`.
  pub record Describes (T : Source → List Tagged) (t : RequestTags) : Type 0 where
    pub laid : (s : Source) → IsLaid s (T s) (t.flags s) (t.field_index s)
    pub types : t.body_content_types ≡ listed split_fields (T body)

  -- Tags that are made describe the fields, and `embeds` is true; a panic means that some source has fields that are not
  -- allowed, or that `embeds` is false.
  abbrev pub Judged : (Source → List Tagged) → Bool → Outcome RequestTags → Type 0
  Judged T embeds (returned t) = Describes T t × (embeds ≡ true)
  Judged T embeds (panicked e) = ((s : Source) × (allowed s (T s) ≡ false)) ⊎ (embeds ≡ false)

  -- A check of the fields `D`, after any others.
  abbrev pub Judges : (Source → List Tagged) → Bool → (RequestTags → Outcome RequestTags) → Type 0
  Judges D embeds f =
      (T : Source → List Tagged) (t : RequestTags)
      → Describes T t
      → Judged (λ s. T s ++ D s) embeds (f t)

  pub same_Judged :
      (T T' : Source → List Tagged) (embeds : Bool) (r : Outcome RequestTags)
      → ((s : Source) → T s ≡ T' s)
      → Judged T embeds r
      → Judged T' embeds r
  same_Judged T T' embeds (returned t) same (h, e) =
      (record { laid = λ s. rw (← same s) (h.laid s); types = rw (← same body) h.types }, e)
  same_Judged T T' embeds (panicked e) same (inl (s, h)) = inl (s, rw (← same s) h)
  same_Judged T T' embeds (panicked e) same (inr h) = inr h

  pub then_check-Judged :
      (T D : Source → List Tagged) (embeds embeds' : Bool) (r : Outcome RequestTags)
      (f : RequestTags → Outcome RequestTags)
      → Judged T embeds r
      → Judges D embeds' f
      → Judged (λ s. T s ++ D s) (embeds && embeds') (then_check r f)
  then_check-Judged T D embeds embeds' (panicked e) f (inl (s, h)) g =
      inl (s, allowed-append s (T s) (D s) h)
  then_check-Judged T D embeds embeds' (panicked e) f (inr h) g = inr (rw h)
  then_check-Judged T D embeds embeds' (returned t) f (h, e) g = both (f t) (g T t h)
    where
      both :
          (r : Outcome RequestTags)
          → Judged (λ s. T s ++ D s) embeds' r
          → Judged (λ s. T s ++ D s) (embeds && embeds') r
      both (returned t') (k, e') = (k, ground (arith, e, e'))
      both (panicked e) (inl k) = inl k
      both (panicked e) (inr k) = inr (ground (arith, k))

  pub after_Judges :
      (D D' : Source → List Tagged) (f g : RequestTags → Outcome RequestTags)
      → Judges D true f
      → Judges D' true g
      → Judges (λ s. D s ++ D' s) true (f >=> g)
  unfolding ◌>=>◌
  after_Judges D D' f g hf hg T t h =
      same_Judged (λ s. (T s ++ D s) ++ D' s) (λ s. T s ++ (D s ++ D' s)) true _
        (λ s. append_assoc (T s) (D s) (D' s))
        (then_check-Judged (λ s. T s ++ D s) D' true true (f t) g (hf T t h) hg)

-- The field, among those of one source.
abbrev pub only_of : Source → List ℕ → FieldType → Option String → Source → List Tagged
only_of source path type tag s = if bit s == bit source then tag_of path type tag else []

abbrev of_bit : ℕ → Source
of_bit n =
    if n == 0
    then header
    else if n == 1
    then cookie
    else if n == 2
    then query
    else if n == 3
    then url
    else if n == 4
    then form
    else if n == 5
    then json
    else if n == 6
    then multipart
    else body

of_bit-bit : (s : Source) → of_bit (bit s) ≡ s
of_bit-bit header = refl
of_bit-bit cookie = refl
of_bit-bit query = refl
of_bit-bit url = refl
of_bit-bit form = refl
of_bit-bit json = refl
of_bit-bit multipart = refl
of_bit-bit body = refl

bit_injective : (s s' : Source) → (bit s == bit s') ≡ true → s ≡ s'
bit_injective s s' h =
    let same : bit s ≡ bit s' = ground arith in sym (of_bit-bit s) ∙ ap of_bit same ∙ of_bit-bit s'

only_of_self :
    (source : Source) (path : List ℕ) (type : FieldType) (tag : Option String)
    → only_of source path type tag source ≡ tag_of path type tag
only_of_self source path type tag = ground arith

module _ (split_fields : String → List String) (source : Source) (path : List ℕ) (type : FieldType)
    (T : Source → List Tagged) (t : RequestTags) (h : Describes split_fields T t) where
  -- The field is refused.
  pub refused :
      (tag : Option String)
      → allowed source (T source ++ tag_of path type tag) ≡ false
      → (s : Source) × (allowed s (T s ++ only_of source path type tag s) ≡ false)
  refused tag no_field = (source, rw (only_of_self source path type tag) no_field)

  -- The tags `t'` are those of before but for the source, of which they describe one more field.
  pub taken_in :
      (tag : Option String) (t' : RequestTags)
      → IsLaid source (T source ++ tag_of path type tag) (t'.flags source) (t'.field_index source)
      → ((s : Source)
          → (bit s == bit source) ≡ false
          → (t'.flags s ≡ t.flags s) × (t'.field_index s ≡ t.field_index s))
      → t'.body_content_types ≡ listed split_fields (T body ++ only_of source path type tag body)
      → Judged split_fields (λ s. T s ++ only_of source path type tag s) true (returned t')
  taken_in tag t' own others types = (
    record {
      laid = λ s. elim (Bool-cases (bit s == bit source)) [
        | inl is_it ↦ rw (bit_injective s source is_it, only_of_self source path type tag) own
        | inr other ↦
            rw (other, append-nil (T s), (others s other).0, (others s other).1) (h.laid s)
      ];
      types = types;
    },
    refl,
  )

  pub no_tag : Judged split_fields (λ s. T s ++ only_of source path type none s) true (returned t)
  no_tag =
      same_Judged split_fields T (λ s. T s ++ only_of source path type none s) true (returned t)
        (λ s. ground (arith, append-nil (T s))) (h, refl)
