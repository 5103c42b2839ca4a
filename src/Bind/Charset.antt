-- ===== src/Bind/Charset.antt =====
-- How charsetReader decides on an encoding.
use go_httpserver.Base.{
  ℕ, ◌≡◌, ◌≢◌, ◌⊎◌, inl, inr, Bool-cases, ◌==◌, sym, ◌∙◌, refl, arith, String, List, [], ◌∷◌, ◌++◌,
  Option, none, some,
}
use go_httpserver.State.{Reader}
use go_httpserver.PathValues.{lookup}
use go_httpserver.Bind.Library.{BindLibrary, Params, Encoding, utf16_le, utf16_be}
use go_httpserver.Bind.Body.{charset_reader, decode, decode_by, bom_reader, utf16_reader}

-- The byte-order marks.
pub data Mark : Type 0 where
  utf8 little_endian big_endian : Mark

abbrev pub bytes_of : Mark → List ℕ
bytes_of utf8 = 0xEF ∷ 0xBB ∷ 0xBF ∷ []
bytes_of little_endian = 0xFF ∷ 0xFE ∷ []
bytes_of big_endian = 0xFE ∷ 0xFF ∷ []

-- Starts with no mark.
abbrev pub IsPlain : List ℕ → Type 0
IsPlain content = (mark : Mark) (rest : List ℕ) → content ≢ bytes_of mark ++ rest

-- `content` starts with `prefix`, or not.
abbrev Starts : List ℕ → List ℕ → Type 0
Starts prefix content =
    ((rest : List ℕ) × (content ≡ prefix ++ rest)) ⊎ ((rest : List ℕ) → content ≢ prefix ++ rest)

cons-Starts :
    (x y : ℕ) (prefix content : List ℕ) → Starts prefix content → Starts (x ∷ prefix) (y ∷ content)
cons-Starts x y prefix content (inr differs) = inr (λ rest e. grind (arith, differs rest))
cons-Starts x y prefix content (inl (rest, same)) = elim (Bool-cases (y == x)) [
  | inl equal ↦ inl (rest, grind (arith, same, equal))
  | inr other ↦ inr (λ r e. grind (arith, other))
]

find-Starts : (prefix content : List ℕ) → Starts prefix content
find-Starts [] content = inl (content, refl)
find-Starts (x ∷ prefix) [] = inr (λ rest e. grind arith)
find-Starts (x ∷ prefix) (y ∷ content) = cons-Starts x y prefix content (find-Starts prefix content)

find_mark :
    (content : List ℕ)
    → ((mark : Mark) × (rest : List ℕ) × (content ≡ bytes_of mark ++ rest)) ⊎ IsPlain content
find_mark content =
    first (find-Starts (bytes_of utf8) content) (find-Starts (bytes_of little_endian) content)
      (find-Starts (bytes_of big_endian) content)
  where
    first :
        Starts (bytes_of utf8) content
        → Starts (bytes_of little_endian) content
        → Starts (bytes_of big_endian) content
        → ((mark : Mark) × (rest : List ℕ) × (content ≡ bytes_of mark ++ rest)) ⊎ IsPlain content
    first (inl (rest, e)) _ _ = inl (utf8, rest, e)
    first (inr _) (inl (rest, e)) _ = inl (little_endian, rest, e)
    first (inr _) (inr _) (inl (rest, e)) = inl (big_endian, rest, e)
    first (inr a) (inr b) (inr c) = inr (elim [ utf8 ↦ a | little_endian ↦ b | big_endian ↦ c ])

module _ {V : Type 0} (lib : BindLibrary V) where
  abbrev pub decoded_by : Mark → Reader → Reader
  decoded_by utf8 reader = reader
  decoded_by little_endian reader = lib.decoded utf16_le reader
  decoded_by big_endian reader = lib.decoded utf16_be reader

  not_utf16 :
      (reader : Reader) (content : List ℕ)
      → IsPlain content
      → utf16_reader lib reader content ≡ reader
  unfolding utf16_reader
  not_utf16 reader [] plain = refl
  not_utf16 reader (a ∷ []) plain = refl
  not_utf16 reader (a ∷ b ∷ rest) plain =
      let little = plain little_endian rest in let big = plain big_endian rest in grind arith

  unmarked :
      (reader : Reader) (content : List ℕ)
      → IsPlain content
      → bom_reader lib reader content ≡ reader
  unfolding bom_reader
  unmarked reader [] plain = not_utf16 reader [] plain
  unmarked reader (a ∷ []) plain = not_utf16 reader (a ∷ []) plain
  unmarked reader (a ∷ b ∷ []) plain = not_utf16 reader (a ∷ b ∷ []) plain
  unmarked reader (a ∷ b ∷ c ∷ rest) plain =
      let other = not_utf16 reader (a ∷ b ∷ c ∷ rest) plain in
      let utf8_not = plain utf8 rest in grind arith

  marked :
      (reader : Reader) (mark : Mark) (rest : List ℕ)
      → bom_reader lib reader (bytes_of mark ++ rest)
        ≡ decoded_by mark (record reader { content = rest })
  unfolding bom_reader utf16_reader
  marked reader utf8 rest = refl
  marked reader little_endian [] = refl
  marked reader little_endian (a ∷ rest) = refl
  marked reader big_endian [] = refl
  marked reader big_endian (a ∷ rest) = refl

  -- How a body is read, for each of the cases, which exclude one another.
  pub data Decision : Reader → Params → Option Reader → Type 0 where
    unknown :
        (reader : Reader) (params : Params) (name : String)
        → lookup "charset" params ≡ some name
        → lib.charset_lookup name ≡ none
        → Decision reader params none
    known :
        (reader : Reader) (params : Params) (name : String) (encoding : ℕ)
        → lookup "charset" params ≡ some name
        → lib.charset_lookup name ≡ some encoding
        → Decision reader params (some (lib.decoded (Encoding.named encoding) reader))
    by_mark :
        (reader : Reader) (params : Params) (mark : Mark) (rest : List ℕ)
        → lookup "charset" params ≡ none
        → reader.content ≡ bytes_of mark ++ rest
        → Decision reader params (some (decoded_by mark (record reader { content = rest })))
    plain :
        (reader : Reader) (params : Params)
        → lookup "charset" params ≡ none
        → IsPlain reader.content
        → Decision reader params (some reader)

  decode_by-Decision :
      (reader : Reader) (params : Params) (name : String) (e : Option ℕ)
      → lookup "charset" params ≡ some name
      → lib.charset_lookup name ≡ e
      → Decision reader params (decode_by lib reader e)
  decode_by-Decision reader params name none given missing =
      unknown reader params name given missing
  decode_by-Decision reader params name (some e) given found =
      known reader params name e given found

  bom_reader-Decision :
      (reader : Reader) (params : Params) (content : List ℕ)
      → lookup "charset" params ≡ none
      → reader.content ≡ content
      → Decision reader params (some (bom_reader lib reader content))
  bom_reader-Decision reader params content absent same = elim (find_mark content) [
    | inl (mark, rest, starts) ↦
        rw (starts, marked reader mark rest)
          (by_mark reader params mark rest absent (same ∙ starts))
    | inr none_is ↦
        rw (unmarked reader content none_is)
          (plain reader params absent (λ mark rest e. none_is mark rest (sym same ∙ e)))
  ]

  decode-Decision :
      (reader : Reader) (params : Params) (charset : Option String)
      → lookup "charset" params ≡ charset
      → Decision reader params (decode lib reader charset)
  unfolding decode
  decode-Decision reader params (some name) given =
      decode_by-Decision reader params name (lib.charset_lookup name) given refl
  decode-Decision reader params none absent =
      bom_reader-Decision reader params reader.content absent refl

  -- A charset parameter decides: an unknown one is refused, and the body is decoded by a known one, a
  -- byte-order mark in it included. Without it, a UTF-8, UTF-16LE or UTF-16BE mark is removed and what follows
  -- is decoded by it, and a body that starts with none of the three is read as it is.
  pub charset_reader-decides :
      (reader : Reader) (params : Params)
      → Decision reader params (charset_reader lib reader params)
  unfolding charset_reader
  charset_reader-decides reader params =
      decode-Decision reader params (lookup "charset" params) refl
