-- ===== src/Utils/Media/Laws.antt =====
-- What `extract_content_type` reads in the headers.
use connexion.Prelude.{
  String, Option, ◌≡◌, refl, ap, ◌∙◌, false, none, some, List, [], ◌∷◌, ◌++◌, arith, All, ◌≢◌,
  eq_iff,
}
use connexion.Prelude.Text.{◌<>◌, join, lower, has_char, strip_prefix}
use connexion.Prelude.Text.Split.{
  cut-first, cut-none, split-join, split_all-one, strip_prefix-append, strip_prefix-none,
}
use connexion.Prelude.Text.Laws.{one}
use Prim.Native.Char.{Char, char}
use connexion.Utils.Media.{extract_content_type, charset_of, or_encoding}

abbrev pub semicolon : Char
semicolon = char b';' tt

-- Headers behind a prefix without a content type.
extract_content_type-skip :
    (front rest : List (String × String))
    → All (λ h. lower h.0 ≢ "content-type") front
    → extract_content_type (front ++ rest) ≡ extract_content_type rest
unfolding extract_content_type
extract_content_type-skip [] rest other = refl
extract_content_type-skip ((key, value) ∷ front) rest (differs, other) =
    ground (arith, eq_iff (lower key) "content-type", extract_content_type-skip front rest other)

-- the value of a content type with parameters
unfoldable pub value_of : (mime : String) → (parameters : List String) → String
unfolding join
value_of mime [] = mime
value_of mime (p ∷ ps) = mime <> String.◌∷◌ semicolon (join (one semicolon) (p ∷ ps))

-- The charset that the last parameter names that begins with `charset=`, if there is one.
pub data LastCharset : List String → Option String → Type 0 where
  no_parameter : LastCharset [] none
  last :
      {encoding : String} {ps : List String}
      → LastCharset ps none
      → LastCharset (("charset=" <> encoding) ∷ ps) (some encoding)
  later :
      {p encoding : String} {ps : List String}
      → LastCharset ps (some encoding)
      → LastCharset (p ∷ ps) (some encoding)
  another :
      {p : String} {ps : List String}
      → ((encoding : String) → p ≢ "charset=" <> encoding)
      → LastCharset ps none
      → LastCharset (p ∷ ps) none

charset_of-LastCharset :
    {ps : List String} {o : Option String} (found : Option String)
    → LastCharset ps o
    → charset_of found ps ≡ or_encoding found o
unfolding charset_of
charset_of-LastCharset found LastCharset.no_parameter = refl
charset_of-LastCharset found (LastCharset.last {encoding = e} {ps = ps} h) =
    ap (λ o. charset_of (or_encoding found o) ps) (strip_prefix-append "charset=" e)
    ∙ charset_of-LastCharset (some e) h
charset_of-LastCharset found (LastCharset.later {p = p} h) =
    charset_of-LastCharset (or_encoding found (strip_prefix "charset=" p)) h
charset_of-LastCharset found (LastCharset.another {p = p} {ps = ps} other h) =
    ap (λ o. charset_of (or_encoding found o) ps) (strip_prefix-none "charset=" p other)
    ∙ charset_of-LastCharset found h

none-or_encoding : (o : Option String) → or_encoding none o ≡ o
none-or_encoding none = refl
none-or_encoding (some e) = refl

module _ (front rest : List (String × String)) (key mime : String)
    (other : All (λ h. lower h.0 ≢ "content-type") front) (is_key : lower key ≡ "content-type")
    (bare : has_char b';' mime ≡ false) where
  -- The first header named Content-Type decides. Its media type is what stands before the first `;`, and
  -- the encoding is what the last parameter names that begins with `charset=` at once. There is none if
  -- no parameter begins so: a space behind the `;` belongs to the parameter.
  pub extract_content_type-LastCharset :
      (parameters : List String) {encoding : Option String}
      → All (λ p. has_char b';' p ≡ false) parameters
      → LastCharset parameters encoding
      → extract_content_type (front ++ (key, value_of mime parameters) ∷ rest)
        ≡ (some mime, encoding)
  unfolding extract_content_type value_of
  extract_content_type-LastCharset [] {encoding} apart h =
      extract_content_type-skip front ((key, mime) ∷ rest) other
      ∙ rw (is_key, cut-none b';' mime bare)
          (ap (λ o. (some mime, o)) (charset_of-LastCharset none h ∙ none-or_encoding encoding))
  extract_content_type-LastCharset (p ∷ ps) {encoding} apart h =
      extract_content_type-skip front ((key, value_of mime (p ∷ ps)) ∷ rest) other
      ∙ rw
          (
            is_key,
            cut-first semicolon mime (join (one semicolon) (p ∷ ps)) bare,
            split-join semicolon p ps,
            split_all-one b';' (p ∷ ps) apart,
          )
          (ap (λ o. (some mime, o)) (charset_of-LastCharset none h ∙ none-or_encoding encoding))
