-- ===== src/Config/Strict/Ascii.antt =====
-- Settings keys are ASCII: Python's Unicode tables on ASCII text.
use limit_halo.Prelude.{
  both_true, ℕ, ◌+◌, String, Bool, true, false, ◌&&◌, ◌||◌, List, [], ◌∷◌, map, leb, ltb, any, all,
  if◌then◌else◌, ◌≡◌, refl, ap, ◌∙◌,
}
use limit_halo.Claude.Frame.{codes}
use limit_halo.Config.Extension.{
  Unicode, normalized_key, has_forbidden_key, forbidden_persisted_fragments, filter,
  contains_fragment, v3_keys,
}

abbrev pub lower : ℕ → ℕ
lower c = if leb b'A' c && leb c b'Z' then c + 32 else c

abbrev pub ascii_alnum : ℕ → Bool
ascii_alnum c = leb b'0' c && leb c b'9' || leb b'A' c && leb c b'Z' || leb b'a' c && leb c b'z'

abbrev pub is_ascii : List ℕ → Bool
is_ascii = all (λ c. ltb c 128)

-- What the Unicode tables say of ASCII text.
pub record IsUnicode (u : Unicode) : Type 0 where
  pub folds : (s : String) → is_ascii (codes s) ≡ true → u.casefold s ≡ map lower (codes s)
  pub classes : (c : ℕ) → ltb c 128 ≡ true → u.is_alnum c ≡ ascii_alnum c

module _ (u : Unicode) (h : IsUnicode u) where
  filter_ascii : (cs : List ℕ) → is_ascii cs ≡ true → filter u.is_alnum cs ≡ filter ascii_alnum cs
  filter_ascii [] e = refl
  filter_ascii (c ∷ cs) e =
      let (first, rest) = both_true (ltb c 128) (is_ascii cs) e in
      rw (h.classes c first, filter_ascii cs rest)

abbrev ascii_key : String → List ℕ
ascii_key key = filter ascii_alnum (map lower (codes key))

abbrev is_plain : String → Bool
is_plain key = is_ascii (codes key) && is_ascii (map lower (codes key))

abbrev ascii_forbidden : List String → Bool
ascii_forbidden ks =
    any
      (λ key.
        any (λ fragment. contains_fragment (filter ascii_alnum (codes fragment)) (ascii_key key))
          forbidden_persisted_fragments)
      ks

any_same {ℓ} :
    {A : Type ℓ} (f g test : A → Bool) (xs : List A)
    → ((x : A) → test x ≡ true → f x ≡ g x)
    → all test xs ≡ true
    → any f xs ≡ any g xs
any_same f g test [] h e = refl
any_same f g test (x ∷ xs) h e =
    let (first, rest) = both_true (test x) (all test xs) e in
    rw (h x first, any_same f g test xs h rest)

module _ (u : Unicode) (h : IsUnicode u) where
  normalized_key_lem : (key : String) → is_plain key ≡ true → normalized_key u key ≡ ascii_key key
  unfolding normalized_key
  normalized_key_lem key e =
      let (first, rest) = both_true (is_ascii (codes key)) (is_ascii (map lower (codes key))) e in
      ap (filter u.is_alnum) (h.folds key first) ∙ filter_ascii u h (map lower (codes key)) rest

  fragment_same :
      (key fragment : String)
      → is_plain key ≡ true
      → is_ascii (codes fragment) ≡ true
      → contains_fragment (filter u.is_alnum (codes fragment)) (normalized_key u key)
        ≡ contains_fragment (filter ascii_alnum (codes fragment)) (ascii_key key)
  fragment_same key fragment k f =
      rw (filter_ascii u h (codes fragment) f, normalized_key_lem key k)

  forbidden_ascii :
      (ks : List String) → all is_plain ks ≡ true → has_forbidden_key u ks ≡ ascii_forbidden ks
  unfolding has_forbidden_key
  forbidden_ascii ks e =
      any_same _ _ is_plain ks
        (λ key k.
          any_same _ _ (λ fragment. is_ascii (codes fragment)) forbidden_persisted_fragments
            (λ fragment f. fragment_same key fragment k f) refl)
        e

  -- None of the schema's own keys is forbidden.
  pub v3_keys_allowed : has_forbidden_key u v3_keys ≡ false
  v3_keys_allowed = forbidden_ascii v3_keys refl
