-- ===== src/Updates/Tags.antt =====
-- src/limit_halo/updates.py, `_version`: the tag of a release and its order.
use limit_halo.Prelude.{
  ℕ, String, Bool, true, false, ◌&&◌, Option, none, some, List, [], ◌∷◌, ◌==◌, leb, ltb, length,
  if◌then◌else◌,
}
use Prim.Native.Char.{code}
use limit_halo.Prelude.Result.{Result, ok, err, update_error, ◌>>=◌, ◌>>◌, raise_if}
use limit_halo.Claude.Frame.{codes}
use limit_halo.Discovery.Version.{cut, split, number, is_numeral}

-- The numbers of a version, whether it is no beta, and the number of the beta.
pub record TagOrder : Type 0 where
  pub major : ℕ
  pub minor : ℕ
  pub patch : ℕ
  pub stable : ℕ
  pub beta : ℕ

pub record Tag : Type 0 where
  pub numeric : String
  pub order : TagOrder
  pub is_beta : Bool

-- The order of the tuples.
abbrev pub order_lt : TagOrder → TagOrder → Bool
order_lt a b =
    if a.major == b.major
    then if a.minor == b.minor
      then if a.patch == b.patch
        then if a.stable == b.stable then ltb a.beta b.beta else ltb a.stable b.stable
        else ltb a.patch b.patch
      else ltb a.minor b.minor
    else ltb a.major b.major

-- A text without its first character where that is `v`.
abbrev pub without_v : String → String
without_v String.[] = String.[]
without_v (String.◌∷◌ c s) = if code c == b'v' then s else String.◌∷◌ c s

-- The text before the first of a character.
unfoldable pub text_before : ℕ → String → String
text_before sep String.[] = String.[]
text_before sep (String.◌∷◌ c s) =
    let rest = text_before sep s in if code c == sep then String.[] else String.◌∷◌ c rest

-- `0|[1-9][0-9]{0,5}`
abbrev is_short_numeral : List ℕ → Bool
is_short_numeral cs = is_numeral cs && leb (length cs) 6

abbrev bad_tag {ℓ} : {A : Type ℓ} → Result A
bad_tag = err (update_error "Unsupported release version")

-- `-beta\.([1-9][0-9]{0,5})`, without the dash; `none` stands for a stable version.
abbrev beta_number : Option (List ℕ) → Result (Option ℕ)
beta_number none = ok none
beta_number (some (b ∷ e ∷ t ∷ a ∷ dot ∷ cs)) =
    if b == b'b'
      && e == b'e'
      && t == b't'
      && a == b'a'
      && dot == b'.'
      && is_short_numeral cs
      && leb 1 (number cs)
    then ok (some (number cs))
    else bad_tag
beta_number (some _) = bad_tag

abbrev tag_of : String → ℕ → ℕ → ℕ → Option ℕ → Tag
tag_of numeric a b c none = record {
  numeric = numeric;
  order = record { major = a; minor = b; patch = c; stable = 1; beta = 0 };
  is_beta = false;
}
tag_of numeric a b c (some n) = record {
  numeric = numeric;
  order = record { major = a; minor = b; patch = c; stable = 0; beta = n };
  is_beta = true;
}

abbrev numbered : String → List (List ℕ) → Option ℕ → Result Tag
numbered numeric (a ∷ b ∷ c ∷ []) beta =
    if is_short_numeral a && is_short_numeral b && is_short_numeral c
    then ok (tag_of numeric (number a) (number b) (number c) beta)
    else bad_tag
numbered numeric _ beta = bad_tag

-- `_version`
unfoldable pub parse_tag : String → Result Tag
unfolding text_before
parse_tag text = do
  raise_if (ltb 40 (length (codes text))) (update_error "Unsupported release version")
  beta ← beta_number (cut b'-' (codes (without_v text))).1
  numbered (text_before b'-' (without_v text)) (split b'.' (cut b'-' (codes (without_v text))).0)
      beta
