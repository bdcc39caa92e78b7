-- ===== src/Discovery/Version.antt =====
-- src/limit_halo/codex_discovery.py, `Version`: a bounded semantic version and its order.
pub mod Order
use limit_halo.Prelude.{
  ℕ, ◌+◌, ◌*◌, ◌-◌, Bool, true, false, ◌&&◌, ◌||◌, not, Option, none, some, List, [], ◌∷◌, ◌==◌,
  leb, ltb, length, all, if◌then◌else◌,
}
use limit_halo.Prelude.Result.{Result, ok, err, discovery_failure, ◌>>◌, raise_if}

-- Four components of a version, and the identifiers of its prerelease. Texts are code points.
pub record Version : Type 0 where
  pub major : ℕ
  pub minor : ℕ
  pub patch : ℕ
  pub build : ℕ
  pub prerelease : List (List ℕ)

abbrev pub is_digit : ℕ → Bool
is_digit c = leb b'0' c && leb c b'9'

abbrev pub is_name : ℕ → Bool
is_name c = is_digit c || leb b'A' c && leb c b'Z' || leb b'a' c && leb c b'z' || c == b'-'

-- `int(text)` of digits.
unfoldable pub number_from : ℕ → List ℕ → ℕ
number_from n [] = n
number_from n (c ∷ cs) = number_from (n * 10 + (c - b'0')) cs

abbrev pub number : List ℕ → ℕ
number = number_from 0

-- `text.isdecimal()` of an ASCII text.
abbrev pub is_decimal : List ℕ → Bool
is_decimal [] = false
is_decimal cs = all is_digit cs

-- The text before the first separator, and the one after it where there is one.
unfoldable pub cut : ℕ → List ℕ → List ℕ × Option (List ℕ)
cut sep [] = ([], none)
cut sep (c ∷ cs) = let rest = cut sep cs in if c == sep then ([], some cs) else (c ∷ rest.0, rest.1)

abbrev join_first : Bool → ℕ → List (List ℕ) → List (List ℕ)
join_first true c parts = [] ∷ parts
join_first false c [] = (c ∷ []) ∷ []
join_first false c (part ∷ parts) = (c ∷ part) ∷ parts

-- `text.split(separator)`
unfoldable pub split : ℕ → List ℕ → List (List ℕ)
split sep [] = [] ∷ []
split sep (c ∷ cs) = join_first (c == sep) c (split sep cs)

abbrev pub same_text : List ℕ → List ℕ → Bool
same_text [] [] = true
same_text (a ∷ xs) (b ∷ ys) = a == b && same_text xs ys
same_text _ _ = false

-- The order of texts, by code points.
unfoldable pub text_lt : List ℕ → List ℕ → Bool
text_lt [] [] = false
text_lt [] (b ∷ ys) = true
text_lt (a ∷ xs) [] = false
text_lt (a ∷ xs) (b ∷ ys) = if a == b then text_lt xs ys else ltb a b

-- `0|[1-9][0-9]*`
abbrev pub is_numeral : List ℕ → Bool
is_numeral [] = false
is_numeral (c ∷ []) = is_digit c
is_numeral (c ∷ cs) = leb b'1' c && leb c b'9' && all is_digit cs

-- `[0-9A-Za-z-]+(\.[0-9A-Za-z-]+)*`
abbrev is_identifier : List ℕ → Bool
is_identifier cs = leb 1 (length cs) && all is_name cs

abbrev are_identifiers : Option (List ℕ) → Bool
are_identifiers none = true
are_identifiers (some cs) = all is_identifier (split b'.' cs)

abbrev max_semver_component : ℕ
max_semver_component = 65_535

abbrev max_component_text : List ℕ
max_component_text = b'6' ∷ b'5' ∷ b'5' ∷ b'3' ∷ b'5' ∷ []

abbrev is_long : List ℕ → Bool
is_long cs = ltb 5 (length cs) || length cs == 5 && text_lt max_component_text cs

abbrev leading_zero : List ℕ → Bool
leading_zero [] = false
leading_zero (c ∷ []) = false
leading_zero (c ∷ cs) = c == b'0' && is_decimal (c ∷ cs)

-- The tests of `__post_init__` on an identifier of a prerelease.
abbrev pub is_prerelease_item : List ℕ → Bool
is_prerelease_item cs =
    leb 1 (length cs) && leb (length cs) 64 && all is_name cs && not (leading_zero cs)

-- `Version.__post_init__`
unfoldable pub make_version : ℕ → ℕ → ℕ → ℕ → List (List ℕ) → Result Version
make_version a b c d items = do
  raise_if
      (not (
        leb a max_semver_component
        && leb b max_semver_component
        && leb c max_semver_component
        && leb d max_semver_component))
      (discovery_failure "semantic version component out of range")
  raise_if (ltb 16 (length items)) (discovery_failure "semantic prerelease is too large")
  raise_if (not (all is_prerelease_item items)) (discovery_failure "invalid semantic prerelease")
  ok (record { major = a; minor = b; patch = c; build = d; prerelease = items })

abbrev prerelease_items : Option (List ℕ) → List (List ℕ)
prerelease_items none = []
prerelease_items (some cs) = split b'.' cs

-- The four groups of digits.
unfoldable pub version_of_four : List ℕ → List ℕ → List ℕ → List ℕ → List (List ℕ) → Result Version
unfolding text_lt number_from make_version
version_of_four a b c d items =
    if is_numeral a && is_numeral b && is_numeral c && is_numeral d
    then (raise_if (is_long a || is_long b || is_long c || is_long d)
          (discovery_failure "semantic version component out of range")
        >> make_version (number a) (number b) (number c) (number d) items)
    else err (discovery_failure "invalid semantic version")

-- The fourth group is optional.
unfoldable pub version_of : List (List ℕ) → List (List ℕ) → Result Version
unfolding version_of_four
version_of (a ∷ b ∷ c ∷ []) items = version_of_four a b c (b'0' ∷ []) items
version_of (a ∷ b ∷ c ∷ d ∷ []) items = version_of_four a b c d items
version_of _ items = err (discovery_failure "invalid semantic version")

-- The text before the build metadata: the numbers and the prerelease.
unfoldable pub parse_front : List ℕ × Option (List ℕ) → Result Version
unfolding version_of
parse_front (core, pre) =
    if are_identifiers pre
    then version_of (split b'.' core) (prerelease_items pre)
    else err (discovery_failure "invalid semantic version")

-- `Version.parse`
unfoldable pub parse_version : List ℕ → Result Version
unfolding parse_front
parse_version text = do
  raise_if (not (leb 1 (length text) && leb (length text) 256))
      (discovery_failure "semantic version text is too large")
  raise_if (not (are_identifiers (cut b'+' text).1)) (discovery_failure "invalid semantic version")
  parse_front (cut b'-' (cut b'+' text).0)

-- The order of the numbers, as tuples.
abbrev pub numbers_lt : Version → Version → Bool
numbers_lt a b =
    if a.major == b.major
    then if a.minor == b.minor
      then if a.patch == b.patch then ltb a.build b.build else ltb a.patch b.patch
      else ltb a.minor b.minor
    else ltb a.major b.major

abbrev pub same_numbers : Version → Version → Bool
same_numbers a b =
    a.major == b.major && a.minor == b.minor && a.patch == b.patch && a.build == b.build

-- Two identifiers that differ.
unfoldable pub item_lt : List ℕ → List ℕ → Bool
item_lt a b =
    if is_decimal a && is_decimal b
    then ltb (number a) (number b)
    else if is_decimal a || is_decimal b
    then is_decimal a
    else text_lt a b

-- The identifiers in their order; a text that continues another one is later.
unfoldable pub items_lt : List (List ℕ) → List (List ℕ) → Bool
unfolding item_lt
items_lt [] [] = false
items_lt [] (b ∷ ys) = true
items_lt (a ∷ xs) [] = false
items_lt (a ∷ xs) (b ∷ ys) =
    let later = items_lt xs ys in if same_text a b then later else item_lt a b

abbrev pub prerelease_lt : List (List ℕ) → List (List ℕ) → Bool
prerelease_lt [] other = false
prerelease_lt own [] = true
prerelease_lt own other = items_lt own other

-- `Version.__lt__`
unfoldable pub version_lt : Version → Version → Bool
unfolding items_lt
version_lt a b =
    if same_numbers a b then prerelease_lt a.prerelease b.prerelease else numbers_lt a b

abbrev same_items : List (List ℕ) → List (List ℕ) → Bool
same_items [] [] = true
same_items (a ∷ xs) (b ∷ ys) = same_text a b && same_items xs ys
same_items _ _ = false

-- The equality of the dataclass.
unfoldable pub same_version : Version → Version → Bool
same_version a b = same_numbers a b && same_items a.prerelease b.prerelease
