-- ===== src/Prelude/Decimal.antt =====
-- The decimal text of a number, as Python formats an `int`.
use Prim.Native.Nat.{ℕ, zero, suc, ◌/◌, ◌%◌}
use Prim.Native.String.{String, ◌++◌ as str_append}
use mathlib.Core.List.{List, [], ◌∷◌}
use limit_halo.Prelude.Tests.{ltb, if◌then◌else◌}

nth_text : ℕ → List String → String
nth_text n [] = ""
nth_text zero (t ∷ ts) = t
nth_text (suc n) (t ∷ ts) = nth_text n ts

abbrev digit_texts : List String
digit_texts = "0" ∷ "1" ∷ "2" ∷ "3" ∷ "4" ∷ "5" ∷ "6" ∷ "7" ∷ "8" ∷ "9" ∷ []

-- The text of a digit.
unfoldable pub digit : ℕ → String
unfolding nth_text
digit n = nth_text n digit_texts

unfoldable digits : ℕ → ℕ → String
unfolding nth_text
digits zero n = ""
digits (suc fuel) n =
    let front = digits fuel (n / 10) in
    if ltb n 10 then nth_text n digit_texts else str_append front (nth_text (n % 10) digit_texts)

-- Twenty digits are enough for every number of 64 bits.
unfoldable pub decimal : ℕ → String
unfolding digits
decimal n = digits 20 n
