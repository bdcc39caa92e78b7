-- ===== src/Config/Clock.antt =====
-- Local times of the day: the text that is written, read back.
use limit_halo.Prelude.{
  if_holds, ℕ, zero, suc, ◌+◌, ◌*◌, ◌/◌, ◌%◌, ◌<◌, ◌≤◌, String, ◌≡◌, refl, sym, ap, ◌∙◌, Option,
  none, some, [], ◌∷◌, ◌++◌, arith, leb, leb→le,
}
use Prim.Native.String.{◌++◌ as str_append}
use text.Mathlib.TextLemmas.{nil-append, cons-append}
use limit_halo.Prelude.Decimal.{digit}
use limit_halo.Json.{str}
use limit_halo.Claude.Frame.{codes}
use limit_halo.Config.Decode.{parse_minutes, format_minutes, parse_clock, two_digits}

codes-append : (s t : String) → codes (str_append s t) ≡ codes s ++ codes t
codes-append String.[] t = ap codes (nil-append t)
codes-append (String.◌∷◌ c s) t =
    ap codes (cons-append c s t)
    ∙ ap (λ cs. codes (String.◌∷◌ c String.[]) ++ cs) (codes-append s t)

codes-digit : (n : ℕ) → n < 10 → codes (digit n) ≡ (n + 48) ∷ []
unfolding digit
codes-digit zero h = refl
codes-digit (suc zero) h = refl
codes-digit (suc (suc zero)) h = refl
codes-digit (suc (suc (suc zero))) h = refl
codes-digit (suc (suc (suc (suc zero)))) h = refl
codes-digit (suc (suc (suc (suc (suc zero))))) h = refl
codes-digit (suc (suc (suc (suc (suc (suc zero)))))) h = refl
codes-digit (suc (suc (suc (suc (suc (suc (suc zero))))))) h = refl
codes-digit (suc (suc (suc (suc (suc (suc (suc (suc zero)))))))) h = refl
codes-digit (suc (suc (suc (suc (suc (suc (suc (suc (suc zero))))))))) h = refl
codes-digit (suc (suc (suc (suc (suc (suc (suc (suc (suc (suc n)))))))))) h =
    absurd (omega (arith, h))

codes-two_digits : (n : ℕ) → n < 100 → codes (two_digits n) ≡ (n / 10 + 48) ∷ (n % 10 + 48) ∷ []
codes-two_digits n h = rw (
  codes-append (digit (n / 10)) (digit (n % 10)),
  codes-digit (n / 10) (omega (arith, h)),
  codes-digit (n % 10) (omega arith),
)

clock_of_digits :
    (a b c d : ℕ)
    → a < 10
    → b < 10
    → c < 10
    → d < 10
    → a * 10 + b ≤ 23
    → c * 10 + d ≤ 59
    → parse_clock ((a + 48) ∷ (b + 48) ∷ 58 ∷ (c + 48) ∷ (d + 48) ∷ [])
      ≡ some ((a * 10 + b) * 60 + (c * 10 + d))
unfolding parse_clock
clock_of_digits a b c d ha hb hc hd hh hm = ground arith

clock_of_minutes :
    (m : ℕ)
    → m ≤ 1439
    → parse_clock (
        (m / 60 / 10 + 48) ∷ (m / 60 % 10 + 48) ∷ 58 ∷ (m % 60 / 10 + 48) ∷ (m % 60 % 10 + 48) ∷ [])
      ≡ some m
clock_of_minutes m h =
    clock_of_digits (m / 60 / 10) (m / 60 % 10) (m % 60 / 10) (m % 60 % 10) (omega (arith, h))
      (omega arith) (omega arith) (omega arith) (omega (arith, h)) (omega arith)
    ∙ ap some (omega arith)

abbrev clock_text : ℕ → String
clock_text m = str_append (two_digits (m / 60)) (str_append ":" (two_digits (m % 60)))

codes-clock_text :
    (m : ℕ)
    → m ≤ 1439
    → codes (clock_text m)
      ≡ (m / 60 / 10 + 48) ∷ (m / 60 % 10 + 48) ∷ 58 ∷ (m % 60 / 10 + 48) ∷ (m % 60 % 10 + 48) ∷ []
codes-clock_text m h = rw (
  codes-append (two_digits (m / 60)) (str_append ":" (two_digits (m % 60))),
  codes-append ":" (two_digits (m % 60)),
  codes-two_digits (m / 60) (omega (arith, h)),
  codes-two_digits (m % 60) (omega arith),
)

parse_clock-clock_text : (m : ℕ) → m ≤ 1439 → parse_clock (codes (clock_text m)) ≡ some m
parse_clock-clock_text m h = ap parse_clock (codes-clock_text m h) ∙ clock_of_minutes m h

-- A time of the day that is formatted is parsed back to the same minutes.
pub parse_minutes-format_minutes :
    (m : ℕ) (t : String) → format_minutes m ≡ some t → parse_minutes (str t) ≡ some m
unfolding format_minutes parse_minutes
parse_minutes-format_minutes m t h =
    if_holds (λ (o : Option String). o ≡ some t → parse_clock (codes t) ≡ some m) (leb m 1439)
      (some (clock_text m)) none
      (λ e f.
        let same : clock_text m ≡ t = cc in
        ap (λ s. parse_clock (codes s)) (sym same) ∙ parse_clock-clock_text m (leb→le m 1439 e))
      (λ e f. cc) h
