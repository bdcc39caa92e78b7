-- ===== src/Codex/Frame/Nesting.antt =====
-- The nesting of a frame that is decoded, measured apart from the scan.
use limit_halo.Prelude.{ℕ, true, false, ◌≡◌, List, [], ◌∷◌, ◌==◌, ◌||◌, if◌then◌else◌}
use limit_halo.Prelude.Int.{ℤ, pos, negsuc, ◌+ℤ◌, leb_ℤ}
use limit_halo.Codex.Frame.{Scan}

-- Where a byte stands: outside the texts, within a text, or after a backslash of a text.
pub data Place : Type 0 where
  outside : Place
  within : Place
  after_backslash : Place

unfoldable pub next_place : Place → ℕ → Place
next_place outside c = if c == 34 then within else outside
next_place within c = if c == 92 then after_backslash else if c == 34 then outside else within
next_place after_backslash c = within

-- The brackets outside the texts: 123 and 91 open one, 125 and 93 close one.
unfoldable pub step_of : Place → ℕ → ℤ
step_of outside c =
    if c == 123 || c == 91 then pos 1 else if c == 125 || c == 93 then negsuc 0 else pos 0
step_of _ c = pos 0

-- The brackets that are open at the end of the bytes, of those opened at the start.
unfoldable pub open_at : Place → ℤ → List ℕ → ℤ
unfolding next_place step_of ◌+ℤ◌
open_at p d [] = d
open_at p d (c ∷ cs) = open_at (next_place p c) (d +ℤ step_of p c) cs

abbrev IsAt : Place → Scan → Type 0
IsAt outside s = s.in_string ≡ false × (s.escaped ≡ false)
IsAt within s = s.in_string ≡ true × (s.escaped ≡ false)
IsAt after_backslash s = s.in_string ≡ true × (s.escaped ≡ true)

abbrev pub IsShallow : ℤ → Type 0
IsShallow d = leb_ℤ d (pos 64) ≡ true

record IsStep (p : Place) (s next : Scan) (c : ℕ) : Type 0 where
  place : IsAt (next_place p c) next
  depth : next.depth ≡ s.depth +ℤ step_of p c
  shallow : IsShallow s.depth → IsShallow next.depth
