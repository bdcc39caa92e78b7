-- ===== src/Shell/Recovery.antt =====
-- The attempts to recover after a sign-in come to an end.
use mathlib.Core.Path.{subst, ◌∙◌}
use limit_halo.Prelude.{
  Bool-cases, ◌==◌, ==_iff, sym, ap, ℕ, zero, suc, ◌+◌, ◌≤◌, Bool, true, false, ◌||◌, Option, none,
  some, ◌≡◌, ◌⊎◌, inl, inr, refl, leb, arith, if_holds,
}
use limit_halo.Shell.{Meeting, recover, recoveries, next_exited, counted, follow}

-- How an attempt ends.
abbrev Ends : Meeting → ℕ → ℕ → Bool × Option (ℕ × ℕ) → Type 0
Ends m a e r =
    (r ≡ (false, none))
    ⊎ (r ≡ (true, none))
    ⊎ (r ≡ (true, some (suc a, next_exited m.exited e)))
      × (leb 47 a ≡ false)
      × (leb 3 (next_exited m.exited e) ≡ false)

recover-Ends : (m : Meeting) (a e : ℕ) → Ends m a e (recover m a e)
unfolding recover
recover-Ends m a e =
    if_holds (Ends m a e) (m.superseded || m.ready_before) (false, none) _ (λ f. inl refl)
      (λ f.
        if_holds (Ends m a e) (m.ready_after || leb 47 a || leb 3 (next_exited m.exited e))
          (true, none) _ (λ g. inr (inl refl)) (λ g. inr (inr (refl, grind arith, grind arith))))

-- The chain from an attempt ends within the fuel, with at most one refresh for each attempt.
abbrev Bounded : ℕ → Option ℕ → Type 0
Bounded most o = (n : ℕ) × (o ≡ some n) × (n ≤ most)

-- Where the client is seen to have exited at three attempts in a row, the first of them number k.
abbrev pub IsExitedAt : ℕ → (ℕ → Meeting) → Type 0
IsExitedAt k meetings =
    ((meetings k).exited ≡ true)
    × ((meetings (suc k)).exited ≡ true)
    × ((meetings (suc (suc k))).exited ≡ true)

-- How far an attempt is in them.
abbrev IsWithin : ℕ → ℕ → ℕ → Type 0
IsWithin k a e = (a ≤ k) ⊎ (a ≡ suc k) × (1 ≤ e) ⊎ (a ≡ suc (suc k)) × (2 ≤ e)

-- What is known of the attempts that follow.
abbrev More : (ℕ → Meeting) → ℕ → Type 0
More meetings zero = Unit
More meetings (suc fuel) =
    (b d : ℕ) → b + fuel ≡ 47 → Bounded (suc fuel) (recoveries (suc fuel) meetings b d)

end_step :
    (fuel : ℕ) (meetings : ℕ → Meeting) (a e : ℕ)
    → a + fuel ≡ 47
    → (r : Bool × Option (ℕ × ℕ)) → Ends (meetings a) a e r
    → More meetings fuel
    → Bounded (suc fuel) (follow r (λ b d. recoveries fuel meetings b d))
end_step fuel meetings a e h r (inl f) more =
    subst (λ x. Bounded (suc fuel) (follow x (λ b d. recoveries fuel meetings b d))) (sym f)
      (0, refl, omega arith)
end_step fuel meetings a e h r (inr (inl f)) more =
    subst (λ x. Bounded (suc fuel) (follow x (λ b d. recoveries fuel meetings b d))) (sym f)
      (1, refl, omega arith)
end_step zero meetings a e h r (inr (inr (f, g, i))) more = absurd (ground arith)
end_step (suc fuel) meetings a e h r (inr (inr (f, g, i))) more =
    let next : ℕ = next_exited (meetings a).exited e in
    let (n, ends, most) = more (suc a) next (omega (arith, h)) in
    subst (λ x. Bounded (suc (suc fuel)) (follow x (λ b d. recoveries (suc fuel) meetings b d)))
      (sym f) (suc n, ap (counted true) ends, omega (arith, most))

within_bound : (k a e : ℕ) → IsWithin k a e → a ≤ k + 2
within_bound k a e (inl h) = omega (arith, h)
within_bound k a e (inr (inl h)) = omega (arith, h.0)
within_bound k a e (inr (inr h)) = omega (arith, h.0)

counted_one :
    (o : Option ℕ) (n : ℕ) → counted true o ≡ some n → (m : ℕ) × (o ≡ some m) × (n ≡ suc m)
counted_one none n h = absurd (cc)
counted_one (some m) n h = (m, refl, cc)

-- Another attempt with the client gone.
next_one : (exited : Bool) (e : ℕ) → exited ≡ true → next_exited exited e ≡ suc e
next_one true e h = refl
next_one false e h = absurd (cc)

next-IsWithin :
    (meetings : ℕ → Meeting) (k a e : ℕ)
    → IsExitedAt k meetings
    → IsWithin k a e
    → leb 3 (next_exited (meetings a).exited e) ≡ false
    → IsWithin k (suc a) (next_exited (meetings a).exited e)
next-IsWithin meetings k a e (x, y, z) (inl h) less = elim (Bool-cases (a == k)) [
  | inl same ↦
      let at : a ≡ k = (==_iff a k).0 same in
      let gone : (meetings a).exited ≡ true = ap (λ b. (meetings b).exited) at ∙ x in
      let next : next_exited (meetings a).exited e ≡ suc e = next_one (meetings a).exited e gone in
      inr (inl (ap suc at, omega (arith, next)))
  | inr apart ↦ inl (ground (arith, h, apart))
]
next-IsWithin meetings k a e (x, y, z) (inr (inl (h, i))) less =
    let gone : (meetings a).exited ≡ true = ap (λ b. (meetings b).exited) h ∙ y in
    let next : next_exited (meetings a).exited e ≡ suc e = next_one (meetings a).exited e gone in
    inr (inr (ap suc h, omega (arith, next, i)))
next-IsWithin meetings k a e (x, y, z) (inr (inr (h, i))) less =
    let gone : (meetings a).exited ≡ true = ap (λ b. (meetings b).exited) h ∙ z in
    let next : next_exited (meetings a).exited e ≡ suc e = next_one (meetings a).exited e gone in
    let three : leb 3 (suc e) ≡ false = ap (leb 3) (sym next) ∙ less in
    absurd (ground (arith, i, three))

exited_step :
    (fuel : ℕ) (meetings : ℕ → Meeting) (k a e n : ℕ)
    → IsExitedAt k meetings
    → IsWithin k a e
    → (r : Bool × Option (ℕ × ℕ)) → Ends (meetings a) a e r
    → ((b f m : ℕ) → IsWithin k b f → recoveries fuel meetings b f ≡ some m → m + b ≤ k + 3)
    → follow r (λ b d. recoveries fuel meetings b d) ≡ some n
    → n + a ≤ k + 3
exited_step fuel meetings k a e n x within r (inl f) more h =
    let none_made : some 0 ≡ some n =
      ap (λ y. follow y (λ b d. recoveries fuel meetings b d)) (sym f) ∙ h in
    let same : 0 ≡ n = cc in
    let bound : a ≤ k + 2 = within_bound k a e within in omega (arith, same, bound)
exited_step fuel meetings k a e n x within r (inr (inl f)) more h =
    let one_made : some 1 ≡ some n =
      ap (λ y. follow y (λ b d. recoveries fuel meetings b d)) (sym f) ∙ h in
    let same : 1 ≡ n = cc in
    let bound : a ≤ k + 2 = within_bound k a e within in omega (arith, same, bound)
exited_step fuel meetings k a e n x within r (inr (inr (f, g, i))) more h =
    let next : ℕ = next_exited (meetings a).exited e in
    let made : counted true (recoveries fuel meetings (suc a) next) ≡ some n =
      ap (λ y. follow y (λ b d. recoveries fuel meetings b d)) (sym f) ∙ h in
    let (m, ends, count) = counted_one (recoveries fuel meetings (suc a) next) n made in
    let bound : m + suc a ≤ k + 3 =
      more (suc a) next m (next-IsWithin meetings k a e x within i) ends in
    omega (arith, count, bound)

recoveries_end :
    (fuel : ℕ) (meetings : ℕ → Meeting) (a e : ℕ)
    → a + fuel ≡ 47
    → Bounded (suc fuel) (recoveries (suc fuel) meetings a e)
unfolding recoveries
recoveries_end zero meetings a e h =
    end_step zero meetings a e h (recover (meetings a) a e) (recover-Ends (meetings a) a e) tt
recoveries_end (suc fuel) meetings a e h =
    end_step (suc fuel) meetings a e h (recover (meetings a) a e) (recover-Ends (meetings a) a e)
      (λ b d f. recoveries_end fuel meetings b d f)

recoveries_exited :
    (fuel : ℕ) (meetings : ℕ → Meeting) (k a e n : ℕ)
    → IsExitedAt k meetings
    → IsWithin k a e
    → recoveries fuel meetings a e ≡ some n
    → n + a ≤ k + 3
unfolding recoveries
recoveries_exited zero meetings k a e n x within h = absurd (cc)
recoveries_exited (suc fuel) meetings k a e n x within h =
    exited_step fuel meetings k a e n x within (recover (meetings a) a e)
      (recover-Ends (meetings a) a e) (λ b f m w g. recoveries_exited fuel meetings k b f m x w g) h

-- After a sign-in the attempts to recover always end: there are at most 48 refreshes, whatever the
-- attempts meet; and where the official client is seen to have exited at the attempts k, k + 1 and
-- k + 2, counted from 0, there are at most k + 3.
pub recoveries_terminate :
    (meetings : ℕ → Meeting)
    → (n : ℕ) × (recoveries 48 meetings 0 0 ≡ some n)
      × (n ≤ 48)
      × ((k : ℕ) → IsExitedAt k meetings → n ≤ k + 3)
recoveries_terminate meetings =
    let (n, ends, most) = recoveries_end 47 meetings 0 0 refl in
    (
      n,
      ends,
      most,
      λ k x.
          let bound : n + 0 ≤ k + 3 =
            recoveries_exited 48 meetings k 0 0 n x (inl (omega arith)) ends in
          omega (arith, bound),
    )
