-- ===== src/Discovery/Version/Order.antt =====
-- The order of versions.
use mathlib.Core.Path.{subst}
use limit_halo.Prelude.{
  if_skipped, if_taken, both_true, ==_iff, ◌⊎◌, inl, inr, Bool-cases, sym, ◌∙◌, ℕ, true, false,
  List, [], ◌∷◌, ◌==◌, ◌≡◌, refl, arith,
}
use limit_halo.Discovery.Version.{
  Version, version_lt, items_lt, item_lt, text_lt, same_text, prerelease_lt,
}

text_lt_trans : (a b c : List ℕ) → text_lt a b ≡ true → text_lt b c ≡ true → text_lt a c ≡ true
unfolding text_lt
text_lt_trans [] [] c h k = cc
text_lt_trans [] (y ∷ b) [] h k = cc
text_lt_trans [] (y ∷ b) (z ∷ c) h k = refl
text_lt_trans (x ∷ a) [] c h k = cc
text_lt_trans (x ∷ a) (y ∷ b) [] h k = cc
text_lt_trans (x ∷ a) (y ∷ b) (z ∷ c) h k = ground (arith, text_lt_trans a b c)

text_lt_irrefl : (a : List ℕ) → text_lt a a ≡ false
unfolding text_lt
text_lt_irrefl [] = refl
text_lt_irrefl (x ∷ a) = ground (arith, text_lt_irrefl a)

same_text_lem : (a b : List ℕ) → same_text a b ≡ true → a ≡ b
same_text_lem [] [] h = refl
same_text_lem [] (y ∷ b) h = cc
same_text_lem (x ∷ a) [] h = cc
same_text_lem (x ∷ a) (y ∷ b) h =
    let (head, tail) = both_true (x == y) (same_text a b) h in
    let at : x ≡ y = (==_iff x y).0 head in let rest : a ≡ b = same_text_lem a b tail in cc

same_text_refl : (a : List ℕ) → same_text a a ≡ true
same_text_refl [] = refl
same_text_refl (x ∷ a) = ground (arith, same_text_refl a)

item_lt_irrefl : (a : List ℕ) → item_lt a a ≡ false
unfolding item_lt
item_lt_irrefl a = ground (arith, text_lt_irrefl a)

item_lt_trans : (a b c : List ℕ) → item_lt a b ≡ true → item_lt b c ≡ true → item_lt a c ≡ true
unfolding item_lt
item_lt_trans a b c h k = ground (arith, text_lt_trans a b c)

-- How a list of identifiers comes before another one with a first identifier.
items_lt_head :
    (x y : List ℕ) (a b : List (List ℕ))
    → items_lt (x ∷ a) (y ∷ b) ≡ true
    → (x ≡ y) × (items_lt a b ≡ true) ⊎ (item_lt x y ≡ true)
unfolding items_lt
items_lt_head x y a b h = elim (Bool-cases (same_text x y)) [
  | inl e ↦ inl (same_text_lem x y e, if_taken (same_text x y) _ _ e h)
  | inr e ↦ inr (if_skipped (same_text x y) _ _ e h)
]

items_lt_tail :
    (x : List ℕ) (a b : List (List ℕ)) → items_lt a b ≡ true → items_lt (x ∷ a) (x ∷ b) ≡ true
unfolding items_lt
items_lt_tail x a b h = rw (same_text_refl x) h

items_lt_item :
    (x y : List ℕ) (a b : List (List ℕ)) → item_lt x y ≡ true → items_lt (x ∷ a) (y ∷ b) ≡ true
unfolding items_lt
items_lt_item x y a b h = elim (Bool-cases (same_text x y)) [
  | inl e ↦
      (let same : x ≡ y = same_text_lem x y e in
        absurd (let f : item_lt x x ≡ false = item_lt_irrefl x in cc))
  | inr e ↦ rw (e) h
]

items_lt_irrefl : (a : List (List ℕ)) → items_lt a a ≡ false
unfolding items_lt
items_lt_irrefl [] = refl
items_lt_irrefl (x ∷ a) = rw (same_text_refl x, items_lt_irrefl a)

items_lt_step :
    (x y z : List ℕ) (a b c : List (List ℕ))
    → (x ≡ y) × (items_lt a b ≡ true) ⊎ (item_lt x y ≡ true)
    → (y ≡ z) × (items_lt b c ≡ true) ⊎ (item_lt y z ≡ true)
    → (items_lt a b ≡ true → items_lt b c ≡ true → items_lt a c ≡ true)
    → items_lt (x ∷ a) (z ∷ c) ≡ true
items_lt_step x y z a b c (inl (e, f)) (inl (g, i)) trans =
    subst (λ w. items_lt (x ∷ a) (w ∷ c) ≡ true) (e ∙ g) (items_lt_tail x a c (trans f i))
items_lt_step x y z a b c (inl (e, f)) (inr g) trans =
    items_lt_item x z a c (subst (λ w. item_lt w z ≡ true) (sym e) g)
items_lt_step x y z a b c (inr e) (inl (g, i)) trans =
    items_lt_item x z a c (subst (λ w. item_lt x w ≡ true) g e)
items_lt_step x y z a b c (inr e) (inr g) trans = items_lt_item x z a c (item_lt_trans x y z e g)

items_lt_trans :
    (a b c : List (List ℕ)) → items_lt a b ≡ true → items_lt b c ≡ true → items_lt a c ≡ true
unfolding items_lt
items_lt_trans [] [] c h k = cc
items_lt_trans [] (y ∷ b) [] h k = cc
items_lt_trans [] (y ∷ b) (z ∷ c) h k = refl
items_lt_trans (x ∷ a) [] c h k = cc
items_lt_trans (x ∷ a) (y ∷ b) [] h k = cc
items_lt_trans (x ∷ a) (y ∷ b) (z ∷ c) h k =
    items_lt_step x y z a b c (items_lt_head x y a b h) (items_lt_head y z b c k)
      (items_lt_trans a b c)

prerelease_lt_trans :
    (a b c : List (List ℕ))
    → prerelease_lt a b ≡ true
    → prerelease_lt b c ≡ true
    → prerelease_lt a c ≡ true
prerelease_lt_trans [] b c h k = cc
prerelease_lt_trans (x ∷ a) [] c h k = cc
prerelease_lt_trans (x ∷ a) (y ∷ b) [] h k = refl
prerelease_lt_trans (x ∷ a) (y ∷ b) (z ∷ c) h k = items_lt_trans (x ∷ a) (y ∷ b) (z ∷ c) h k

prerelease_lt_irrefl : (a : List (List ℕ)) → prerelease_lt a a ≡ false
prerelease_lt_irrefl [] = refl
prerelease_lt_irrefl (x ∷ a) = items_lt_irrefl (x ∷ a)

-- The order of versions, of any numbers and any prereleases, is strict: no version comes before
-- itself, and a version before one that comes before a third comes before the third.
pub version_lt_strict :
    (a b c : Version)
    → (version_lt a a ≡ false)
      × (version_lt a b ≡ true → version_lt b c ≡ true → version_lt a c ≡ true)
unfolding version_lt
version_lt_strict a b c = (
  grind (arith, prerelease_lt_irrefl a.prerelease),
  λ h k. grind (arith, prerelease_lt_trans a.prerelease b.prerelease c.prerelease),
)
