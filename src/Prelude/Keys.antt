-- ===== src/Prelude/Keys.antt =====
-- Lists in which no two items have the same key.
use mathlib.Core.Path.{◌≡◌, refl, sym, ◌∙◌}
use mathlib.Core.Logic.{◌⊎◌, inl, inr}
use mathlib.Core.Bool.{Bool, true, false}
use mathlib.Core.List.{List, [], ◌∷◌, ◌++◌}
use native.Mathlib.Omega.{arith}
use swarmd.Prelude.Tests.{if◌then◌else◌, Bool-cases}
use swarmd.Prelude.Lists.{Has, any, update_where, any-append, any-update_where, Has-any}

module _ {ℓ} {A : Type ℓ} (same : A → A → Bool) where
  abbrev pub Distinct : List A → Type 0
  Distinct [] = Unit
  Distinct (x ∷ xs) = (any (same x) xs ≡ false) × Distinct xs

  pub Distinct-snoc :
      ((x y : A) → same x y ≡ same y x)
      → (xs : List A) (x : A) → Distinct xs
      → any (same x) xs ≡ false
      → Distinct (xs ++ x ∷ [])
  Distinct-snoc comm [] x d fresh = (refl, tt)
  Distinct-snoc comm (y ∷ ys) x d fresh = (
    any-append (same y) ys (x ∷ []) ∙ ground (arith, comm x y),
    Distinct-snoc comm ys x d.1 (ground arith),
  )

  pub Distinct-update_where :
      (p : A → Bool) (f : A → A)
      → ((x y : A) → same x (f y) ≡ same x y)
      → ((x y : A) → same (f x) y ≡ same x y)
      → (xs : List A) → Distinct xs
      → Distinct (update_where p f xs)
  Distinct-update_where p f right left [] d = tt
  Distinct-update_where p f right left (x ∷ xs) d = (
    any-update_where (same (if p x then f x else x)) p f (right _) xs ∙ head (Bool-cases (p x)),
    Distinct-update_where p f right left xs d.1,
  )
    where
      shifted : (ys : List A) → any (same (f x)) ys ≡ any (same x) ys
      shifted [] = refl
      shifted (y ∷ ys) = ground (arith, left x y, shifted ys)

      head : (p x ≡ true) ⊎ (p x ≡ false) → any (same (if p x then f x else x)) xs ≡ false
      head (inl t) = rw t (shifted xs ∙ d.0)
      head (inr n) = rw n d.0

  -- Two items of such a list with one key are one item.
  pub Distinct-eq :
      ((x y : A) → same x y ≡ same y x)
      → (xs : List A) {x y : A} → Distinct xs
      → Has x xs
      → Has y xs
      → same x y ≡ true
      → x ≡ y
  Distinct-eq comm [] d m n h = elim m [ ]
  Distinct-eq comm (z ∷ zs) d (inl e) (inl e') h = e ∙ sym e'
  Distinct-eq comm (z ∷ zs) {x} {y} d (inl e) (inr n) h =
      absurd (clash (Has-any (same z) zs n (rw e at h)) d.0)
    where
      clash : {b : Bool} → b ≡ true → b ≡ false → ⊥
      clash p q = cc
  Distinct-eq comm (z ∷ zs) {x} {y} d (inr m) (inl e) h =
      absurd (clash (Has-any (same z) zs m (rw e at (comm y x ∙ h))) d.0)
    where
      clash : {b : Bool} → b ≡ true → b ≡ false → ⊥
      clash p q = cc
  Distinct-eq comm (z ∷ zs) d (inr m) (inr n) h = Distinct-eq comm zs d.1 m n h
