-- ===== src/Prelude/Lists.antt =====
-- Lists measured and indexed by native numbers, under the library's names, and predicates on lists.
use Prim.Native.Nat.{ℕ, zero, suc, ◌+◌, min}
use mathlib.Core.Path.{◌≡◌, refl, sym, subst}
use mathlib.Core.Bool.{Bool, true, false, ◌||◌}
use mathlib.Core.Option.{Option, none, some}
use mathlib.Core.Logic.{◌⊎◌, inl, inr}
use mathlib.Core.List.{List, [], ◌∷◌, ◌++◌}
use native.Mathlib.Omega.{arith}
use swarmd.Prelude.Tests.{if◌then◌else◌, eqb, Bool-cases, if_true, if_false}

-- The empty type, at any level.
pub data Never {ℓ} : Type ℓ where

module _ {ℓ} {A : Type ℓ} where
  abbrev pub length : List A → ℕ
  length [] = 0
  length (x ∷ xs) = suc (length xs)

  abbrev pub take : ℕ → List A → List A
  take zero xs = []
  take (suc n) [] = []
  take (suc n) (x ∷ xs) = x ∷ take n xs

  abbrev pub drop : ℕ → List A → List A
  drop zero xs = xs
  drop (suc n) [] = []
  drop (suc n) (x ∷ xs) = drop n xs

  -- Whether some item passes the test.
  abbrev pub any : (A → Bool) → List A → Bool
  any p [] = false
  any p (x ∷ xs) = if p x then true else any p xs

  -- How many items pass the test.
  abbrev pub count : (A → Bool) → List A → ℕ
  count p [] = 0
  count p (x ∷ xs) = if p x then suc (count p xs) else count p xs

  -- The items that pass the test, in order.
  abbrev pub select : (A → Bool) → List A → List A
  select p [] = []
  select p (x ∷ xs) = if p x then x ∷ select p xs else select p xs

  -- The items that pass the test are changed by `f`, and the others are kept.
  abbrev pub update_where : (A → Bool) → (A → A) → List A → List A
  update_where p f [] = []
  update_where p f (x ∷ xs) = (if p x then f x else x) ∷ update_where p f xs

  -- Membership, with its place.
  abbrev pub Has : A → List A → Type ℓ
  Has x [] = Never
  Has x (y ∷ ys) = (x ≡ y) ⊎ Has x ys

  -- The first row of a result, or none.
  abbrev pub first : List A → Option A
  first [] = none
  first (x ∷ xs) = some x

  -- A stable sort: `x` stands before `y` unless `lt y x`.
  abbrev pub insert_by : (A → A → Bool) → A → List A → List A
  insert_by lt x [] = x ∷ []
  insert_by lt x (y ∷ ys) = if lt y x then y ∷ insert_by lt x ys else x ∷ y ∷ ys

  unfoldable pub order_by : (A → A → Bool) → List A → List A
  order_by lt [] = []
  order_by lt (x ∷ xs) = insert_by lt x (order_by lt xs)

  pub length-append : (xs ys : List A) → length (xs ++ ys) ≡ length xs + length ys
  length-append [] ys = omega arith
  length-append (x ∷ xs) ys = omega (arith, length-append xs ys)

  pub length-take : (n : ℕ) (xs : List A) → length (take n xs) ≡ min n (length xs)
  length-take zero xs = omega arith
  length-take (suc n) [] = omega arith
  length-take (suc n) (x ∷ xs) = omega (arith, length-take n xs)

module _ {ℓ κ} {A : Type ℓ} where
  -- Every item satisfies the predicate.
  abbrev pub All : (A → Type κ) → List A → Type κ
  All P [] = Unit
  All P (x ∷ xs) = P x × All P xs

  pub All-append : (P : A → Type κ) (xs ys : List A) → All P xs → All P ys → All P (xs ++ ys)
  All-append P [] ys none_of rest = rest
  All-append P (x ∷ xs) ys some_of rest = (some_of.0, All-append P xs ys some_of.1 rest)

  pub All-map : (P Q : A → Type κ) → ((x : A) → P x → Q x) → (xs : List A) → All P xs → All Q xs
  All-map P Q f [] h = tt
  All-map P Q f (x ∷ xs) h = (f x h.0, All-map P Q f xs h.1)

  pub All-Has : (P : A → Type κ) (xs : List A) {x : A} → Has x xs → All P xs → P x
  All-Has P [] m h = elim m [ ]
  All-Has P (y ∷ ys) (inl e) h = subst P (sym e) h.0
  All-Has P (y ∷ ys) (inr m) h = All-Has P ys m h.1

  pub All-update_where :
      (P : A → Type κ) (p : A → Bool) (f : A → A)
      → ((x : A) → p x ≡ true → P x → P (f x))
      → (xs : List A) → All P xs
      → All P (update_where p f xs)
  All-update_where P p f keep [] h = tt
  All-update_where P p f keep (x ∷ xs) h =
      (changed (Bool-cases (p x)), All-update_where P p f keep xs h.1)
    where
      changed : (p x ≡ true) ⊎ (p x ≡ false) → P (if p x then f x else x)
      changed (inl e) = rw e (keep x e h.0)
      changed (inr e) = rw e h.0

module _ {ℓ} {A : Type ℓ} (p : A → Bool) where
  -- A selected item is an item that passes the test, and the other way round.
  pub select-Has : (xs : List A) {x : A} → Has x (select p xs) → Has x xs × (p x ≡ true)
  select-Has [] m = elim m [ ]
  select-Has (y ∷ ys) {x} m = elim (Bool-cases (p y)) [
    | inl t ↦ ground (arith, select-Has ys {x = x})
    | inr f ↦ ground (arith, select-Has ys {x = x})
  ]

  pub Has-select : (xs : List A) {x : A} → Has x xs → p x ≡ true → Has x (select p xs)
  Has-select [] m h = elim m [ ]
  Has-select (y ∷ ys) {x} m h = elim (Bool-cases (p y)) [
    | inl t ↦ ground (arith, Has-select ys {x = x})
    | inr f ↦ ground (arith, Has-select ys {x = x})
  ]

  pub Has-count : (xs : List A) {x : A} → Has x xs → p x ≡ true → eqb (count p xs) 0 ≡ false
  Has-count [] m h = elim m [ ]
  Has-count (y ∷ ys) {x} m h = elim (Bool-cases (p y)) [
    | inl t ↦ ground arith
    | inr f ↦ ground (arith, Has-count ys {x = x})
  ]

  pub any-append : (xs ys : List A) → any p (xs ++ ys) ≡ (any p xs || any p ys)
  any-append [] ys = refl
  any-append (x ∷ xs) ys = ground (arith, any-append xs ys)

  pub Has-any : (xs : List A) {x : A} → Has x xs → p x ≡ true → any p xs ≡ true
  Has-any [] m h = elim m [ ]
  Has-any (y ∷ ys) {x} m h = elim (Bool-cases (p y)) [
    | inl t ↦ rw t
    | inr f ↦ ground (arith, Has-any ys {x = x})
  ]

  -- A change that keeps another test keeps what it says of the list.
  pub any-update_where :
      (q : A → Bool) (f : A → A)
      → ((x : A) → p (f x) ≡ p x)
      → (xs : List A) → any p (update_where q f xs) ≡ any p xs
  any-update_where q f keep [] = refl
  any-update_where q f keep (x ∷ xs) = elim (Bool-cases (q x)) [
    | inl t ↦ rw (t, keep x, any-update_where q f keep xs)
    | inr n ↦ rw (n, any-update_where q f keep xs)
  ]

  -- A changed item is one of the old ones, changed or kept.
  pub update_where-Has :
      (f : A → A) (xs : List A) {x : A}
      → Has x (update_where p f xs)
      → (y : A) × Has y xs × (x ≡ (if p y then f y else y))
  update_where-Has f [] m = elim m [ ]
  update_where-Has f (y ∷ ys) (inl e) = (y, inl refl, e)
  update_where-Has f (y ∷ ys) (inr m) = let (z, old, e) = update_where-Has f ys m in (z, inr old, e)

  pub Has-update_where :
      (f : A → A) (xs : List A) {x : A} → Has x xs → p x ≡ true → Has (f x) (update_where p f xs)
  Has-update_where f [] m t = elim m [ ]
  Has-update_where f (y ∷ ys) {x} (inl e) t =
      inl (subst (λ z. f x ≡ (if p z then f z else z)) e (sym (if_true _ _ t)))
  Has-update_where f (y ∷ ys) (inr m) t = inr (Has-update_where f ys m t)

  pub Has-update_where_ne :
      (f : A → A) (xs : List A) {x : A} → Has x xs → p x ≡ false → Has x (update_where p f xs)
  Has-update_where_ne f [] m n = elim m [ ]
  Has-update_where_ne f (y ∷ ys) {x} (inl e) n =
      inl (subst (λ z. x ≡ (if p z then f z else z)) e (sym (if_false _ _ n)))
  Has-update_where_ne f (y ∷ ys) (inr m) n = inr (Has-update_where_ne f ys m n)

module _ {ℓ} {A : Type ℓ} where
  pub Has-append_left : (xs ys : List A) (x : A) → Has x xs → Has x (xs ++ ys)
  Has-append_left [] ys x m = elim m [ ]
  Has-append_left (z ∷ zs) ys x (inl e) = inl e
  Has-append_left (z ∷ zs) ys x (inr m) = inr (Has-append_left zs ys x m)

  pub Has-append_right : (xs ys : List A) (x : A) → Has x ys → Has x (xs ++ ys)
  Has-append_right [] ys x m = m
  Has-append_right (z ∷ zs) ys x m = inr (Has-append_right zs ys x m)
