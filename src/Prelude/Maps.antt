-- ===== src/Prelude/Maps.antt =====
-- Maps from texts, and Go's `range` over one.
use Prim.Native.String.{String}
use mathlib.Core.Path.{◌≡◌, refl, sym, ap, ◌∙◌}
use mathlib.Core.Logic.{inl, inr}
use mathlib.Core.Bool.{Bool, false, not, ◌&&◌}
use mathlib.Core.Option.{Option, none, some}
use mathlib.Core.List.{List, [], ◌∷◌}
use native.Mathlib.Omega.{arith}
use text.Mathlib.Text.{◌==◌}
use text.Mathlib.TextEquality.{eq_iff}
use swarmd.Prelude.Tests.{if◌then◌else◌, Bool-cases, if_true, if_false, some-eq-some}
use swarmd.Prelude.Lists.{Has, any, select, select-Has, Has-select, Has-any}

abbrev pub Map : Type 0 → Type 0
Map V = List (String × V)

module _ {V : Type 0} where
  unfoldable pub lookup : String → Map V → Option V
  lookup k [] = none
  lookup k (e ∷ m) = if e.0 == k then some e.1 else lookup k m

  -- `m[k] = v`
  unfoldable pub put : String → V → Map V → Map V
  put k v m = (k, v) ∷ m

  -- `delete(m, k)`
  unfoldable pub remove : String → Map V → Map V
  remove k m = select (λ e. not (e.0 == k)) m

  -- The entries of a map, each key with its value of now.
  unfoldable pub entries : Map V → List (String × V)
  entries [] = []
  entries (e ∷ m) = e ∷ select (λ f. not (f.0 == e.0)) (entries m)

  pub lookup-nil : (k : String) {v : V} → ◌≡◌ {A = Option V} (lookup k []) (some v) → ⊥
  unfolding lookup
  lookup-nil k h = cc

  pub lookup-put :
      (k j : String) (v : V) (m : Map V)
      → lookup j (put k v m) ≡ (if k == j then some v else lookup j m)
  unfolding lookup put
  lookup-put k j v m = refl

  pub lookup-put_self : (k : String) (v : V) (m : Map V) → lookup k (put k v m) ≡ some v
  lookup-put_self k v m = ground (arith, lookup-put k k v m, eq_iff k k)

  -- A new key hides no other.
  pub lookup-put_new :
      (k j : String) (v w : V) (m : Map V)
      → lookup k m ≡ none
      → lookup j m ≡ some w
      → lookup j (put k v m) ≡ some w
  lookup-put_new k j v w m fresh h = elim (Bool-cases (k == j)) [
    | inl t ↦ absurd (clash (sym fresh ∙ ap (λ x. lookup x m) ((eq_iff k j).0 t) ∙ h))
    | inr f ↦ ground (arith, lookup-put k j v m, f)
  ]
    where
      clash : none ≡ some w → ⊥
      clash q = cc

  pub lookup-remove :
      (k j : String) (m : Map V) → lookup j (remove k m) ≡ (if k == j then none else lookup j m)
  unfolding lookup remove
  lookup-remove k j [] = ground arith
  lookup-remove k j (e ∷ m) =
      ground (arith, eq_iff k j, eq_iff e.0 k, eq_iff e.0 j, lookup-remove k j m)

  pub Has-entries : (m : Map V) (k : String) (v : V) → Has (k, v) (entries m) → lookup k m ≡ some v
  unfolding entries lookup
  Has-entries [] k v h = elim h [ ]
  Has-entries (e ∷ m) k v (inl q) =
      if_true _ _ ((eq_iff e.0 k).1 (sym (ap (λ x. x.0) q))) ∙ ap (λ x. some x.1) (sym q)
  Has-entries (e ∷ m) k v (inr h) =
      let (there, other) = select-Has (λ f. not (f.0 == e.0)) (entries m) h in
      ground (arith, eq_iff e.0 k, eq_iff k e.0, other, Has-entries m k v there)

  pub entries-Has : (m : Map V) (k : String) (v : V) → lookup k m ≡ some v → Has (k, v) (entries m)
  unfolding entries lookup
  entries-Has [] k v h = cc
  entries-Has (e ∷ m) k v h = elim (Bool-cases (e.0 == k)) [
    | inl t ↦
        let value : e.1 ≡ v = some-eq-some (sym (if_true _ _ t) ∙ h) in
        let key : e.0 ≡ k = (eq_iff e.0 k).0 t in inl (λ i. (sym key i, sym value i))
    | inr f ↦ inr (
        Has-select (λ f. not (f.0 == e.0)) (entries m)
          (entries-Has m k v (sym (if_false _ _ f) ∙ h))
          (ground (arith, eq_iff e.0 k, eq_iff k e.0)))
  ]

  -- A loop that deletes the keys of the entries that pass a test.
  unfoldable pub remove_if : (String × V → Bool) → List (String × V) → Map V → Map V
  remove_if p [] m = m
  remove_if p (e ∷ es) m = remove_if p es (if p e then remove e.0 m else m)

  pub lookup-remove_if :
      (p : String × V → Bool) (es : List (String × V)) (m : Map V) (j : String)
      → lookup j (remove_if p es m) ≡ (if any (λ e. p e && e.0 == j) es then none else lookup j m)
  unfolding remove_if
  lookup-remove_if p [] m j = refl
  lookup-remove_if p (e ∷ es) m j =
      ground
        (arith, lookup-remove e.0 j m, lookup-remove_if p es (if p e then remove e.0 m else m) j)

-- `range` visits the entries of a map in some order.
pub record Range (V : Type 0) : Type 0 where
  pub order : Map V → List (String × V)
  pub visited : (m : Map V) (k : String) (v : V) → Has (k, v) (order m) → lookup k m ≡ some v
  pub visits : (m : Map V) (k : String) (v : V) → lookup k m ≡ some v → Has (k, v) (order m)

unfoldable pub newest_first : {V : Type 0} → Range V
newest_first = record { order = entries; visited = Has-entries; visits = entries-Has }

module _ {V : Type 0} (r : Range V) (p : String × V → Bool) (m : Map V) where
  none_passes :
      (j : String) (es : List (String × V))
      → ((v : V) → Has (j, v) es → p (j, v) ≡ false)
      → any (λ e. p e && e.0 == j) es ≡ false
  none_passes j [] h = refl
  none_passes j (e ∷ es) h = elim (Bool-cases (e.0 == j)) [
    | inl t ↦
        let here : p e ≡ false =
          (λ i. p ((eq_iff e.0 j).0 t i, e.1))
          ∙ h e.1 (inl (λ i. (sym ((eq_iff e.0 j).0 t) i, e.1))) in
        ground (arith, here, none_passes j es (λ v q. h v (inr q)))
    | inr f ↦ ground (arith, f, none_passes j es (λ v q. h v (inr q)))
  ]

  -- Such a loop over the map itself deletes the entries that pass the test and no others.
  pub lookup-remove_if-some :
      (j : String) (v : V)
      → lookup j m ≡ some v
      → lookup j (remove_if p (r.order m) m) ≡ (if p (j, v) then none else some v)
  lookup-remove_if-some j v h = elim (Bool-cases (p (j, v))) [
    | inl t ↦
        lookup-remove_if p (r.order m) m j
        ∙ if_true _ _ (
            Has-any (λ e. p e && e.0 == j) (r.order m) (r.visits m j v h)
              (ground (arith, t, eq_iff j j)))
        ∙ sym (if_true _ _ t)
    | inr f ↦
        lookup-remove_if p (r.order m) m j
        ∙ if_false _ _ (
            none_passes j (r.order m)
              (λ w q. ap (λ x. p (j, x)) (some-eq-some (sym (r.visited m j w q) ∙ h)) ∙ f))
        ∙ h
        ∙ sym (if_false _ _ f)
  ]

  pub lookup-remove_if-none :
      (j : String) → lookup j m ≡ none → lookup j (remove_if p (r.order m) m) ≡ none
  lookup-remove_if-none j h = ground (arith, lookup-remove_if p (r.order m) m j)
