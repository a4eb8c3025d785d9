-- ===== src/Sandbox/Paths/Within.antt =====
-- What it means that a path passes the tests of pkg/sh/sandbox/sandbox.go.
use mathlib.Core.Bool.{false≢true}
use swarmd.Prelude.{
  ◌≡◌, refl, sym, ap, ◌∙◌, true, false, String, List, [], ◌∷◌, ◌++◌, ◌==◌, eq_iff, eq_refl, subst,
  inl, inr, Bool-cases, is_empty,
}
use swarmd.Sandbox.Paths.{
  FilePath, no_path, absolute, relative, AbsPath, parent, push, walk, reverse_onto, clean, rel,
  goes_down, is_within_root, join_from,
}

-- A name that is no dot, no two dots and not empty.
abbrev pub IsName : String → Type 0
IsName s = (is_empty s ≡ false) × ((s == ".") ≡ false) × ((s == "..") ≡ false)

abbrev pub Names : AbsPath → Type 0
Names [] = Unit
Names (s ∷ ss) = IsName s × Names ss

-- The path is that of the directory, or has some more names.
abbrev pub IsBelow : AbsPath → AbsPath → Type 0
IsBelow root p = (rest : AbsPath) × (p ≡ root ++ rest)

pub is_within_root-IsBelow : (root p : AbsPath) → is_within_root root p ≡ true → IsBelow root p
unfolding is_within_root
is_within_root-IsBelow [] p h = (p, refl)
is_within_root-IsBelow (r ∷ rs) [] h = cc
is_within_root-IsBelow (r ∷ rs) (s ∷ ss) h = elim (Bool-cases (r == s)) [
  | inl same ↦
      let (rest, e) = is_within_root-IsBelow rs ss (rw same at h) in
      (rest, ap (λ l. s ∷ l) e ∙ ap (λ x. x ∷ (rs ++ rest)) (sym ((eq_iff r s).0 same)))
  | inr other ↦ absurd (false≢true (rw other at h))
]

parent-Names : (up : AbsPath) → Names up → Names (parent up)
parent-Names [] h = tt
parent-Names (s ∷ up) h = h.1

push-Names : (up : AbsPath) (s : String) → Names up → Names (push up s)
push-Names up s h = elim (Bool-cases (is_empty s)) [
  | inl e ↦ rw e h
  | inr full ↦ elim (Bool-cases (s == ".")) [
    | inl dot ↦ rw (full, dot) h
    | inr other ↦ elim (Bool-cases (s == "..")) [
      | inl dots ↦ rw (full, other, dots) (parent-Names up h)
      | inr name ↦ rw (full, other, name) ((full, other, name), h)
    ]
  ]
]

walk-Names : (up : AbsPath) (ss : List String) → Names up → Names (walk up ss)
unfolding walk
walk-Names up [] h = h
walk-Names up (s ∷ ss) h = walk-Names (push up s) ss (push-Names up s h)

reverse_onto-Names : (acc up : AbsPath) → Names acc → Names up → Names (reverse_onto acc up)
unfolding reverse_onto
reverse_onto-Names acc [] h k = h
reverse_onto-Names acc (s ∷ up) h k = reverse_onto-Names (s ∷ acc) up (k.0, h) k.1

clean-Names : (ss : List String) → Names (clean ss)
unfolding clean
clean-Names ss = reverse_onto-Names [] (walk [] ss) tt (walk-Names [] ss tt)

pub join_from-Names : (dir : AbsPath) (path : FilePath) → Names (join_from dir path)
unfolding join_from
join_from-Names dir no_path = clean-Names dir
join_from-Names dir (absolute ss) = clean-Names ss
join_from-Names dir (relative ss) = clean-Names (dir ++ ss)

Names-goes_down : (p : AbsPath) → Names p → goes_down p ≡ true
Names-goes_down [] h = refl
Names-goes_down (s ∷ ss) h = rw (h.0.2) refl

rel-below : (root rest : AbsPath) → rel root (root ++ rest) ≡ rest
unfolding rel
rel-below [] rest = refl
rel-below (r ∷ rs) rest = rw (eq_refl r) (rel-below rs rest)

drop-Names : (root rest : AbsPath) → Names (root ++ rest) → Names rest
drop-Names [] rest h = h
drop-Names (r ∷ rs) rest h = drop-Names rs rest h.1

pub IsBelow-is_within_root :
    (root p : AbsPath) → Names p → IsBelow root p → is_within_root root p ≡ true
unfolding is_within_root
IsBelow-is_within_root root p names (rest, e) =
    rw e
      (rw (rel-below root rest) (Names-goes_down rest (drop-Names root rest (subst Names e names))))
