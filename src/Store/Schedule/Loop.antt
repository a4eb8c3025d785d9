-- ===== src/Store/Schedule/Loop.antt =====
-- pkg/server/store/schedule.go: the loop that looks for the next time of a schedule.
use swarmd.Prelude.{
  ℕ, zero, suc, ◌+◌, ◌≤◌, ◌<◌, ◌≡◌, String, none, some, arith, leb, Bool-cases, inl, inr, if_true,
  if_false, ◌∙◌, sym, subst, some-eq-some,
}
use swarmd.Store.Schedule.{Calendar, next_after}

module _ {V C : Type 0} (calendar : Calendar V C) (parsed : C) (location : String) where
  -- The times of a schedule from `t` on that are not after `now`, and the first one that is.
  pub data Passed (now : ℕ) : (t n : ℕ) → Type 0 where
    reached : (t : ℕ) → now < t → Passed now t t
    passed : (t n : ℕ) → t ≤ now → Passed now (calendar.next parsed location t) n → Passed now t n

  -- What the loop ends on, for any calendar, is the first of those times that is after the clock.
  pub next_after-eq-some :
      (fuel t now : ℕ) {n : ℕ}
      → next_after calendar fuel parsed location t now ≡ some n
      → Passed now t n
  unfolding next_after
  next_after-eq-some zero t now {n = n} h = elim (Bool-cases (leb t now)) [
    | inl y ↦ absurd (ground arith)
    | inr f ↦
        subst (Passed now t) (some-eq-some (sym (if_false _ _ f) ∙ h)) (reached t (ground arith))
  ]
  next_after-eq-some (suc fuel) t now {n = n} h = elim (Bool-cases (leb t now)) [
    | inl y ↦
        passed t n (ground arith)
          (next_after-eq-some fuel (calendar.next parsed location t) now (sym (if_true _ _ y) ∙ h))
    | inr f ↦
        subst (Passed now t) (some-eq-some (sym (if_false _ _ f) ∙ h)) (reached t (ground arith))
  ]

  upto :
      ((t : ℕ) → t < calendar.next parsed location t)
      → (fuel t now : ℕ) → suc now ≤ t + fuel
      → (n : ℕ) × (next_after calendar fuel parsed location t now ≡ some n) × Passed now t n
  unfolding next_after
  upto later zero t now enough = (t, ground arith, reached t (omega arith))
  upto later (suc fuel) t now enough = elim (Bool-cases (leb t now)) [
    | inl y ↦
        let (n, e, p) =
          upto later fuel (calendar.next parsed location t) now (omega (arith, later t)) in
        (n, if_true _ _ y ∙ e, passed t n (ground arith) p)
    | inr n ↦ (t, if_false _ _ n, reached t (ground arith))
  ]

  -- A schedule whose times move on has a time after `now`, the loop finds the first one, and one
  -- round more than the number of `now` is enough.
  pub next_after-Passed :
      ((t : ℕ) → t < calendar.next parsed location t)
      → (t now : ℕ)
      → (n : ℕ) × (next_after calendar (suc now) parsed location t now ≡ some n) × Passed now t n
  next_after-Passed later t now = upto later (suc now) t now (omega arith)

  -- The loop never ends on a schedule that has no time, such as one for the 30th of February, for
  -- which `Next` returns the zero time: there is no number of rounds that would be enough.
  pub next_after-endless :
      ((t : ℕ) → calendar.next parsed location t ≡ 0)
      → (fuel t now : ℕ)
      → next_after calendar fuel parsed location (calendar.next parsed location t) now ≡ none
  unfolding next_after
  next_after-endless never zero t now = ground (arith, never t)
  next_after-endless never (suc fuel) t now =
      ground (arith, never t, next_after-endless never fuel (calendar.next parsed location t) now)
