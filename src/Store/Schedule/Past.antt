-- ===== src/Store/Schedule/Past.antt =====
-- pkg/server/store/schedule.go: the rows of a schedule whose time has passed.
use swarmd.Prelude.{
  ℕ, ◌<◌, ◌≤◌, ◌≡◌, refl, ◌∙◌, subst, String, Bool, true, false, not, ◌&&◌, ◌||◌, List, [], ◌∷◌,
  ◌++◌, Option, none, some, eqb, ltb, any, any-append, All, All-append, count, update_where,
  Bool-cases, inl, inr, arith, eq_iff,
}
use swarmd.Store.Tables.{ScheduleRow, Db, is_schedule}
use swarmd.Store.Schedule.{is_pending}

-- The row of the schedule, if it is one, waits for no time up to the one given.
abbrev pub is_past : String → String → ℕ → ScheduleRow → Bool
is_past ns id due_ms row =
    not (is_schedule ns id row) || elim row.next_fire_at_ms [ none ↦ true | some t ↦ ltb due_ms t ]

-- The schedule is in the table, and its time has passed.
abbrev pub IsPast : String → String → ℕ → Db → Type 0
IsPast ns id due_ms db =
    (any (is_schedule ns id) db.schedules ≡ true)
    × All (λ row. is_past ns id due_ms row ≡ true) db.schedules

pub fired-is_past :
    (key waits : Bool) (next_ms : Option ℕ) (enabled : Bool) (old_ms new_ms due_ms : ℕ)
    → (waits && enabled && elim next_ms [ none ↦ false | some t ↦ eqb t old_ms ]) ≡ true
    → (not key || elim next_ms [ none ↦ true | some t ↦ ltb due_ms t ]) ≡ true
    → old_ms < new_ms
    → (not key || ltb due_ms new_ms) ≡ true
fired-is_past key waits none enabled old_ms new_ms due_ms hit past lt = ground arith
fired-is_past key waits (some t) enabled old_ms new_ms due_ms hit past lt = ground arith

-- A new row does not have the key of a schedule that is there.
pub add-IsPast :
    (ns id : String) (due_ms : ℕ) (row : ScheduleRow) (db : Db)
    → any (is_schedule row.namespace_id row.schedule_id) db.schedules ≡ false
    → IsPast ns id due_ms db
    → IsPast ns id due_ms (record db { schedules = db.schedules ++ row ∷ [] })
add-IsPast ns id due_ms row db fresh past = (
  any-append (is_schedule ns id) db.schedules (row ∷ []) ∙ ground (arith, past.0),
  All-append (λ x. is_past ns id due_ms x ≡ true) db.schedules (row ∷ []) past.1
      (
        elim (Bool-cases (is_schedule ns id row)) [
          | inl t ↦ absurd (clash past.0 (same t))
          | inr f ↦ rw f refl
        ],
        tt,
      ),
)
  where
    clash : {b : Bool} → b ≡ true → b ≡ false → ⊥
    clash p q = cc

    names : is_schedule ns id row ≡ true → (row.namespace_id ≡ ns) × (row.schedule_id ≡ id)
    names t = ground (arith, eq_iff row.namespace_id ns, eq_iff row.schedule_id id)

    same : is_schedule ns id row ≡ true → any (is_schedule ns id) db.schedules ≡ false
    same t =
        let (ns_same, id_same) = names t in
        subst (λ (n : String). any (is_schedule n id) db.schedules ≡ false) ns_same
          (subst (λ (i : String). any (is_schedule row.namespace_id i) db.schedules ≡ false) id_same
            fresh)

-- Rows of which none has the key, and rows of which one has it, which changes.
module _ (ns id : String) (due_ms : ℕ) (hit : ScheduleRow → Bool)
    (change : ScheduleRow → ScheduleRow)
    (keyed : (x : ScheduleRow) → hit x ≡ true → is_schedule ns id x ≡ true)
    (moved : (x : ScheduleRow) → is_past ns id due_ms (change x) ≡ true) where
  unkeyed : (x : ScheduleRow) → is_schedule ns id x ≡ false → hit x ≡ false
  unkeyed x n = elim (Bool-cases (hit x)) [ inl t ↦ absurd (clash (keyed x t) n) | inr f ↦ f ]
    where
      clash : {b : Bool} → b ≡ true → b ≡ false → ⊥
      clash p q = cc

  other-past : (x : ScheduleRow) → is_schedule ns id x ≡ false → is_past ns id due_ms x ≡ true
  other-past x n = rw n refl

  others-past :
      (rows : List ScheduleRow)
      → count (is_schedule ns id) rows ≡ 0
      → All (λ row. is_past ns id due_ms row ≡ true) (update_where hit change rows)
  others-past [] e = tt
  others-past (x ∷ xs) e =
      (rw (unkeyed x (ground arith)) (other-past x (ground arith)), others-past xs (ground arith))

  count-unkeyed :
      (rows : List ScheduleRow) → count (is_schedule ns id) rows ≡ 0 → count hit rows ≡ 0
  count-unkeyed [] e = refl
  count-unkeyed (x ∷ xs) e = rw (unkeyed x (ground arith)) (count-unkeyed xs (ground arith))

  pub unique-past :
      (rows : List ScheduleRow)
      → count (is_schedule ns id) rows ≤ 1
      → eqb (count hit rows) 0 ≡ false
      → All (λ row. is_past ns id due_ms row ≡ true) (update_where hit change rows)
  unique-past [] one there = tt
  unique-past (x ∷ xs) one there = elim (Bool-cases (hit x)) [
    | inl t ↦ let key = keyed x t in (rw t (moved x), others-past xs (ground arith))
    | inr f ↦ elim (Bool-cases (is_schedule ns id x)) [
      | inl key ↦ let none_left = count-unkeyed xs (ground arith) in absurd (ground arith)
      | inr other ↦ (rw f (other-past x other), unique-past xs (ground arith) (ground arith))
    ]
  ]

not-pending :
    (key enabled : Bool) (next_ms : Option ℕ) (due_ms old_ms : ℕ)
    → old_ms ≤ due_ms
    → (not key || elim next_ms [ none ↦ true | some t ↦ ltb due_ms t ]) ≡ true
    → (key && enabled && elim next_ms [ none ↦ false | some t ↦ eqb t old_ms ]) ≡ false
not-pending key enabled none due_ms old_ms le past = ground arith
not-pending key enabled (some t) due_ms old_ms le past = ground arith

pub past-count :
    (ns id : String) (due_ms old_ms : ℕ) (rows : List ScheduleRow)
    → old_ms ≤ due_ms
    → All (λ row. is_past ns id due_ms row ≡ true) rows
    → count (is_pending ns id old_ms) rows ≡ 0
past-count ns id due_ms old_ms [] le past = refl
past-count ns id due_ms old_ms (x ∷ xs) le past =
    rw
      (
        not-pending (is_schedule ns id x) x.enabled x.next_fire_at_ms due_ms old_ms le past.0,
        past-count ns id due_ms old_ms xs le past.1,
      )
      refl
