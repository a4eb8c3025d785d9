-- ===== src/Store/Schedule/Come.antt =====
-- pkg/server/store/schedule.go: the schedules that the query of FireDueSchedules finds.
use swarmd.Prelude.{
  ℕ, zero, suc, ◌≤◌, ◌≡◌, Bool, true, false, ◌&&◌, List, [], ◌∷◌, Option, none, some, leb, All,
  select, insert_by, order_by, take, map, Bool-cases, inl, inr, arith, some-eq-some,
}
use swarmd.Store.Types.{ScheduleRecord}
use swarmd.Store.Envelope.{to_millis, null_millis_to_time, default_int}
use swarmd.Store.Tables.{Env, ScheduleRow, Db}
use swarmd.Store.Schedule.{Calendar, is_due, fires_before, scan_schedule, due_schedules}

-- The schedule's time has come.
abbrev pub HasCome : ScheduleRecord → ℕ → Type 0
HasCome r now = (t : ℕ) → r.next_fire_at ≡ some t → t ≤ now

module _ {ℓ κ} {A : Type ℓ} (P : A → Type κ) where
  All-insert_by :
      (lt : A → A → Bool) (x : A) (xs : List A) → P x → All P xs → All P (insert_by lt x xs)
  All-insert_by lt x [] p h = (p, tt)
  All-insert_by lt x (y ∷ ys) p h = elim (Bool-cases (lt y x)) [
    | inl t ↦ rw t (h.0, All-insert_by lt x ys p h.1)
    | inr f ↦ rw f (p, h)
  ]

  All-order_by : (lt : A → A → Bool) (xs : List A) → All P xs → All P (order_by lt xs)
  unfolding order_by
  All-order_by lt [] h = tt
  All-order_by lt (x ∷ xs) h = All-insert_by lt x (order_by lt xs) h.0 (All-order_by lt xs h.1)

  All-take : (n : ℕ) (xs : List A) → All P xs → All P (take n xs)
  All-take zero xs h = tt
  All-take (suc n) [] h = tt
  All-take (suc n) (x ∷ xs) h = (h.0, All-take n xs h.1)

All-select {ℓ} : {A : Type ℓ} (p : A → Bool) (xs : List A) → All (λ x. p x ≡ true) (select p xs)
All-select p [] = tt
All-select p (x ∷ xs) = elim (Bool-cases (p x)) [
  | inl t ↦ rw t (t, All-select p xs)
  | inr f ↦ rw f (All-select p xs)
]

-- A row that is due is read as a schedule whose time has come.
is_due-HasCome :
    (now : ℕ) (row : ScheduleRow)
    → is_due (to_millis now) row ≡ true
    → HasCome (scan_schedule row) now
unfolding scan_schedule
is_due-HasCome now row due t e = come row.next_fire_at_ms row.enabled due e
  where
    come :
        (next_ms : Option ℕ) (enabled : Bool)
        → (enabled && elim next_ms [ none ↦ false | some at ↦ leb at (to_millis now) ]) ≡ true
        → null_millis_to_time next_ms ≡ some t
        → t ≤ now
    come none enabled h q = ground arith
    come (some ms) enabled h q = let same = some-eq-some q in ground arith

scanned-HasCome :
    (now : ℕ) (rows : List ScheduleRow)
    → All (λ row. is_due (to_millis now) row ≡ true) rows
    → All (λ r. HasCome r now) (map scan_schedule rows)
scanned-HasCome now [] h = tt
scanned-HasCome now (x ∷ xs) h = (is_due-HasCome now x h.0, scanned-HasCome now xs h.1)

-- What the query finds has come.
pub due_schedules-HasCome :
    {V C : Type 0} (env : Env V) (calendar : Calendar V C) (now limit : ℕ) (db : Db)
    → All (λ r. HasCome r now) (due_schedules env calendar now limit db)
unfolding due_schedules
due_schedules-HasCome env calendar now limit db =
    let hit = λ (row : ScheduleRow). is_due (to_millis now) row ≡ true in
    let rows = select (is_due (to_millis now)) db.schedules in
    scanned-HasCome now (take (default_int limit 32) (order_by fires_before rows)) (
      All-take hit (default_int limit 32) (order_by fires_before rows)
        (All-order_by hit fires_before rows (All-select (is_due (to_millis now)) db.schedules)))
