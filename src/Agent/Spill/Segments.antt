-- ===== src/Agent/Spill/Segments.antt =====
-- pkg/agent/output_spill.go: the name of a run's directory is one segment of a path.
use swarmd.Prelude.{
  ℕ, zero, suc, ◌/◌, ◌%◌, ◌≡◌, refl, String, Bool, true, false, ◌&&◌, ◌||◌, Option, none, some,
  Bool-cases, inl, inr, if◌then◌else◌, eqb, leb, ltb, is_empty, trim_space, arith,
}
use Prim.Native.Char.{code}
use swarmd.Tools.Lines.{concat}
use swarmd.Tools.ApplyPatch.Files.{digit, decimal, decimal_upto}
use swarmd.Server.Context.{Metadata, MetaValue}
use swarmd.Agent.Types.{Trigger}
use swarmd.Agent.Host.{Host}
use swarmd.Agent.Spill.{
  is_kept, is_dash, sanitize_runes, trim_dashes_left, trim_dashes_right,
  sanitize_spill_path_segment, run_id_segment, derive_run_output_id,
}
use swarmd.Agent.Spill.Names.{AllRunes}

-- An ASCII letter, digit, dash, low line or dot, by the numbers of their codes.
abbrev pub is_segment_rune : ℕ → Bool
is_segment_rune c =
    (leb 97 c && leb c 122)
    || ((leb 65 c && leb c 90) || ((leb 48 c && leb c 57) || (eqb c 45 || (eqb c 46 || eqb c 95))))

module _ (p : ℕ → Bool) where
  trim_dashes_left-AllRunes : (s : String) → AllRunes p s → AllRunes p (trim_dashes_left s)
  unfolding trim_dashes_left
  trim_dashes_left-AllRunes String.[] h = tt
  trim_dashes_left-AllRunes (String.◌∷◌ c s) h = elim (Bool-cases (is_dash c)) [
    | inl d ↦ rw d (trim_dashes_left-AllRunes s h.1)
    | inr d ↦ rw d h
  ]

  trim_dashes_right-AllRunes : (s : String) → AllRunes p s → AllRunes p (trim_dashes_right s)
  unfolding trim_dashes_right
  trim_dashes_right-AllRunes String.[] h = tt
  trim_dashes_right-AllRunes (String.◌∷◌ c s) h =
      elim (Bool-cases (is_empty (trim_dashes_right s) && is_dash c)) [
        | inl d ↦ rw d tt
        | inr d ↦ rw d (h.0, trim_dashes_right-AllRunes s h.1)
      ]

  concat-AllRunes : (s t : String) → AllRunes p s → AllRunes p t → AllRunes p (concat s t)
  concat-AllRunes String.[] t h k = k
  concat-AllRunes (String.◌∷◌ c s) t h k = (h.0, concat-AllRunes s t h.1 k)

  choice-AllRunes :
      (b : Bool) (s t : String) → AllRunes p s → AllRunes p t → AllRunes p (if b then s else t)
  choice-AllRunes true s t h k = h
  choice-AllRunes false s t h k = k

kept-segment : (c : ℕ) → is_kept c ≡ true → is_segment_rune c ≡ true
unfolding is_kept
kept-segment c h = ground arith

sanitize_runes-AllRunes : (s : String) → AllRunes is_segment_rune (sanitize_runes s)
unfolding sanitize_runes
sanitize_runes-AllRunes String.[] = tt
sanitize_runes-AllRunes (String.◌∷◌ c s) = elim (Bool-cases (is_kept (code c))) [
  | inl k ↦ rw k (kept-segment (code c) k, sanitize_runes-AllRunes s)
  | inr k ↦ rw k (refl, sanitize_runes-AllRunes s)
]

segment-AllRunes : (v : String) → AllRunes is_segment_rune (sanitize_spill_path_segment v)
unfolding sanitize_spill_path_segment
segment-AllRunes v =
    trim_dashes_right-AllRunes is_segment_rune (trim_dashes_left (sanitize_runes (trim_space v))) (
      trim_dashes_left-AllRunes is_segment_rune (sanitize_runes (trim_space v))
        (sanitize_runes-AllRunes (trim_space v)))

digit-AllRunes : (n : ℕ) → AllRunes is_segment_rune (digit n)
digit-AllRunes n =
    let d8 = if eqb n 8 then "8" else "9" in
    let d7 = if eqb n 7 then "7" else d8 in
    let d6 = if eqb n 6 then "6" else d7 in
    let d5 = if eqb n 5 then "5" else d6 in
    let d4 = if eqb n 4 then "4" else d5 in
    let d3 = if eqb n 3 then "3" else d4 in
    let d2 = if eqb n 2 then "2" else d3 in
    let d1 = if eqb n 1 then "1" else d2 in
    choice-AllRunes is_segment_rune (eqb n 0) "0" d1 (refl, tt)
      (choice-AllRunes is_segment_rune (eqb n 1) "1" d2 (refl, tt)
        (choice-AllRunes is_segment_rune (eqb n 2) "2" d3 (refl, tt)
          (choice-AllRunes is_segment_rune (eqb n 3) "3" d4 (refl, tt)
            (choice-AllRunes is_segment_rune (eqb n 4) "4" d5 (refl, tt)
              (choice-AllRunes is_segment_rune (eqb n 5) "5" d6 (refl, tt)
                (choice-AllRunes is_segment_rune (eqb n 6) "6" d7 (refl, tt)
                  (choice-AllRunes is_segment_rune (eqb n 7) "7" d8 (refl, tt)
                    (choice-AllRunes is_segment_rune (eqb n 8) "8" "9" (refl, tt) (refl, tt)))))))))

decimal_upto-AllRunes : (fuel n : ℕ) → AllRunes is_segment_rune (decimal_upto fuel n)
decimal_upto-AllRunes zero n = digit-AllRunes n
decimal_upto-AllRunes (suc fuel) n =
    choice-AllRunes is_segment_rune (ltb n 10) (digit n)
      (concat (decimal_upto fuel (n / 10)) (digit (n % 10))) (digit-AllRunes n)
      (concat-AllRunes is_segment_rune (decimal_upto fuel (n / 10)) (digit (n % 10))
        (decimal_upto-AllRunes fuel (n / 10)) (digit-AllRunes (n % 10)))

is_empty-concat : (s t : String) → is_empty s ≡ false → is_empty (concat s t) ≡ false
unfolding is_empty
is_empty-concat String.[] t h = ground arith
is_empty-concat (String.◌∷◌ c s) t h = refl

-- One segment of a path: some runes, and no other than those above.
abbrev pub IsSegment : String → Type 0
IsSegment v = AllRunes is_segment_rune v × (is_empty v ≡ false)

choice-IsSegment :
    (b : Bool) (v w : String)
    → (b ≡ true → IsSegment v)
    → (b ≡ false → IsSegment w)
    → IsSegment (if b then v else w)
choice-IsSegment true v w h k = h refl
choice-IsSegment false v w h k = k refl

module _ {V S : Type 0} (host : Host V S) (t : Trigger V) (s : S) where
  run_id_segment-AllRunes : (m : Option Metadata) → AllRunes is_segment_rune (run_id_segment host m)
  run_id_segment-AllRunes none = tt
  run_id_segment-AllRunes (some m) = given (m "server_run_id")
    where
      given :
          (o : Option MetaValue)
          → AllRunes is_segment_rune
              (elim o [ none ↦ "" | some raw ↦ sanitize_spill_path_segment (host.sprint raw) ])
      given none = tt
      given (some raw) = segment-AllRunes (host.sprint raw)

  -- The name of a run's directory is not empty, and has ASCII letters, digits, dashes, low lines and
  -- dots only, so that no separator stands in it: whatever the identifiers of the trigger and of its
  -- metadata are, it is one segment of a path.
  pub derive_run_output_id-IsSegment : IsSegment (derive_run_output_id host t s)
  unfolding derive_run_output_id is_empty
  derive_run_output_id-IsSegment =
      let run = run_id_segment host t.metadata in
      let id = sanitize_spill_path_segment t.id in
      let clock = decimal (host.now s) in
      let digits = decimal_upto-AllRunes (host.now s) (host.now s) in
      choice-IsSegment (is_empty run)
        (if is_empty id then concat "run-" clock else concat id (concat "-" clock)) run
        (λ _.
          choice-IsSegment (is_empty id) (concat "run-" clock) (concat id (concat "-" clock))
            (λ _. (
              concat-AllRunes is_segment_rune "run-" clock (refl, (refl, (refl, (refl, tt))))
                  digits,
              refl,
            ))
            (λ full. (
              concat-AllRunes is_segment_rune id (concat "-" clock) (segment-AllRunes t.id)
                  (refl, digits),
              is_empty-concat id (concat "-" clock) full,
            )))
        (λ full. (run_id_segment-AllRunes t.metadata, full))
