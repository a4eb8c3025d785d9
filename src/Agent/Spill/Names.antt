-- ===== src/Agent/Spill/Names.antt =====
-- pkg/agent/output_spill.go: which names the directories of runs get.
use swarmd.Prelude.{
  ℕ, ◌≡◌, refl, ap, ◌∙◌, String, Bool, true, false, not, ◌&&◌, some, if◌then◌else◌, eqb, is_empty,
  is_space, trim_space, trim_left, trim_right, arith,
}
use Prim.Native.Char.{code}
use swarmd.Server.Context.{Metadata, MetaValue}
use swarmd.Agent.Types.{Trigger}
use swarmd.Agent.Host.{Host}
use swarmd.Agent.Spill.{
  is_kept, sanitize_runes, trim_dashes_left, trim_dashes_right, sanitize_spill_path_segment,
  derive_run_output_id,
}

-- Every rune passes the test.
abbrev pub AllRunes : (ℕ → Bool) → String → Type 0
AllRunes p String.[] = Unit
AllRunes p (String.◌∷◌ c s) = (p (code c) ≡ true) × AllRunes p s

-- A letter, a digit, a low line or a dot.
abbrev pub is_plain : ℕ → Bool
is_plain c = is_kept c && not (eqb c b'-')

plain-kept : (c : ℕ) → is_plain c ≡ true → is_kept c ≡ true
plain-kept c h = ground arith

plain-dash : (c : ℕ) → is_plain c ≡ true → eqb c b'-' ≡ false
plain-dash c h = ground arith

plain-space : (c : ℕ) → is_plain c ≡ true → is_space c ≡ false
unfolding is_space is_kept
plain-space c h = ground arith

trim_left-plain : (s : String) → AllRunes is_plain s → trim_left s ≡ s
unfolding trim_left
trim_left-plain String.[] h = refl
trim_left-plain (String.◌∷◌ c s) h = rw (plain-space (code c) h.0) refl

trim_right-plain : (s : String) → AllRunes is_plain s → trim_right s ≡ s
unfolding trim_right
trim_right-plain String.[] h = refl
trim_right-plain (String.◌∷◌ c s) h =
    rw (trim_right-plain s h.1, plain-space (code c) h.0) (no_trim (is_empty s))
  where
    no_trim : (b : Bool) → (if b && false then String.[] else String.◌∷◌ c s) ≡ String.◌∷◌ c s
    no_trim true = refl
    no_trim false = refl

sanitize_runes-plain : (s : String) → AllRunes is_plain s → sanitize_runes s ≡ s
unfolding sanitize_runes
sanitize_runes-plain String.[] h = refl
sanitize_runes-plain (String.◌∷◌ c s) h =
    rw (plain-kept (code c) h.0, sanitize_runes-plain s h.1) refl

trim_dashes_left-plain : (s : String) → AllRunes is_plain s → trim_dashes_left s ≡ s
unfolding trim_dashes_left
trim_dashes_left-plain String.[] h = refl
trim_dashes_left-plain (String.◌∷◌ c s) h = rw (plain-dash (code c) h.0) refl

trim_dashes_right-plain : (s : String) → AllRunes is_plain s → trim_dashes_right s ≡ s
unfolding trim_dashes_right
trim_dashes_right-plain String.[] h = refl
trim_dashes_right-plain (String.◌∷◌ c s) h =
    rw (trim_dashes_right-plain s h.1, plain-dash (code c) h.0) (no_trim (is_empty s))
  where
    no_trim : (b : Bool) → (if b && false then String.[] else String.◌∷◌ c s) ≡ String.◌∷◌ c s
    no_trim true = refl
    no_trim false = refl

sanitize_spill_path_segment-plain :
    (v : String) → AllRunes is_plain v → sanitize_spill_path_segment v ≡ v
unfolding sanitize_spill_path_segment trim_space
sanitize_spill_path_segment-plain v h =
    ap (λ x. trim_dashes_right (trim_dashes_left (sanitize_runes (trim_right x))))
      (trim_left-plain v h)
    ∙ ap (λ x. trim_dashes_right (trim_dashes_left (sanitize_runes x))) (trim_right-plain v h)
    ∙ ap (λ x. trim_dashes_right (trim_dashes_left x)) (sanitize_runes-plain v h)
    ∙ ap trim_dashes_right (trim_dashes_left-plain v h)
    ∙ trim_dashes_right-plain v h

-- A run identifier of letters, digits, low lines and dots that the trigger's metadata give is taken as
-- the directory's name as it stands. Two dots are such an identifier.
pub derive_run_output_id-plain :
    {V S : Type 0} (host : Host V S) (t : Trigger V) (m : Metadata) (raw : MetaValue) (s : S)
    → t.metadata ≡ some m
    → m "server_run_id" ≡ some raw
    → AllRunes is_plain (host.sprint raw)
    → is_empty (host.sprint raw) ≡ false
    → derive_run_output_id host t s ≡ host.sprint raw
unfolding derive_run_output_id
derive_run_output_id-plain host t m raw s has_map has_run plain full =
    rw (has_map, has_run, sanitize_spill_path_segment-plain (host.sprint raw) plain, full) refl
