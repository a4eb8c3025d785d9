-- ===== src/Tools/Lines/Split.antt =====
-- pkg/tools/common/common.go: splitting a text and joining its lines.
use Prim.Native.Char.{Char}
use Prim.Native.String.{String}
use text.Mathlib.TextEquality.{Char-path}
use swarmd.Prelude.{
  ◌≡◌, refl, sym, ap, ◌∙◌, Bool, true, false, List, [], ◌∷◌, ◌++◌, if◌then◌else◌, if_false,
  is_empty, All, Bool-cases, arith, inl, inr,
}
use swarmd.Tools.Lines.{
  concat, is_newline, push_char, split_newlines, join_newlines, has_trailing_newline,
  drop_empty_last, split_preserving_line_structure,
}

-- A line has no newline.
abbrev pub IsLine : String → Type 0
IsLine String.[] = Unit
IsLine (String.◌∷◌ c s) = (is_newline c ≡ false) × IsLine s

concat-nil : (s : String) → concat s String.[] ≡ s
concat-nil String.[] = refl
concat-nil (String.◌∷◌ c s) = ap (λ t. String.◌∷◌ c t) (concat-nil s)

-- A line and a newline in front of a text are split off.
split_newlines-concat :
    (s t : String) → IsLine s → split_newlines (concat s (concat "\n" t)) ≡ s ∷ split_newlines t
unfolding split_newlines
split_newlines-concat String.[] t h = refl
split_newlines-concat (String.◌∷◌ c s) t h = rw (h.0, split_newlines-concat s t h.1) refl

split_newlines-line : (s : String) → IsLine s → split_newlines s ≡ s ∷ []
unfolding split_newlines
split_newlines-line String.[] h = refl
split_newlines-line (String.◌∷◌ c s) h = rw (h.0, split_newlines-line s h.1) refl

concat_assoc : (s t u : String) → concat (concat s t) u ≡ concat s (concat t u)
concat_assoc String.[] t u = refl
concat_assoc (String.◌∷◌ c s) t u = ap (λ x. String.◌∷◌ c x) (concat_assoc s t u)

split_newlines-join :
    (s : String) (ss : List String)
    → All IsLine (s ∷ ss)
    → split_newlines (concat (join_newlines (s ∷ ss)) "\n") ≡ (s ∷ ss) ++ "" ∷ []
unfolding join_newlines split_newlines
split_newlines-join s [] h = split_newlines-concat s "" h.0
split_newlines-join s (t ∷ ts) h =
    ap split_newlines (concat_assoc s (concat "\n" (join_newlines (t ∷ ts))) "\n")
    ∙ split_newlines-concat s (concat (join_newlines (t ∷ ts)) "\n") h.0
    ∙ ap (λ l. s ∷ l) (split_newlines-join t ts h.1)

drop_empty_last-snoc : (ss : List String) → drop_empty_last (ss ++ "" ∷ []) ≡ ss
unfolding is_empty
drop_empty_last-snoc [] = refl
drop_empty_last-snoc (s ∷ []) = refl
drop_empty_last-snoc (s ∷ t ∷ ts) = ap (λ l. s ∷ l) (drop_empty_last-snoc (t ∷ ts))

not_empty : (s t : String) (c : Char) → is_empty (concat s (String.◌∷◌ c t)) ≡ false
unfolding is_empty
not_empty String.[] t c = refl
not_empty (String.◌∷◌ d s) t c = refl

-- Lines that are written with a newline each are read back.
pub split_preserving_line_structure-join :
    (s : String) (ss : List String)
    → All IsLine (s ∷ ss)
    → split_preserving_line_structure (concat (join_newlines (s ∷ ss)) "\n") ≡ s ∷ ss
unfolding split_preserving_line_structure
split_preserving_line_structure-join s ss h =
    if_false _ _ (not_empty (join_newlines (s ∷ ss)) "" _)
    ∙ ap drop_empty_last (split_newlines-join s ss h)
    ∙ drop_empty_last-snoc (s ∷ ss)

-- The pieces of a text that is not empty.
data Pieces : List String → Type 0 where
  single : (c : Char) (s : String) → Pieces (String.◌∷◌ c s ∷ [])
  several : (s t : String) (ts : List String) → Pieces (s ∷ t ∷ ts)

split_newlines-Pieces : (c : Char) (s : String) → Pieces (split_newlines (String.◌∷◌ c s))
unfolding split_newlines
split_newlines-Pieces c String.[] = elim (Bool-cases (is_newline c)) [
  | inl t ↦ rw t (several "" "" [])
  | inr f ↦ rw f (single c String.[])
]
split_newlines-Pieces c (String.◌∷◌ d s) = elim (Bool-cases (is_newline c)) [
  | inl t ↦ rw t (consed _ (split_newlines-Pieces d s))
  | inr f ↦ rw f (pushed _ (split_newlines-Pieces d s))
]
  where
    consed : (l : List String) → Pieces l → Pieces ("" ∷ l)
    consed l (single x s) = several _ _ _
    consed l (several s t ts) = several _ _ _

    pushed : (l : List String) → Pieces l → Pieces (push_char c l)
    pushed l (single x s) = single c (String.◌∷◌ x s)
    pushed l (several s t ts) = several (String.◌∷◌ c s) t ts

newline : (c : Char) → is_newline c ≡ true → (s : String) → concat "\n" s ≡ String.◌∷◌ c s
newline c h s = ap (λ x. String.◌∷◌ x s) (Char-path _ c (ground arith))

-- The text of lines, with a newline at the end or without.
abbrev pub join_with : Bool → List String → String
join_with b [] = ""
join_with b (s ∷ ss) = if b then concat (join_newlines (s ∷ ss)) "\n" else join_newlines (s ∷ ss)

-- What the pieces of a text become behind one more character.
data Grown (c : Char) : List String → Type 0 where
  grown :
      (q : String) (qs l : List String)
      → drop_empty_last l ≡ q ∷ qs
      → drop_empty_last (push_char c l) ≡ push_char c (q ∷ qs)
      → drop_empty_last ("" ∷ l) ≡ "" ∷ q ∷ qs
      → Grown c l

Pieces-Grown : (c : Char) (l : List String) → Pieces l → Grown c l
unfolding is_empty
Pieces-Grown c l (single x s) = grown (String.◌∷◌ x s) [] _ refl refl refl
Pieces-Grown c l (several s t ts) = grown s (drop_empty_last (t ∷ ts)) _ refl refl refl

join_newlines-push :
    (c : Char) (q : String) (qs : List String)
    → join_newlines (push_char c (q ∷ qs)) ≡ String.◌∷◌ c (join_newlines (q ∷ qs))
unfolding join_newlines
join_newlines-push c q [] = refl
join_newlines-push c q (r ∷ rs) = refl

join_with-push :
    (b : Bool) (c : Char) (q : String) (qs : List String)
    → join_with b (push_char c (q ∷ qs)) ≡ String.◌∷◌ c (join_with b (q ∷ qs))
join_with-push true c q qs = ap (λ x. concat x "\n") (join_newlines-push c q qs)
join_with-push false c q qs = join_newlines-push c q qs

join_with-cons :
    (b : Bool) (q : String) (qs : List String)
    → join_with b ("" ∷ q ∷ qs) ≡ concat "\n" (join_with b (q ∷ qs))
unfolding join_newlines
join_with-cons true q qs = refl
join_with-cons false q qs = refl

-- One more character in front.
grow :
    (b : Bool) (c : Char) (t : String) (l : List String)
    → Grown c l
    → join_with b (drop_empty_last l) ≡ t
    → join_with b (drop_empty_last (if is_newline c then "" ∷ l else push_char c l))
      ≡ String.◌∷◌ c t
grow b c t l (grown q qs _ e pushed consed) h = elim (Bool-cases (is_newline c)) [
  | inl y ↦ rw y (
      ap (join_with b) consed
      ∙ join_with-cons b q qs
      ∙ ap (concat "\n") (ap (join_with b) (sym e) ∙ h)
      ∙ newline c y t)
  | inr n ↦ rw n (
      ap (join_with b) pushed
      ∙ join_with-push b c q qs
      ∙ ap (λ x. String.◌∷◌ c x) (ap (join_with b) (sym e) ∙ h))
]

join_with-char :
    (c : Char)
    → join_with
        (is_newline c)
        (drop_empty_last (if is_newline c then "" ∷ "" ∷ [] else String.◌∷◌ c "" ∷ []))
      ≡ String.◌∷◌ c ""
unfolding join_newlines is_empty
join_with-char c = elim (Bool-cases (is_newline c)) [
  | inl y ↦ rw y (newline c y "")
  | inr n ↦ rw n refl
]

-- A text with the lines that it is split into is the same text.
pub join_with-split :
    (t : String) → join_with (has_trailing_newline t) (split_preserving_line_structure t) ≡ t
unfolding split_preserving_line_structure is_empty has_trailing_newline split_newlines
join_with-split String.[] = refl
join_with-split (String.◌∷◌ c String.[]) = join_with-char c
join_with-split (String.◌∷◌ c (String.◌∷◌ d s)) =
    grow (has_trailing_newline (String.◌∷◌ d s)) c (String.◌∷◌ d s)
      (split_newlines (String.◌∷◌ d s)) (Pieces-Grown c _ (split_newlines-Pieces d s))
      (join_with-split (String.◌∷◌ d s))
