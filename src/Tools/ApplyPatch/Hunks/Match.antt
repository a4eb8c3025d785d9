-- ===== src/Tools/ApplyPatch/Hunks/Match.antt =====
-- pkg/tools/applypatch/applypatch.go: what `findPatchMatch` finds.
use swarmd.Prelude.{
  ℕ, suc, ◌+◌, ◌≤◌, ◌≡◌, refl, sym, ap, ◌∙◌, ◌≢◌, ◌⊎◌, inl, inr, String, Bool, true, false, ◌&&◌,
  List, [], ◌∷◌, ◌++◌, none, some, ltb, leb, eq_iff, if◌then◌else◌, if_true, if_false, Bool-cases,
  length, take, drop, length-append, length-take, length-drop, take-drop, drop-append_le,
  append_assoc, take-append, arith,
}
use swarmd.Tools.ApplyPatch.Hunks.{all_equal, patch_line_slice_equal, scan_match, find_patch_match}

all_equal-eq : (xs ys : List String) → length xs ≡ length ys → all_equal xs ys ≡ true → xs ≡ ys
all_equal-eq [] [] e h = refl
all_equal-eq [] (y ∷ ys) e h = absurd (omega arith)
all_equal-eq (x ∷ xs) [] e h = absurd (omega arith)
all_equal-eq (x ∷ xs) (y ∷ ys) e h = ground (arith, eq_iff x y, all_equal-eq xs ys)

all_equal_refl : (xs : List String) → all_equal xs xs ≡ true
all_equal_refl [] = refl
all_equal_refl (x ∷ xs) = ground (arith, eq_iff x x, all_equal_refl xs)

slice-eq : (xs ys : List String) → patch_line_slice_equal xs ys ≡ true → xs ≡ ys
unfolding patch_line_slice_equal
slice-eq xs ys h = ground (arith, all_equal-eq xs ys)

slice_refl : (xs : List String) → patch_line_slice_equal xs xs ≡ true
unfolding patch_line_slice_equal
slice_refl xs = ground (arith, all_equal_refl xs)

-- No place in the lines has the target.
abbrev pub Nowhere : List String → List String → Type 0
Nowhere target lines = (pre post : List String) → lines ≢ pre ++ (target ++ post)

-- The target stands behind `pre`, and nowhere before.
pub record IsMatch (target lines : List String) (at : ℕ) : Type 0 where
  pub pre : List String
  pub post : List String
  pub parts : lines ≡ pre ++ (target ++ post)
  pub place : length pre ≡ at
  pub least : (pre' post' : List String) → lines ≡ pre' ++ (target ++ post') → at ≤ length pre'

uncons : {x y : String} {xs ys : List String} → ◌≡◌ {A = List String} (x ∷ xs) (y ∷ ys) → xs ≡ ys
uncons e = cc

Nowhere-nil : (t : String) (ts : List String) → Nowhere (t ∷ ts) []
Nowhere-nil t ts [] post e = cc
Nowhere-nil t ts (p ∷ pre) post e = cc

module _ (t : String) (ts : List String) where
  -- A match at the head of the lines, as the loop tests it.
  head_test : List String → Bool
  head_test lines =
      leb (length (t ∷ ts)) (length lines)
      && patch_line_slice_equal (take (length (t ∷ ts)) lines) (t ∷ ts)

  head_test-append : (post : List String) → head_test ((t ∷ ts) ++ post) ≡ true
  unfolding head_test
  head_test-append post =
      rw (take-append ts post, slice_refl (t ∷ ts)) (ground (arith, length-append ts post))

  head_test-parts :
      (lines : List String)
      → head_test lines ≡ true
      → lines ≡ (t ∷ ts) ++ drop (length (t ∷ ts)) lines
  unfolding head_test
  head_test-parts lines h =
      sym (take-drop (length (t ∷ ts)) lines)
      ∙ ap (λ l. l ++ drop (length (t ∷ ts)) lines) (slice-eq _ (t ∷ ts) (ground arith))

  scan_match-short :
      (idx : ℕ) (rest : List String) → length rest ≤ length ts → scan_match (t ∷ ts) idx rest ≡ none
  unfolding scan_match
  scan_match-short idx [] h = refl
  scan_match-short idx (line ∷ rest) h = ground arith

  scan_match-step :
      (idx : ℕ) (line : String) (rest : List String)
      → scan_match (t ∷ ts) idx (line ∷ rest)
        ≡ (if head_test (line ∷ rest) then some idx else scan_match (t ∷ ts) (suc idx) rest)
  unfolding scan_match head_test
  scan_match-step idx line rest = ground (arith, scan_match-short (suc idx) rest)

  -- The loop finds the first match, or there is none.
  scan_match-IsMatch :
      (idx : ℕ) (rest : List String)
      → (Nowhere (t ∷ ts) rest × (scan_match (t ∷ ts) idx rest ≡ none))
        ⊎ ((n : ℕ) × IsMatch (t ∷ ts) rest n × (scan_match (t ∷ ts) idx rest ≡ some (idx + n)))
  unfolding scan_match
  scan_match-IsMatch idx [] = inl (Nowhere-nil t ts, refl)
  scan_match-IsMatch idx (line ∷ rest) = elim (Bool-cases (head_test (line ∷ rest))) [
    | inl hit ↦
        inr (0, now hit, scan_match-step idx line rest ∙ if_true _ _ hit ∙ ap some (omega arith))
    | inr miss ↦ later miss (scan_match-IsMatch (suc idx) rest)
  ]
    where
      now : head_test (line ∷ rest) ≡ true → IsMatch (t ∷ ts) (line ∷ rest) 0
      now hit = record {
        pre = [];
        post = drop (length (t ∷ ts)) (line ∷ rest);
        parts = head_test-parts (line ∷ rest) hit;
        place = refl;
        least = λ pre' post' e. omega arith;
      }

      not_here :
          head_test (line ∷ rest) ≡ false → (post : List String) → line ∷ rest ≢ (t ∷ ts) ++ post
      not_here miss post e = clash (ap head_test e ∙ head_test-append post) miss
        where
          clash : {b : Bool} → b ≡ true → b ≡ false → ⊥
          clash p q = cc

      nowhere :
          head_test (line ∷ rest) ≡ false → Nowhere (t ∷ ts) rest → Nowhere (t ∷ ts) (line ∷ rest)
      nowhere miss none_left [] post e = not_here miss post e
      nowhere miss none_left (p ∷ pre) post e = none_left pre post (uncons e)

      least_of :
          head_test (line ∷ rest) ≡ false
          → (n : ℕ) → IsMatch (t ∷ ts) rest n
          → (pre post : List String) → line ∷ rest ≡ pre ++ ((t ∷ ts) ++ post)
          → suc n ≤ length pre
      least_of miss n m [] post e = absurd (not_here miss post e)
      least_of miss n m (p ∷ pre) post e = omega (arith, m.least pre post (uncons e))

      behind :
          head_test (line ∷ rest) ≡ false
          → (n : ℕ) → IsMatch (t ∷ ts) rest n
          → IsMatch (t ∷ ts) (line ∷ rest) (suc n)
      behind miss n m = record {
        pre = line ∷ m.pre;
        post = m.post;
        parts = ap (λ l. line ∷ l) m.parts;
        place = ap suc m.place;
        least = least_of miss n m;
      }

      later :
          head_test (line ∷ rest) ≡ false
          → (Nowhere (t ∷ ts) rest × (scan_match (t ∷ ts) (suc idx) rest ≡ none))
            ⊎ ((n : ℕ) × IsMatch (t ∷ ts) rest n
                × (scan_match (t ∷ ts) (suc idx) rest ≡ some (suc idx + n)))
          → (Nowhere (t ∷ ts) (line ∷ rest) × (scan_match (t ∷ ts) idx (line ∷ rest) ≡ none))
            ⊎ ((n : ℕ) × IsMatch (t ∷ ts) (line ∷ rest) n
                × (scan_match (t ∷ ts) idx (line ∷ rest) ≡ some (idx + n)))
      later miss (inl (away, e)) =
          inl (nowhere miss away, scan_match-step idx line rest ∙ if_false _ _ miss ∙ e)
      later miss (inr (n, m, e)) = inr (
        suc n,
        behind miss n m,
        scan_match-step idx line rest ∙ if_false _ _ miss ∙ e ∙ ap some (omega arith),
      )

-- The same from an index on.
abbrev pub NowhereFrom : ℕ → List String → List String → Type 0
NowhereFrom start target lines =
    (pre post : List String) → start ≤ length pre → lines ≢ pre ++ (target ++ post)

-- The target stands behind `pre`, no earlier than at `start`, and at no place in between.
pub record IsMatchFrom (start : ℕ) (target lines : List String) (at : ℕ) : Type 0 where
  pub pre : List String
  pub post : List String
  pub parts : lines ≡ pre ++ (target ++ post)
  pub place : length pre ≡ at
  pub start_le : start ≤ at
  pub least :
      (pre' post' : List String)
      → lines ≡ pre' ++ (target ++ post')
      → start ≤ length pre'
      → at ≤ length pre'

module _ (target lines : List String) (start : ℕ) where
  tail_parts :
      (pre post : List String)
      → start ≤ length pre
      → lines ≡ pre ++ (target ++ post)
      → drop start lines ≡ drop start pre ++ (target ++ post)
  tail_parts pre post le e = ap (drop start) e ∙ drop-append_le pre (target ++ post) start le

  -- A match in the lines from `start` on is one in all of them.
  IsMatch-IsMatchFrom :
      start ≤ length lines
      → (n : ℕ) → IsMatch target (drop start lines) n
      → IsMatchFrom start target lines (start + n)
  IsMatch-IsMatchFrom le n m = record {
    pre = take start lines ++ m.pre;
    post = m.post;
    parts =
        sym (take-drop start lines)
        ∙ ap (λ l. take start lines ++ l) m.parts
        ∙ sym (append_assoc (take start lines) m.pre (target ++ m.post));
    place = omega (arith, length-append (take start lines) m.pre, length-take start lines, m.place);
    start_le = omega arith;
    least = λ pre' post' e le'. omega (
      arith,
      m.least (drop start pre') post' (tail_parts pre' post' le' e),
      length-drop pre' start,
    );
  }

-- A search finds the first match from `start` on, or there is none.
pub find_patch_match-IsMatchFrom :
    (target lines : List String) (start : ℕ)
    → start ≤ length lines
    → (NowhereFrom start target lines × (find_patch_match lines target start ≡ none))
      ⊎ ((at : ℕ) × IsMatchFrom start target lines at
          × (find_patch_match lines target start ≡ some at))
unfolding find_patch_match
find_patch_match-IsMatchFrom [] lines start le = inr (
  start,
  record {
    pre = take start lines;
    post = drop start lines;
    parts = sym (take-drop start lines);
    place = omega (arith, length-take start lines);
    start_le = omega arith;
    least = λ pre' post' e le'. le';
  },
  ap some (if_false {b = ltb (length lines) start} _ _ (ground arith)),
)
find_patch_match-IsMatchFrom (t ∷ ts) lines start le =
    elim (scan_match-IsMatch t ts start (drop start lines)) [
      | inl (away, e) ↦ inl (
        (λ pre post le' e'.
            away (drop start pre) post (tail_parts (t ∷ ts) lines start pre post le' e')),
        e,
      )
      | inr (n, m, e) ↦ inr (start + n, IsMatch-IsMatchFrom (t ∷ ts) lines start le n m, e)
    ]
