-- ===== src/Tools/Pages.antt =====
-- pkg/tools/common/pagination.go with the clamps of common.go, and the page that
-- pkg/tools/listdir/listdir.go collects.
mod Tests
use swarmd.Prelude.{
  ℕ, zero, suc, ◌+◌, ◌-◌, ◌≤◌, ◌<◌, ◌≡◌, refl, sym, ap, ◌∙◌, subst, Bool, true, false, ◌&&◌, List,
  [], ◌∷◌, ◌++◌, if◌then◌else◌, eqb, leb, ltb, length, take, drop, length-append, length-take,
  length-drop, append_assoc, arith,
}
use mathlib.Core.List.{append-nil}

-- A window whose start counts from 0; a number that is not positive is 0.
pub record PaginationWindow : Type 0 where
  pub start : ℕ
  pub limit : ℕ

abbrev pub clamp_int : (value default_value max_value : ℕ) → ℕ
clamp_int v d m = if eqb v 0 then d else if ltb 0 m && ltb m v then m else v

abbrev pub min_int : ℕ → ℕ → ℕ
min_int l r = if ltb l r then l else r

unfoldable pub normalize_pagination_window :
    (offset limit default_limit max_limit : ℕ) → PaginationWindow
normalize_pagination_window offset limit d m = record {
  start = (if eqb offset 0 then 1 else offset) - 1;
  limit = clamp_int limit d m;
}

-- The start and the end of the window in so many items, and whether it has any.
unfoldable pub range_for_total : PaginationWindow → ℕ → ℕ × ℕ × Bool
range_for_total w total =
    if leb total w.start
    then (total, total, false)
    else (w.start, min_int total (w.start + w.limit), true)

-- `directoryPageCollector`
pub record PageCollector (A : Type 0) : Type 0 where
  pub window : PaginationWindow
  pub entries : List A
  pub total : ℕ

module _ {A : Type 0} where
  unfoldable pub append : A → PageCollector A → PageCollector A
  append entry c =
      let idx = c.total in
      if leb c.window.start idx && ltb (length c.entries) c.window.limit
      then record c { entries = c.entries ++ entry ∷ []; total = idx + 1 }
      else record c { total = idx + 1 }

  -- The entries that a walk finds, one after the other.
  unfoldable pub collect : List A → PageCollector A → PageCollector A
  unfolding append
  collect [] c = c
  collect (e ∷ es) c = collect es (append e c)

  -- A collector that has seen these entries.
  record IsPage (w : PaginationWindow) (all : List A) (c : PageCollector A) : Type 0 where
    window : c.window ≡ w
    total : c.total ≡ length all
    entries : c.entries ≡ take w.limit (drop w.start all)

  drop_snoc_ge :
      (n : ℕ) (xs : List A) (x : A) → n ≤ length xs → drop n (xs ++ x ∷ []) ≡ drop n xs ++ x ∷ []
  drop_snoc_ge zero xs x le = refl
  drop_snoc_ge (suc n) [] x le = absurd (omega arith)
  drop_snoc_ge (suc n) (y ∷ ys) x le = drop_snoc_ge n ys x (omega arith)

  drop_snoc_lt : (n : ℕ) (xs : List A) (x : A) → length xs < n → drop n (xs ++ x ∷ []) ≡ drop n xs
  drop_snoc_lt zero xs x lt = absurd (omega arith)
  drop_snoc_lt (suc zero) [] x lt = refl
  drop_snoc_lt (suc (suc n)) [] x lt = refl
  drop_snoc_lt (suc n) (y ∷ ys) x lt = drop_snoc_lt n ys x (omega arith)

  take_snoc_lt :
      (n : ℕ) (xs : List A) (x : A) → length xs < n → take n (xs ++ x ∷ []) ≡ take n xs ++ x ∷ []
  take_snoc_lt zero xs x lt = absurd (omega arith)
  take_snoc_lt (suc zero) [] x lt = refl
  take_snoc_lt (suc (suc n)) [] x lt = refl
  take_snoc_lt (suc n) (y ∷ ys) x lt = ap (λ l. y ∷ l) (take_snoc_lt n ys x (omega arith))

  take_snoc_ge : (n : ℕ) (xs : List A) (x : A) → n ≤ length xs → take n (xs ++ x ∷ []) ≡ take n xs
  take_snoc_ge zero xs x le = refl
  take_snoc_ge (suc n) [] x le = absurd (omega arith)
  take_snoc_ge (suc n) (y ∷ ys) x le = ap (λ l. y ∷ l) (take_snoc_ge n ys x (omega arith))

  append-IsPage :
      (w : PaginationWindow) (all : List A) (e : A) (c : PageCollector A)
      → IsPage w all c
      → IsPage w (all ++ e ∷ []) (append e c)
  unfolding append
  append-IsPage w all e c p = record {
    window = ground (arith, p.window);
    total = ground (arith, p.total, length-append all (e ∷ []));
    entries = ground (
      arith,
      p.window,
      p.total,
      p.entries,
      length-take w.limit (drop w.start all),
      length-drop all w.start,
      drop_snoc_ge w.start all e,
      drop_snoc_lt w.start all e,
      take_snoc_lt w.limit (drop w.start all) e,
      take_snoc_ge w.limit (drop w.start all) e,
    );
  }

  collect-IsPage :
      (w : PaginationWindow) (all es : List A) (c : PageCollector A)
      → IsPage w all c
      → IsPage w (all ++ es) (collect es c)
  unfolding collect
  collect-IsPage w all [] c p = subst (λ l. IsPage w l c) (sym (append-nil all)) p
  collect-IsPage w all (e ∷ es) c p =
      subst (λ l. IsPage w l (collect es (append e c))) (append_assoc all (e ∷ []) es)
        (collect-IsPage w (all ++ e ∷ []) es (append e c) (append-IsPage w all e c p))

  -- A collector that has seen nothing yet.
  unfoldable pub new_collector : PaginationWindow → PageCollector A
  new_collector w = record { window = w; entries = []; total = 0 }

  drop_nil : (n : ℕ) → drop {A = A} n [] ≡ []
  drop_nil zero = refl
  drop_nil (suc n) = refl

  take_nil : (n : ℕ) → take {A = A} n [] ≡ []
  take_nil zero = refl
  take_nil (suc n) = refl

  new_collector-IsPage : (w : PaginationWindow) → IsPage w [] (new_collector w)
  unfolding new_collector
  new_collector-IsPage w = record {
    window = refl;
    total = refl;
    entries = sym (ap (take w.limit) (drop_nil w.start) ∙ take_nil w.limit);
  }

  collect-IsPage_new :
      (w : PaginationWindow) (all : List A) → IsPage w all (collect all (new_collector w))
  collect-IsPage_new w all = collect-IsPage w [] all (new_collector w) (new_collector-IsPage w)

  range_for_total-IsPage :
      (w : PaginationWindow) (all : List A) (c : PageCollector A)
      → 0 < w.limit
      → IsPage w all c
      → range_for_total w c.total ≡ (
        min_int c.total w.start,
        min_int c.total w.start + length c.entries,
        ltb 0 (length c.entries),
      )
  unfolding range_for_total
  range_for_total-IsPage w all c pos p =
      let n = ap length p.entries ∙ length-take w.limit (drop w.start all) in
      ground (arith, pos, p.total, n, length-drop all w.start)

-- A list that is read in pages of a positive default size: the collector keeps the
-- items of the window, in their order, counts all of them, and the range that is
-- shown ends as many items after its start as were kept, and is refused exactly when
-- none was.
pub collect-page :
    {A : Type 0} (offset limit d m : ℕ) (all : List A)
    → 0 < d
    → let w = normalize_pagination_window offset limit d m in
      let c = collect all (new_collector w) in
      (c.entries ≡ take (clamp_int limit d m) (drop (offset - 1) all))
      × (c.total ≡ length all)
      × (range_for_total w c.total ≡ (
        min_int c.total w.start,
        min_int c.total w.start + length c.entries,
        ltb 0 (length c.entries),
      ))
unfolding normalize_pagination_window
collect-page offset limit d m all pos =
    let w = normalize_pagination_window offset limit d m in
    let p = collect-IsPage_new w all in
    (
      p.entries ∙ ap (λ s. take w.limit (drop s all)) (ground arith),
      p.total,
      range_for_total-IsPage w all _ (ground (arith, pos)) p,
    )
