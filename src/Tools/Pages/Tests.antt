-- ===== src/Tools/Pages/Tests.antt =====
-- Runs of the pages of pkg/tools/common/pagination.go.
use swarmd.Tools.Pages.{
  clamp_int, normalize_pagination_window, range_for_total, min_int, new_collector, collect,
  collect-page,
}
use swarmd.Prelude.{ℕ, ◌+◌, ◌-◌, ◌≡◌, List, [], ◌∷◌, length, take, drop, ltb, arith}

abbrev five_items : List ℕ
five_items = 10 ∷ 11 ∷ 12 ∷ 13 ∷ 14 ∷ []

collect-page_example :
    let w = normalize_pagination_window 4 3 2 9 in
    let c = collect five_items (new_collector w) in
    (c.entries ≡ take (clamp_int 3 2 9) (drop (4 - 1) five_items))
    × (c.total ≡ length five_items)
    × (range_for_total w c.total ≡ (
      min_int c.total w.start,
      min_int c.total w.start + length c.entries,
      ltb 0 (length c.entries),
    ))
collect-page_example = collect-page 4 3 2 9 five_items (omega arith)
