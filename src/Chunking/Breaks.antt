-- ===== src/Chunking/Breaks.antt =====
-- chunking.rs: code fences and break points.
pub mod Scan
pub mod Window
pub mod Newlines
use Prim.Native.Nat.{compare, Ordering}
use mathlib.Core.List.{foldl}
use mathlib.Core.Option
use rqmd.Common.{
  ℕ, ◌+◌, Bool, true, false, not, ◌&&◌, ◌||◌, Option, none, some, List, [], ◌∷◌, map, ltb, leb,
  ◌==◌, if◌then◌else◌, length,
}
use rqmd.Text.{Bytes}
use rqmd.Chunking.{BreakPoint, CodeFenceRegion}
use rqmd.Chunking.Patterns.{Match, Pattern, find_iter, fence_mark, match_len, break_patterns}

-- The loop over the marks, and the one over the fences left open at the end. `opens` has its top
-- first.
pair_fences : ℕ → List ℕ → List Match → List CodeFenceRegion
pair_fences end opens [] = map (λ start. record { start = start; end = end }) opens
pair_fences end [] (m ∷ ms) = pair_fences end (m.start ∷ []) ms
pair_fences end (start ∷ opens) (m ∷ ms) =
    record { start = start; end = m.end } ∷ pair_fences end opens ms

unfoldable pub scan_code_fences : Bytes → List CodeFenceRegion
unfolding pair_fences find_iter fence_mark
scan_code_fences t = pair_fences (length t) [] (find_iter fence_mark t)

unfoldable pub inside_fence : ℕ → List CodeFenceRegion → Bool
inside_fence pos [] = false
inside_fence pos (f ∷ fences) = ltb f.start pos && ltb pos f.end || inside_fence pos fences

-- The map `seen` as a list of its entries. An entry is raised to the higher score.
note_break : ℕ → ℕ → List BreakPoint → List BreakPoint
note_break pos score [] = record { pos = pos; score = score } ∷ []
note_break pos score (b ∷ seen) =
    if b.pos == pos
    then (if ltb b.score score then record { pos = pos; score = score } else b) ∷ seen
    else b ∷ note_break pos score seen

-- The inner loop's body.
add_match : List CodeFenceRegion → ℕ → List BreakPoint → Match → List BreakPoint
add_match fences score seen m =
    if inside_fence m.start fences then seen else note_break m.start score seen

insert_by_pos : BreakPoint → List BreakPoint → List BreakPoint
insert_by_pos b [] = b ∷ []
insert_by_pos b (c ∷ points) =
    if leb b.pos c.pos then b ∷ c ∷ points else c ∷ insert_by_pos b points

sort_by_pos : List BreakPoint → List BreakPoint
sort_by_pos [] = []
sort_by_pos (b ∷ points) = insert_by_pos b (sort_by_pos points)

module _ (digit_len : Bytes → ℕ) where
  -- The outer loop's body.
  add_pattern : Bytes → List CodeFenceRegion → List BreakPoint → Pattern × ℕ → List BreakPoint
  add_pattern t fences seen (p, score) =
      foldl (add_match fences score) seen (find_iter (match_len digit_len p) t)

  unfoldable pub scan_break_points : Bytes → List CodeFenceRegion → List BreakPoint
  unfolding note_break add_match insert_by_pos sort_by_pos add_pattern inside_fence find_iter
      match_len
  scan_break_points t fences = sort_by_pos (foldl (add_pattern t fences) [] break_patterns)

-- `max_by`: of the entries that compare equal the last one stays.
max_by : Option BreakPoint → BreakPoint → Option BreakPoint
max_by none b = some b
max_by (some a) b = elim (compare a.score b.score) [
  | Ordering.gt ↦ some a
  | Ordering.lt ↦ some b
  | Ordering.eq ↦ if ltb b.pos a.pos then some a else some b
]

max_in_window : ℕ → ℕ → Option BreakPoint → List BreakPoint → Option BreakPoint
max_in_window from to best [] = best
max_in_window from to best (b ∷ points) =
    max_in_window from to (if leb from b.pos && ltb b.pos to then max_by best b else best) points

unfoldable pub best_break_in_window : List BreakPoint → ℕ → ℕ → Option ℕ
unfolding max_in_window max_by
best_break_in_window points from to =
    Option.map (λ (b : BreakPoint). b.pos) (max_in_window from to none points)
