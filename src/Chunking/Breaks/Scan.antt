-- ===== src/Chunking/Breaks/Scan.antt =====
-- What `scan_break_points` finds: the entry of each position, and their order.
use mathlib.Core.List.{foldl}
use rqmd.Common.{
  ℕ, suc, ◌≤◌, ◌≡◌, refl, ap, ◌∙◌, Bool, true, false, Option, none, some, List, [], ◌∷◌, arith, ltb,
  leb, ◌==◌, if◌then◌else◌, Bool-cases, inl, inr,
}
use rqmd.Text.{Bytes}
use rqmd.Chunking.{BreakPoint, CodeFenceRegion}
use rqmd.Chunking.Patterns.{Match, Pattern, find_iter, match_len, break_patterns}
use rqmd.Chunking.Breaks.{
  inside_fence, note_break, add_match, add_pattern, insert_by_pos, sort_by_pos, scan_break_points,
}

-- The score entered for a position.
unfoldable pub score_at : ℕ → List BreakPoint → Option ℕ
score_at p [] = none
score_at p (b ∷ points) = if b.pos == p then some b.score else score_at p points

-- Whether a match starts at a position.
unfoldable pub starts_at : ℕ → List Match → Bool
starts_at p [] = false
starts_at p (m ∷ ms) = if m.start == p then true else starts_at p ms

abbrev pub raise : Option ℕ → ℕ → Option ℕ
raise none s = some s
raise (some a) s = if ltb a s then some s else some a

score_at-note_break :
    (p q s : ℕ) (seen : List BreakPoint)
    → score_at p (note_break q s seen)
      ≡ (if q == p then raise (score_at p seen) s else score_at p seen)
unfolding score_at note_break
score_at-note_break p q s [] = ground arith
score_at-note_break p q s (b ∷ seen) = ground (arith, score_at-note_break p q s seen)

raise_twice : (o : Option ℕ) (s : ℕ) → raise (raise o s) s ≡ raise o s
raise_twice none s = ground arith
raise_twice (some a) s = ground arith

-- The matches of one pattern raise the entries of their starts outside the fences.
score_at-matches :
    (p s : ℕ) (fences : List CodeFenceRegion) (ms : List Match) (seen : List BreakPoint)
    → inside_fence p fences ≡ false
    → score_at p (foldl (add_match fences s) seen ms)
      ≡ (if starts_at p ms then raise (score_at p seen) s else score_at p seen)
unfolding starts_at add_match
score_at-matches p s fences [] seen h = refl
score_at-matches p s fences (m ∷ ms) seen h = ground (
  arith,
  score_at-matches p s fences ms (add_match fences s seen m) h,
  raise_twice (score_at p seen) s,
  score_at-note_break p m.start s seen,
)

-- A position inside a fence gets no entry.
score_at-matches_inside :
    (p s : ℕ) (fences : List CodeFenceRegion) (ms : List Match) (seen : List BreakPoint)
    → inside_fence p fences ≡ true
    → score_at p (foldl (add_match fences s) seen ms) ≡ score_at p seen
unfolding add_match
score_at-matches_inside p s fences [] seen h = refl
score_at-matches_inside p s fences (m ∷ ms) seen h = ground (
  arith,
  score_at-matches_inside p s fences ms (add_match fences s seen m) h,
  score_at-note_break p m.start s seen,
  ap (λ q. inside_fence q fences) {x = p} {y = m.start},
)

score_at-insert_by_pos :
    (p : ℕ) (b : BreakPoint) (points : List BreakPoint)
    → score_at p (insert_by_pos b points) ≡ (if b.pos == p then some b.score else score_at p points)
unfolding score_at insert_by_pos
score_at-insert_by_pos p b [] = refl
score_at-insert_by_pos p b (c ∷ points) = ground (arith, score_at-insert_by_pos p b points)

score_at-sort_by_pos :
    (p : ℕ) (points : List BreakPoint) → score_at p (sort_by_pos points) ≡ score_at p points
unfolding score_at sort_by_pos
score_at-sort_by_pos p [] = refl
score_at-sort_by_pos p (b ∷ points) =
    ground (arith, score_at-insert_by_pos p b (sort_by_pos points), score_at-sort_by_pos p points)

-- No two entries for one position.
abbrev Distinct : List BreakPoint → Type 0
Distinct [] = Unit
Distinct (b ∷ points) = (score_at b.pos points ≡ none) × Distinct points

-- In the order of strictly rising positions, all above `lo`.
abbrev pub AscendsFrom : ℕ → List BreakPoint → Type 0
AscendsFrom lo [] = Unit
AscendsFrom lo (b ∷ points) = (lo ≤ b.pos) × AscendsFrom (suc b.pos) points

note_break-Distinct :
    (q s : ℕ) (seen : List BreakPoint) → Distinct seen → Distinct (note_break q s seen)
unfolding note_break score_at
note_break-Distinct q s [] d = (refl, tt)
note_break-Distinct q s (b ∷ seen) (h, d) = elim (Bool-cases (b.pos == q)) [
  | inl e ↦ rw e (ground arith, d)
  | inr e ↦
      rw e (ground (arith, score_at-note_break b.pos q s seen), note_break-Distinct q s seen d)
]

matches-Distinct :
    (s : ℕ) (fences : List CodeFenceRegion) (ms : List Match) (seen : List BreakPoint)
    → Distinct seen
    → Distinct (foldl (add_match fences s) seen ms)
unfolding add_match
matches-Distinct s fences [] seen d = d
matches-Distinct s fences (m ∷ ms) seen d = elim (Bool-cases (inside_fence m.start fences)) [
  | inl e ↦ rw e (matches-Distinct s fences ms seen d)
  | inr e ↦ rw e (matches-Distinct s fences ms _ (note_break-Distinct m.start s seen d))
]

AscendsFrom-weaken :
    (lo lo' : ℕ) (points : List BreakPoint)
    → lo' ≤ lo
    → AscendsFrom lo points
    → AscendsFrom lo' points
AscendsFrom-weaken lo lo' [] h a = tt
AscendsFrom-weaken lo lo' (b ∷ points) h (le, a) = (omega arith, a)

insert_by_pos-AscendsFrom :
    (lo : ℕ) (b : BreakPoint) (points : List BreakPoint)
    → lo ≤ b.pos
    → score_at b.pos points ≡ none
    → AscendsFrom lo points
    → AscendsFrom lo (insert_by_pos b points)
unfolding insert_by_pos score_at
insert_by_pos-AscendsFrom lo b [] le new a = (le, tt)
insert_by_pos-AscendsFrom lo b (c ∷ points) le new (le', a) = elim (Bool-cases (leb b.pos c.pos)) [
  | inl e ↦ rw e (le, (ground arith, a))
  | inr e ↦
      rw e (le', insert_by_pos-AscendsFrom (suc c.pos) b points (ground arith) (ground arith) a)
]

sort_by_pos-AscendsFrom :
    (points : List BreakPoint) → Distinct points → AscendsFrom 0 (sort_by_pos points)
unfolding sort_by_pos
sort_by_pos-AscendsFrom [] d = tt
sort_by_pos-AscendsFrom (b ∷ points) (new, d) =
    insert_by_pos-AscendsFrom 0 b (sort_by_pos points) (omega arith)
      (score_at-sort_by_pos b.pos points ∙ new) (sort_by_pos-AscendsFrom points d)

module _ (digit_len : Bytes → ℕ) (t : Bytes) (fences : List CodeFenceRegion) where
  -- The highest score of the patterns with a match that starts at a position, over a first value.
  abbrev pub highest : ℕ → Option ℕ → List (Pattern × ℕ) → Option ℕ
  highest p o [] = o
  highest p o ((pattern', s) ∷ patterns) =
      highest p (if starts_at p (find_iter (match_len digit_len pattern') t) then raise o s else o)
        patterns

  score_at-patterns :
      (p : ℕ) (patterns : List (Pattern × ℕ)) (seen : List BreakPoint)
      → inside_fence p fences ≡ false
      → score_at p (foldl (add_pattern digit_len t fences) seen patterns)
        ≡ highest p (score_at p seen) patterns
  unfolding add_pattern
  score_at-patterns p [] seen h = refl
  score_at-patterns p ((q, s) ∷ patterns) seen h =
      score_at-patterns p patterns _ h
      ∙ ap (λ o. highest p o patterns) (score_at-matches p s fences _ seen h)

  score_at-patterns_inside :
      (p : ℕ) (patterns : List (Pattern × ℕ)) (seen : List BreakPoint)
      → inside_fence p fences ≡ true
      → score_at p (foldl (add_pattern digit_len t fences) seen patterns) ≡ score_at p seen
  unfolding add_pattern
  score_at-patterns_inside p [] seen h = refl
  score_at-patterns_inside p ((q, s) ∷ patterns) seen h =
      score_at-patterns_inside p patterns _ h
      ∙ score_at-matches_inside p s fences (find_iter (match_len digit_len q) t) seen h

  patterns-Distinct :
      (patterns : List (Pattern × ℕ)) (seen : List BreakPoint)
      → Distinct seen
      → Distinct (foldl (add_pattern digit_len t fences) seen patterns)
  unfolding add_pattern
  patterns-Distinct [] seen d = d
  patterns-Distinct ((q, s) ∷ patterns) seen d =
      patterns-Distinct patterns _
        (matches-Distinct s fences (find_iter (match_len digit_len q) t) seen d)

  -- The break points of a text stand in the order of strictly rising positions, and the score of a
  -- position is the highest of the patterns with a match that starts there, if it is not inside a
  -- fence; positions inside a fence have none.
  pub scan_break_points_lem :
      AscendsFrom 0 (scan_break_points digit_len t fences)
      × ((p : ℕ)
          → score_at p (scan_break_points digit_len t fences)
            ≡ (if inside_fence p fences then none else highest p none break_patterns))
  unfolding scan_break_points score_at
  scan_break_points_lem = (
    sort_by_pos-AscendsFrom _ (patterns-Distinct break_patterns [] tt),
    λ p.
        score_at-sort_by_pos p (foldl (add_pattern digit_len t fences) [] break_patterns)
        ∙ elim (Bool-cases (inside_fence p fences)) [
          | inl h ↦ rw h (score_at-patterns_inside p break_patterns [] h)
          | inr h ↦ rw h (score_at-patterns p break_patterns [] h)
        ],
  )
