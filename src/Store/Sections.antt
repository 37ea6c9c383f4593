-- ===== src/Store/Sections.antt =====
-- crates/rqmd-core/src/store.rs: the sections of a document that a query shows.
use rqmd.Common.{
  ℕ, suc, ◌+◌, ◌-◌, Bool, true, false, not, ◌&&◌, ◌||◌, List, [], ◌∷◌, ltb, leb, ◌==◌,
  if◌then◌else◌, length, min, max, ◌++◌, sort_by,
}
use rqmd.Text.{Bytes, Run, ok, panic, out_of_fuel, codes, slice, starts_with, is_empty}
use rqmd.Chunking.{Chunk}

-- A section's text and its offset.
abbrev pub Section : Type 0
Section = Bytes × ℕ

-- `text.contains(needle)`
unfoldable pub contains_text : Bytes → Bytes → Bool
unfolding starts_with
contains_text needle [] = is_empty needle
contains_text needle (b ∷ s) = starts_with (b ∷ s) needle || contains_text needle s

unfoldable pub any_term : List Bytes → Bytes → Bool
unfolding contains_text
any_term [] s = false
any_term (t ∷ ts) s = contains_text t s || any_term ts s

unfoldable pub count_terms : List Bytes → Bytes → ℕ
unfolding contains_text
count_terms [] s = 0
count_terms (t ∷ ts) s = let rest = count_terms ts s in if contains_text t s then suc rest else rest

-- The part of a chunk that stays after one that is taken.
unfoldable pub narrow : Chunk → Chunk → ℕ × ℕ → ℕ × ℕ
narrow chunk other (from, to) =
    let other_end = other.pos + length other.text in
    if leb other.pos chunk.pos && ltb chunk.pos other_end
    then (max from (min (other_end - chunk.pos) (length chunk.text)), to)
    else if ltb chunk.pos other.pos && ltb other.pos (chunk.pos + length chunk.text)
    then (from, min to (other.pos - chunk.pos))
    else (from, to)

unfoldable pub uncovered_range : Chunk → List Chunk → ℕ × ℕ → ℕ × ℕ
unfolding narrow
uncovered_range chunk [] range = range
uncovered_range chunk (other ∷ taken) range = uncovered_range chunk taken (narrow chunk other range)

-- `text.get(range).unwrap_or(text)`
unfoldable pub or_whole : Bytes → Run Bytes → Bytes
or_whole t (ok s) = s
or_whole t panic = t
or_whole t out_of_fuel = t

unfoldable pub uncovered_text : Chunk → List Chunk → Bytes
unfolding uncovered_range or_whole
uncovered_text chunk taken =
    let range = uncovered_range chunk taken (0, length chunk.text) in
    or_whole chunk.text (slice chunk.text range.0 (max range.1 range.0))

-- A chunk with its hits and its index.
pub record Scored : Type 0 where
  pub hits : ℕ
  pub index : ℕ
  pub chunk : Chunk

-- The order of the sort: hits descending, then index descending.
unfoldable pub scored_before : Scored → Scored → Bool
scored_before a b = ltb b.hits a.hits || b.hits == a.hits && ltb b.index a.index

unfoldable pub sort_scored : List Scored → List Scored
unfolding scored_before
sort_scored = sort_by scored_before

unfoldable pub to_sections : List Chunk → List Section
to_sections [] = []
to_sections (c ∷ cs) = (c.text, c.pos) ∷ to_sections cs

abbrev pub no_chunks : List Chunk → Bool
no_chunks [] = true
no_chunks (c ∷ cs) = false

module _ (to_lowercase : Bytes → Bytes) where
  unfoldable pub score_chunks : List Bytes → ℕ → List Chunk → List Scored
  unfolding count_terms
  score_chunks terms i [] = []
  score_chunks terms i (c ∷ cs) =
      record { hits = count_terms terms (to_lowercase c.text); index = i; chunk = c }
      ∷ score_chunks terms (suc i) cs

  -- The loop over the scored chunks; `picked` has the chunks taken so far, in order.
  unfoldable pub pick_chunks : List Bytes → ℕ → List Scored → List Chunk → List Chunk
  unfolding uncovered_text any_term
  pick_chunks terms n [] picked = picked
  pick_chunks terms n (s ∷ ss) picked =
      let taken = pick_chunks terms n ss (picked ++ s.chunk ∷ []) in
      let passed = pick_chunks terms n ss picked in
      if length picked == n || not (no_chunks picked) && s.hits == 0
      then picked
      else if no_chunks picked || any_term terms (to_lowercase (uncovered_text s.chunk picked))
      then taken
      else passed

  -- The chunks of the document are an argument.
  unfoldable pub best_chunks : List Chunk → List Bytes → ℕ → List Section
  unfolding score_chunks sort_scored pick_chunks to_sections
  best_chunks [] terms n = ([], 0) ∷ []
  best_chunks (c ∷ cs) [] n = (c.text, c.pos) ∷ []
  best_chunks (c ∷ cs) (t ∷ ts) n =
      to_sections (pick_chunks (t ∷ ts) n (sort_scored (score_chunks (t ∷ ts) 0 (c ∷ cs))) [])

-- `trim_start_matches('"')`
unfoldable pub skip_quotes : Bytes → Bytes
skip_quotes [] = []
skip_quotes (b ∷ s) = if b == b'"' then skip_quotes s else b ∷ s

unfoldable pub drop_last_quotes : Bytes → Bytes
unfolding skip_quotes
drop_last_quotes [] = []
drop_last_quotes (b ∷ s) = if is_empty (skip_quotes (b ∷ s)) then [] else b ∷ drop_last_quotes s

-- The chain on the words: no negated word, no quotes, more than two bytes.
unfoldable pub keep_terms : List Bytes → List Bytes
unfolding skip_quotes drop_last_quotes
keep_terms [] = []
keep_terms (t ∷ ts) =
    let rest = keep_terms ts in
    let word = drop_last_quotes (skip_quotes t) in
    if not (starts_with t (codes "-")) && ltb 2 (length word) then word ∷ rest else rest

unfoldable pub keyword_terms : (Bytes → Bytes) → (Bytes → List Bytes) → Bytes → List Bytes
unfolding keep_terms
keyword_terms to_lowercase split_whitespace query =
    keep_terms (split_whitespace (to_lowercase query))

unfoldable pub abs_diff : ℕ → ℕ → ℕ
abs_diff a b = if ltb a b then b - a else a - b

-- `min_by_key`: of several nearest chunks the first.
unfoldable pub nearest_to : ℕ → Chunk → List Chunk → Chunk
unfolding abs_diff
nearest_to pos best [] = best
nearest_to pos best (c ∷ cs) =
    nearest_to pos (if ltb (abs_diff c.pos pos) (abs_diff best.pos pos) then c else best) cs

unfoldable pub nearest_chunk : List Chunk → ℕ → Section
unfolding nearest_to
nearest_chunk [] pos = ([], 0)
nearest_chunk (c ∷ cs) pos = let best = nearest_to pos c cs in (best.text, best.pos)
