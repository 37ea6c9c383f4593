-- ===== src/Store/Best.antt =====
-- How many sections of a document are chosen.
use rqmd.Common.{
  ℕ, suc, ◌≤◌, ◌≡◌, ◌≢◌, refl, ap, ◌∙◌, Bool, true, false, not, ◌&&◌, ◌||◌, List, [], ◌∷◌, ◌++◌,
  arith, length, length-append, ◌==◌, Bool-cases, inl, inr, ==_iff, length-sort_by,
}
use rqmd.Text.{Bytes}
use rqmd.Chunking.{Chunk}
use rqmd.Store.Sections.{
  any_term, uncovered_text, Scored, sort_scored, scored_before, to_sections, no_chunks,
  score_chunks, pick_chunks, best_chunks,
}

length-to_sections : (cs : List Chunk) → length (to_sections cs) ≡ length cs
unfolding to_sections
length-to_sections [] = refl
length-to_sections (c ∷ cs) = ap suc (length-to_sections cs)

length-sort_scored : (as' : List Scored) → length (sort_scored as') ≡ length as'
unfolding sort_scored
length-sort_scored = length-sort_by scored_before

true_and_false : {b : Bool} → b ≡ true → b ≡ false → ⊥
true_and_false e f = cc

or_left : (a b : Bool) → (a || b) ≡ false → a ≡ false
or_left true b h = h
or_left false b h = refl

module _ (to_lowercase : Bytes → Bytes) where
  length-score_chunks :
      (terms : List Bytes) (i : ℕ) (cs : List Chunk)
      → length (score_chunks to_lowercase terms i cs) ≡ length cs
  unfolding score_chunks
  length-score_chunks terms i [] = refl
  length-score_chunks terms i (c ∷ cs) = ap suc (length-score_chunks terms (suc i) cs)

  -- The loop only adds, and stops at `n`.
  pick_chunks_between :
      (terms : List Bytes) (n : ℕ) (ss : List Scored) (picked : List Chunk)
      → length picked ≤ n
      → (length picked ≤ length (pick_chunks to_lowercase terms n ss picked))
        × (length (pick_chunks to_lowercase terms n ss picked) ≤ n)
  unfolding pick_chunks
  pick_chunks_between terms n [] picked h = (omega arith, h)
  pick_chunks_between terms n (s ∷ ss) picked h =
      elim (Bool-cases (length picked == n || not (no_chunks picked) && s.hits == 0)) [
        | inl e ↦ rw e (omega arith, h)
        | inr e ↦
            rw e
              (elim (Bool-cases (
                no_chunks picked
                || any_term terms (to_lowercase (uncovered_text s.chunk picked)))) [
                  | inl k ↦ rw k (
                      let (low, high) =
                        pick_chunks_between terms n ss (picked ++ s.chunk ∷ [])
                          (omega (arith, length-append picked (s.chunk ∷ []), h, room e)) in
                      (omega (arith, low, length-append picked (s.chunk ∷ [])), high))
                  | inr k ↦ rw k (pick_chunks_between terms n ss picked h)
                ])
      ]
    where
      room :
          (length picked == n || not (no_chunks picked) && s.hits == 0) ≡ false → length picked ≢ n
      room e q = absurd (true_and_false ((==_iff (length picked) n).1 q) (or_left _ _ e))

  -- The best section is always taken.
  pick_chunks_first :
      (terms : List Bytes) (n : ℕ) (ss : List Scored)
      → 1 ≤ n
      → 1 ≤ length ss
      → 1 ≤ length (pick_chunks to_lowercase terms n ss [])
  unfolding pick_chunks
  pick_chunks_first terms n [] h k = k
  pick_chunks_first terms n (s ∷ ss) h k =
      let e : (0 == n || false) ≡ false = ground arith in
      rw e (pick_chunks_between terms n ss (s.chunk ∷ []) h).0

-- Of a document at least one section is chosen, and at most `n`, for `n` above 0.
pub length-best_chunks :
    (to_lowercase : Bytes → Bytes) (cs : List Chunk) (terms : List Bytes) (n : ℕ)
    → 1 ≤ n
    → (1 ≤ length (best_chunks to_lowercase cs terms n))
      × (length (best_chunks to_lowercase cs terms n) ≤ n)
unfolding best_chunks
length-best_chunks to_lowercase [] terms n h = (omega arith, h)
length-best_chunks to_lowercase (c ∷ cs) [] n h = (omega arith, h)
length-best_chunks to_lowercase (c ∷ cs) (t ∷ ts) n h =
    let scored = sort_scored (score_chunks to_lowercase (t ∷ ts) 0 (c ∷ cs)) in
    let picked = pick_chunks to_lowercase (t ∷ ts) n scored [] in
    let some_scored : length scored ≡ suc (length cs) =
      length-sort_scored (score_chunks to_lowercase (t ∷ ts) 0 (c ∷ cs))
      ∙ length-score_chunks to_lowercase (t ∷ ts) 0 (c ∷ cs) in
    let first = pick_chunks_first to_lowercase (t ∷ ts) n scored h (omega (arith, some_scored)) in
    let between = pick_chunks_between to_lowercase (t ∷ ts) n scored [] (omega arith) in
    (
      omega (arith, length-to_sections picked, first),
      omega (arith, length-to_sections picked, between.1),
    )
