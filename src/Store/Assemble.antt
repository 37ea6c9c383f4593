-- ===== src/Store/Assemble.antt =====
-- crates/rqmd-core/src/store.rs: assemble_results, which scores the sections and builds the results.
use rqmd.Common.{ℕ, suc, ◌+◌, Option, none, some, List, [], ◌∷◌, ◌++◌, length, get_elem?}
use rqmd.Text.{Bytes}
use rqmd.Store.{Env}
use rqmd.Store.Sections.{Section}
use rqmd.Store.Picks.{Pick, PickDoc}
use rqmd.Text.{Run, ok, panic, ◌>>=◌}
use rqmd.Store.Picks.{Pick, PickDoc, SearchResult, ranked_results}
use rqmd.Store.Rerank.{Candidate}

module _ {W F V X : Type 0} (env : Env W F V X) where
  -- The score of a chunk, blended with that of its candidate.
  unfoldable pub blended : Option (List F) → ℕ → F → F
  blended none i rrf_score = rrf_score
  blended (some scores) i rrf_score =
      env.scores.plus
        (env.times env.blend_hi (elim (get_elem? scores i) [ none ↦ rrf_score | some s ↦ s ]))
        (env.times env.blend_lo rrf_score)

  -- The index out of range is a panic.
  unfoldable pub factor_at : Option (List F) → ℕ → Run F
  factor_at none i = ok env.scores.one
  factor_at (some factors) i = elim (get_elem? factors i) [ none ↦ panic | some x ↦ ok x ]

  -- The picks of a candidate; `next` is the index of its first score.
  unfoldable pub candidate_picks :
      Option (List F) → Run F → Bytes → F → ℕ → ℕ → ℕ → List Section → Run (List (Pick F))
  unfolding blended
  candidate_picks scores factor filepath rrf_score doc rank next [] = ok []
  candidate_picks scores factor filepath rrf_score doc rank next (chunk ∷ chunks) = factor >>= λ x.
      candidate_picks scores factor filepath rrf_score doc (suc rank) (suc next) chunks >>= λ rest.
      ok (
        record {
          filepath = filepath;
          doc = doc;
          rank = rank;
          score = env.times (blended scores next rrf_score) x;
          chunk = chunk;
        }
        ∷ rest)

  unfoldable pub all_picks :
      Option (List F)
      → Option (List F)
      → ℕ
      → ℕ
      → List (Candidate F)
      → List (List Section)
      → Run (List (Pick F))
  unfolding candidate_picks factor_at
  all_picks scores recency doc next [] sections = ok []
  all_picks scores recency doc next (c ∷ cs) [] = ok []
  all_picks scores recency doc next (c ∷ cs) (s ∷ ss) =
      candidate_picks scores (factor_at recency doc) c.result.filepath c.result.backend_score doc 0
        next s
      >>= λ first.
          all_picks scores recency (suc doc) (next + length s) cs ss >>= λ rest. ok (first ++ rest)

  unfoldable pub pick_docs : List (Candidate F) → List PickDoc
  pick_docs [] = []
  pick_docs (c ∷ cs) =
      record { title = c.result.title; hash = c.hash; body = c.body } ∷ pick_docs cs

  unfoldable pub assemble_results :
      List (Candidate F)
      → List (List Section)
      → Option (List F)
      → Option (List F)
      → ℕ
      → W
      → Run (List (SearchResult F))
  unfolding all_picks pick_docs ranked_results
  assemble_results cands sections scores recency limit w =
      all_picks scores recency 0 0 cands sections >>= λ picks.
      ranked_results (λ collection path. env.context_for_path collection path w) env.scores
        (pick_docs cands) picks limit
