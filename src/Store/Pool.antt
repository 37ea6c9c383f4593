-- ===== src/Store/Pool.antt =====
-- The chunks that one rerank scores, and its scores.
use rqmd.Common.{ℕ, ◌≤◌, ◌≡◌, true, none, some, List, [], ◌∷◌, length, ◌⊎◌, max}
use rqmd.Text.{Bytes}
use rqmd.Chunking.{Chunk}
use rqmd.Store.{Env}
use rqmd.Store.Sections.{Section, best_chunks}
use rqmd.Store.Rerank.{Candidate, Scores, reranked, any_finite}

module _ {W F V X : Type 0} (env : Env W F V X) where
  abbrev chunks_of_candidate : Candidate F → List Chunk
  chunks_of_candidate c = env.chunk_document_for_path c.result.filepath c.body

  -- Each candidate has its own sections: its best for some number of them, one at least and `per_file` at most.
  abbrev pub IsChosen : List Bytes → ℕ → List (Candidate F) → List (List Section) → Type 0
  IsChosen terms per_file [] [] = Unit
  IsChosen terms per_file (c ∷ cs) (s ∷ ss) =
      ((n : ℕ) × (s ≡ best_chunks env.to_lowercase (chunks_of_candidate c) terms n))
      × (1 ≤ length s)
      × (length s ≤ max 1 per_file)
      × IsChosen terms per_file cs ss
  IsChosen terms per_file _ _ = ⊥

  -- Scores are only there after a rerank, one for each chunk.
  abbrev pub FitsChunks : ℕ → Scores F → Type 0
  FitsChunks total r =
      ((r.rerank_scores ≡ none) × (r.status ≡ reranked → ⊥))
      ⊎ ((scores : List F) × (r.rerank_scores ≡ some scores)
          × (r.status ≡ reranked)
          × (length scores ≡ total)
          × (any_finite env scores ≡ true))
