-- ===== src/QueryCache/Examples.antt =====
-- Tests of the query cache's hooks, and their theorems at a concrete cache.
use rqmd.Common.{
  ℕ, ◌≡◌, refl, true, Option, none, some, List, [], ◌∷◌, map, arith, Bool-cases, inl, inr,
}
use rqmd.Text.{Bytes, codes}
use rqmd.ModelCache.{F32, Cache, Row, find_row, is_row}
use rqmd.ModelCache.Ops.{rerank_key, rerank_prompt_version, get_expansion}
use rqmd.QueryCache.{
  Outcome, done, failed, busy, broken, rerank_candidates, rerank_candidates_cached,
  generate_expansion,
}
use rqmd.QueryCache.Rerank.{CacheAgree, rerank_candidates_cached-rerank_candidates}
use rqmd.QueryCache.Expansion.{generate_expansion-again, generate_expansion-generated}

abbrev identity_hash : Bytes → Bytes
identity_hash s = s

abbrev version : Bytes
version = codes "1"

abbrev score_one : Bytes → F32
score_one chunk = 0x3f800000

abbrev scorer : ℕ → List Bytes → Outcome (Option (List F32))
scorer n part = done (some (map score_one part))

-- The score of the chunk "x" for the query "q".
abbrev scored_row : Row F32
scored_row = record {
  rowid = 1;
  key = rerank_key identity_hash version (codes "q") (codes "x");
  model = codes "m";
  prompt_version = codes "rerank-1+1";
  value = 0x3f800000;
  last_used = 1;
}

abbrev cache : Cache
cache = record { user_version = 1; expansion = []; rerank = scored_row ∷ []; max_rows = 10 }

cache-CacheAgree : CacheAgree score_one identity_hash version cache (codes "q") (codes "m")
unfolding find_row
cache-CacheAgree chunk s h =
    elim (Bool-cases (
      is_row (rerank_key identity_hash version (codes "q") chunk) (codes "m")
        (rerank_prompt_version identity_hash version) scored_row)) [
          | inl e ↦ (let k = rw e at h in cc)
          | inr e ↦ (let k = rw e at h in absurd (cc))
        ]

-- With a reranker that fails, the cached chunk alone is scored.
cached_chunk :
    (rerank_candidates_cached identity_hash version
      (λ cs. failed)
      (some (codes "m"))
      none
      (codes "q")
      (codes "x" ∷ [])
      (some cache)).0
    ≡ done (some (0x3f800000 ∷ []))
unfolding rerank_candidates_cached rqmd.ModelCache.Ops.get_rerank_scores find_row rqmd.Text.bytes_eq
    rerank_key rqmd.ModelCache.length_prefixed rerank_prompt_version
cached_chunk = refl

-- A broken cache is turned off.
broken_cache :
    (rerank_candidates_cached identity_hash version
      (λ cs. failed)
      (some (codes "m"))
      (some broken)
      (codes "q")
      (codes "x" ∷ [])
      (some cache))
    ≡ (failed, none)
unfolding rerank_candidates_cached
broken_cache = refl

rerank_candidates_cached-rerank_candidates_example :
    ((rerank_candidates_cached identity_hash version
        (rerank_candidates scorer true)
        (some (codes "m"))
        none
        (codes "q")
        (codes "y" ∷ codes "x" ∷ [])
        (some cache)).0
      ≡ rerank_candidates scorer true (codes "y" ∷ codes "x" ∷ []))
    × (rerank_candidates scorer true (codes "y" ∷ codes "x" ∷ [])
        ≡ done (some (0x3f800000 ∷ 0x3f800000 ∷ [])))
rerank_candidates_cached-rerank_candidates_example =
    rerank_candidates_cached-rerank_candidates identity_hash version score_one scorer true
      (some (codes "m")) none (codes "q") (codes "y" ∷ codes "x" ∷ []) (some cache) (λ n part. refl)
      cache-CacheAgree

first_generation :
    (generate_expansion identity_hash version
      (done (codes "lex: a"))
      (some (codes "m"))
      none
      none
      (codes "p")
      (some cache)).0
    ≡ done (codes "lex: a")
unfolding generate_expansion get_expansion find_row
first_generation = refl

generate_expansion-again_example :
    (generate_expansion identity_hash version failed
      (some (codes "m"))
      none
      (some busy)
      (codes "p")
      (generate_expansion identity_hash version
        (done (codes "lex: a"))
        (some (codes "m"))
        none
        none
        (codes "p")
        (some cache)).1).0
    ≡ done (codes "lex: a")
generate_expansion-again_example =
    generate_expansion-again identity_hash version (codes "m") (codes "p") (done (codes "lex: a"))
      failed (some busy) cache (codes "lex: a") (omega arith) first_generation

no_expansion :
    (x : Bytes)
    → get_expansion identity_hash version cache (codes "p") (codes "m") ≡ some x
    → x ≡ codes "lex: a"
unfolding get_expansion find_row
no_expansion x h = absurd (cc)

generate_expansion-generated_example :
    (generate_expansion identity_hash version
      (done (codes "lex: a"))
      (some (codes "m"))
      none
      (some broken)
      (codes "p")
      (some cache)).0
    ≡ done (codes "lex: a")
generate_expansion-generated_example =
    generate_expansion-generated identity_hash version (codes "p") (codes "lex: a")
      (some (codes "m")) none (some broken) (some cache) no_expansion
