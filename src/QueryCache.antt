-- ===== src/QueryCache.antt =====
-- crates/rqmd-core/src/store/query_cache.rs: how a query uses the query cache, and the reranker call of
-- crates/rqmd-core/src/store.rs that it wraps.
-- The backend's calls, the identity of its models and the failures of SQLite are parameters.
pub mod Rerank
pub mod Expansion
mod Examples
use rqmd.Common.{
  ℕ, zero, suc, ◌+◌, max, Bool, Option, none, some, List, [], ◌∷◌, ◌++◌, map, ◌==◌, if◌then◌else◌,
  length, take, drop,
}
use rqmd.Text.{Bytes}
use rqmd.ModelCache.{F32, Cache}
use rqmd.ModelCache.Ops.{get_expansion, put_expansion, get_rerank_scores, put_rerank_scores}

-- `Result`
pub data Outcome {ℓ} (A : Type ℓ) : Type ℓ where
  done : A → Outcome A
  failed : Outcome A

-- Why an operation of the cache fails: another process holds the lock, or anything else.
pub data Fault : Type 0 where
  busy : Fault
  broken : Fault

abbrev pub f32_nan : F32
f32_nan = 0x7fc00000

-- The state is `Store::model_cache`: none while the cache is off.
unfoldable pub cache_failed : Fault → Option Cache → Option Cache
cache_failed busy state = state
cache_failed broken state = none

-- `chunks.chunks(n)` for n above 0. Each round takes an element, so the length is fuel enough.
unfoldable pub parts : ℕ → ℕ → List Bytes → List (List Bytes)
parts fuel n [] = []
parts zero n (c ∷ cs) = []
parts (suc fuel) n (c ∷ cs) = take n (c ∷ cs) ∷ parts fuel n (drop n (c ∷ cs))

abbrev pub rerank_progress_slice : ℕ
rerank_progress_slice = 4

-- `backend done part` is the reranker's answer for a part, with `done` scores before it: none when
-- the soft deadline passes meanwhile.
module _ (backend : ℕ → List Bytes → Outcome (Option (List F32))) where
  -- The loop over the parts.
  unfoldable pub rerank_parts : List (List Bytes) → List F32 → Outcome (Option (List F32))
  rerank_parts [] scores = done (some scores)
  rerank_parts (part ∷ ps) scores = elim (backend (length scores) part) [
    | done (some part_scores) ↦ rerank_parts ps (scores ++ part_scores)
    | done none ↦ done none
    | failed ↦ failed
  ]

  unfoldable pub rerank_candidates : Bool → List Bytes → Outcome (Option (List F32))
  unfolding rerank_parts
  rerank_candidates observed chunks =
      let slice = if observed then rerank_progress_slice else max (length chunks) 1 in
      rerank_parts (parts (length chunks) slice chunks) []

-- The chunks without a cached score.
unfoldable pub misses : List Bytes → List (Option F32) → List Bytes
misses [] cached = []
misses (c ∷ cs) [] = []
misses (c ∷ cs) (some s ∷ cached) = misses cs cached
misses (c ∷ cs) (none ∷ cached) = c ∷ misses cs cached

unfoldable pub merge : List (Option F32) → List F32 → List F32
merge [] fresh = []
merge (some s ∷ cached) fresh = s ∷ merge cached fresh
merge (none ∷ cached) [] = f32_nan ∷ merge cached []
merge (none ∷ cached) (f ∷ fresh) = f ∷ merge cached fresh

unfoldable pub no_scores : List Bytes → List (Option F32)
no_scores chunks = map (λ c. none) chunks

-- The end of `rerank_candidates_cached`, with the scores that were asked for.
unfoldable pub complete :
    List (Option F32) → ℕ → Outcome (Option (List F32)) → Outcome (Option (List F32))
unfolding merge
complete cached missing failed = failed
complete cached missing (done none) = done none
complete cached missing (done (some fresh)) =
    if length fresh == missing then done (some (merge cached fresh)) else failed

-- What follows the lookup, with the call of the reranker.
unfoldable pub rerank_misses :
    (List Bytes → Outcome (Option (List F32)))
    → List Bytes
    → List (Option F32)
    → Outcome (Option (List F32))
unfolding misses complete
rerank_misses rerank chunks cached =
    let missing = misses chunks cached in
    if length missing == length chunks
    then rerank chunks
    else complete cached (length missing)
        (if length missing == 0 then done (some []) else rerank missing)

module _ (sha256 : Bytes → Bytes) (pkg_version : Bytes) where
  -- `identity` is the rerank model's; `fault` is how the lookup fails, if it does.
  unfoldable pub rerank_candidates_cached :
      (List Bytes → Outcome (Option (List F32)))
      → Option Bytes
      → Option Fault
      → Bytes
      → List Bytes
      → Option Cache
      → Outcome (Option (List F32)) × Option Cache
  unfolding rerank_misses no_scores cache_failed
  rerank_candidates_cached rerank identity fault query chunks none = (rerank chunks, none)
  rerank_candidates_cached rerank none fault query chunks (some c) = (rerank chunks, some c)
  rerank_candidates_cached rerank (some model) none query chunks (some c) = (
    rerank_misses rerank chunks (get_rerank_scores sha256 pkg_version c query model chunks),
    some c,
  )
  rerank_candidates_cached rerank (some model) (some fault) query chunks (some c) =
      (rerank_misses rerank chunks (no_scores chunks), cache_failed fault (some c))

  unfoldable pub zip_scores : List Bytes → List F32 → List (Bytes × F32)
  zip_scores [] scores = []
  zip_scores (c ∷ cs) [] = []
  zip_scores (c ∷ cs) (s ∷ scores) = (c, s) ∷ zip_scores cs scores

  unfoldable pub remember_rerank_scores :
      Option Bytes → Option Fault → Bytes → List Bytes → List F32 → Option Cache → Option Cache
  unfolding zip_scores cache_failed
  remember_rerank_scores identity fault query chunks scores none = none
  remember_rerank_scores none fault query chunks scores (some c) = some c
  remember_rerank_scores (some model) none query chunks scores (some c) =
      some (put_rerank_scores sha256 pkg_version c query model (zip_scores chunks scores))
  remember_rerank_scores (some model) (some fault) query chunks scores (some c) =
      cache_failed fault (some c)

  -- Stores an output, if the cache is on.
  unfoldable pub store_expansion :
      Bytes → Option Fault → Bytes → Bytes → Option Cache → Option Cache
  unfolding cache_failed
  store_expansion model fault prompt output none = none
  store_expansion model none prompt output (some c) =
      some (put_expansion sha256 pkg_version c prompt model output)
  store_expansion model (some fault) prompt output (some c) = cache_failed fault (some c)

  -- `generated` is the model's answer to the prompt.
  unfoldable pub generate_and_store :
      Outcome Bytes → Bytes → Option Fault → Bytes → Option Cache → Outcome Bytes × Option Cache
  unfolding store_expansion
  generate_and_store failed model fault prompt state = (failed, state)
  generate_and_store (done output) model fault prompt state =
      (done output, store_expansion model fault prompt output state)

  unfoldable pub use_lookup :
      Outcome Bytes
      → Bytes
      → Option Fault
      → Bytes
      → Cache
      → Option Bytes
      → Outcome Bytes × Option Cache
  unfolding store_expansion generate_and_store
  use_lookup generated model fault prompt c (some output) =
      (done output, store_expansion model fault prompt output (some c))
  use_lookup generated model fault prompt c none =
      generate_and_store generated model fault prompt (some c)

  -- `read` and `write` are how the lookup and the store fail, if they do.
  unfoldable pub generate_expansion :
      Outcome Bytes
      → Option Bytes
      → Option Fault
      → Option Fault
      → Bytes
      → Option Cache
      → Outcome Bytes × Option Cache
  unfolding use_lookup generate_and_store cache_failed
  generate_expansion generated identity read write prompt none = (generated, none)
  generate_expansion generated none read write prompt (some c) = (generated, some c)
  generate_expansion generated (some model) none write prompt (some c) =
      use_lookup generated model write prompt c (get_expansion sha256 pkg_version c prompt model)
  generate_expansion generated (some model) (some fault) write prompt (some c) =
      generate_and_store generated model write prompt (cache_failed fault (some c))
