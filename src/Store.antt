-- ===== src/Store.antt =====
-- crates/rqmd-core/src/store.rs: the search pipeline of the store.
-- An operation takes the world, which is whatever the store's parts keep, and returns it with a result.
-- Tantivy, the vector index, SQLite, the models and the clock are the fields of `Env`. Timings, logs and the query observer are left out.
-- `first_chunk` is modelled in Chunking; `generate_expansion`, `rerank_cached` and `remember_rerank_scores` in QueryCache.
pub mod Sections
pub mod Best
pub mod Ordered
pub mod Picks
pub mod Recency
pub mod Moved
pub mod Scope
pub mod Widen
pub mod Vectors
pub mod Script
pub mod Retrieve
pub mod Lockstep
pub mod Rerank
pub mod Pool
pub mod Assemble
pub mod Search
pub mod Keyword
pub mod Below
pub mod Limited
pub mod Similar
pub mod Hits
pub mod Survivors
pub mod Within
pub mod Unlike
pub mod Calendar
pub mod Era
pub mod Dates
mod Examples
use rqmd.Common.{
  ℕ, ◌+◌, ◌*◌, ◌≡◌, refl, Bool, Option, none, some, List, [], ◌∷◌, ltb, if◌then◌else◌, min, max,
}
use rqmd.Text.{Bytes, Run, ok, panic, out_of_fuel}
use rqmd.Chunking.{Chunk}
use rqmd.Rrf.{Floats}
use rqmd.Resolve.{Document}
use rqmd.EmbedExclusion.{Collection}

-- `anyhow::Result`; `TimedOut` names the stage.
pub data Result (A : Type 0) : Type 0 where
  done : A → Result A
  timed_out : Bytes → Result A
  failed : Result A

-- An operation on the world.
abbrev pub Op : Type 0 → Type 0 → Type 0
Op W A = W → Result A × W

module _ {W : Type 0} where
  unfoldable pub pure : {A : Type 0} → A → Op W A
  pure a w = (done a, w)

  unfoldable pub continue : {A B : Type 0} → (A → Op W B) → Result A × W → Result B × W
  continue f (done a, w) = f a w
  continue f (timed_out stage, w) = (timed_out stage, w)
  continue f (failed, w) = (failed, w)

  infixl 5 ◌>>=◌
  unfoldable pub ◌>>=◌ : {A B : Type 0} → Op W A → (A → Op W B) → Op W B
  unfolding continue
  (m >>= f) w = continue f (m w)

-- A panic ends the operation.
unfoldable pub run_then : {W A B : Type 0} → (A → Op W (Run B)) → Run A → Op W (Run B)
run_then f (ok a) w = f a w
run_then f panic w = (done panic, w)
run_then f out_of_fuel w = (done out_of_fuel, w)

-- What an operation promises of a result.
abbrev pub Holds : {A : Type 0} → (A → Type 0) → Result A → Type 0
Holds P (done a) = P a
Holds P (timed_out stage) = Unit
Holds P failed = Unit

module _ {W : Type 0} where
  abbrev pub Ensures : {A : Type 0} → (A → Type 0) → Op W A → Type 0
  Ensures P m = (w : W) → Holds P (m w).0

  Holds-continue :
      {A B : Type 0} (P : A → Type 0) (Q : B → Type 0) (f : A → Op W B) (r : Result A × W)
      → Holds P r.0
      → ((a : A) → P a → Ensures Q (f a))
      → Holds Q (continue f r).0
  unfolding continue
  Holds-continue P Q f (done a, w) h k = k a h w
  Holds-continue P Q f (timed_out stage, w) h k = tt
  Holds-continue P Q f (failed, w) h k = tt

  pub Ensures-bind :
      {A B : Type 0} (P : A → Type 0) (Q : B → Type 0) (m : Op W A) (f : A → Op W B)
      → Ensures P m
      → ((a : A) → P a → Ensures Q (f a))
      → Ensures Q (m >>= f)
  unfolding ◌>>=◌
  Ensures-bind P Q m f h k w = Holds-continue P Q f (m w) (h w) k

  pub Ensures-weaken :
      {A : Type 0} (P Q : A → Type 0) (m : Op W A)
      → Ensures P m
      → ((a : A) → P a → Q a)
      → Ensures Q m
  Ensures-weaken {A} P Q m h k w = weaken (m w).0 (h w)
    where
      weaken : (r : Result A) → Holds P r → Holds Q r
      weaken (done a) p = k a p
      weaken (timed_out stage) p = tt
      weaken failed p = tt

-- What an operation promises of a run, which is then no panic.
abbrev pub Ran : {A : Type 0} → (A → Type 0) → Run A → Type 0
Ran {A} P r = (a : A) × (r ≡ ok a) × P a

pub Ensures-run_then :
    {W A B : Type 0} (P : A → Type 0) (Q : Run B → Type 0) (f : A → Op W (Run B)) (r : Run A)
    → Ran P r
    → ((a : A) → P a → Ensures Q (f a))
    → Ensures Q (run_then f r)
unfolding run_then
Ensures-run_then P Q f r (a, e, p) k w = rw (e, run_then) (k a p w)

-- A keyword hit: path, id of the document, score.
pub record Hit (F : Type 0) : Type 0 where
  pub filepath : Bytes
  pub doc_id : ℕ
  pub score : F

-- `i64`
pub data ℤ : Type 0 where
  pos : ℕ → ℤ
  negsuc : ℕ → ℤ

-- A scope is none for the whole index, or the names of collections.
abbrev pub Scope : Type 0
Scope = Option (List Bytes)

-- What the store's parts do. `W` is the world, `F` the scores, `V` an embedding, `X` the exclusions of embeddings.
pub record Env (W F V X : Type 0) : Type 0 where
  pub scores : Floats F
  pub times : F → F → F
  pub minus : F → F → F
  pub zero_score : F
  pub at_least : F → F → Bool
  pub is_finite : F → Bool
  pub blend_hi : F
  pub blend_lo : F
  pub strong_signal_min_score : F
  pub strong_signal_min_gap : F
  pub to_lowercase : Bytes → Bytes
  pub split_whitespace : Bytes → List Bytes
  -- `char::is_alphabetic`
  pub is_alphabetic : ℕ → Bool
  pub chunk_document_for_path : Bytes → Bytes → List Chunk
  pub first_chunk : Bytes → Bytes
  -- `Deadline::check`
  pub check : Bytes → Op W Unit
  pub list_collections : Op W (List Collection)
  pub active_document_ids : List Bytes → Op W (List ℕ)
  pub search_fts_scoped : Bytes → ℕ → Scope → Option (List ℕ) → Op W (List (Hit F))
  pub hnsw_size : W → ℕ
  pub hnsw_search : V → ℕ → Op W (List (ℕ × F))
  pub load_exclusions : Op W X
  pub doc_chunk_for_vid : ℕ → Scope → X → Op W (Option (Document × ℕ))
  pub embed_query : Bytes → Op W V
  pub embed_passage : Bytes → Op W V
  pub can_generate : Bool
  pub generate_expansion : Bytes → W → Result Bytes × W
  pub can_rerank : Bool
  -- The flag is whether the deadline may end the call early, with none.
  pub rerank_cached : Bytes → List Bytes → Bool → W → Result (Option (List F)) × W
  pub remember_rerank_scores : Bytes → List Bytes → List F → W → W
  pub document_by_filepath : Bytes → Bytes → Op W (Option Document)
  pub document_by_id : ℕ → Op W (Option Document)
  pub document_raw : ℕ → Op W (Option Bytes)
  pub context_for_path : Bytes → Bytes → W → Option Bytes
  -- The recorded time of an active document, in nanoseconds since 1970.
  pub document_mtime_ns : Bytes → Bytes → Op W (Option ℤ)
  -- The clock, in nanoseconds since 1970.
  pub now : W → ℕ
  -- `Recency::factor` of the setting that is given.
  pub factor : ℕ → F

-- A result is what the operation returns in some world.
abbrev pub Returns : {W A : Type 0} → Op W A → A → Type 0
Returns {W} m a = (w : W) × ((m w).0 ≡ done a)

pub Ensures-Returns : {W A : Type 0} (m : Op W A) → Ensures (Returns m) m
Ensures-Returns m w = holds (m w).0 refl
  where
    holds : (r : Result _) → (m w).0 ≡ r → Holds (Returns m) r
    holds (done a) e = (w, e)
    holds (timed_out stage) e = tt
    holds failed e = tt
