-- ===== src/ModelCache/Ops.antt =====
-- model_cache.rs: the keys and the operations of an open cache, and of the cache file.
-- `sha256` stands for the `sha2` crate and `pkg_version` for the crate's version.
use rqmd.Common.{ℕ, ◌+◌, ◌/◌, ◌%◌, Option, none, some, List, [], ◌∷◌, ◌++◌, map, ltb, if◌then◌else◌}
use rqmd.Text.{Bytes, codes}
use rqmd.ModelCache.{
  F32, is_finite, length_prefixed, Row, Cache, find_row, insert_or_replace, count_rows, next_tick,
  evict,
}

unfoldable pub hex_digit : ℕ → ℕ
hex_digit d = if ltb d 10 then d + b'0' else d + 87

-- `hex::encode`
unfoldable pub hex_encode : Bytes → Bytes
unfolding hex_digit
hex_encode [] = []
hex_encode (b ∷ s) = hex_digit (b / 16) ∷ hex_digit (b % 16) ∷ hex_encode s

-- The cache file, as the path-level functions see it.
pub data CacheFile : Type 0 where
  missing : CacheFile
  unreadable : CacheFile
  readable : Cache → CacheFile

pub data Cleared : Type 0 where
  nothing : Cleared
  removed : Option ℕ → Cleared

-- `none` is the error of a file that cannot be read.
unfoldable pub row_count_at : CacheFile → Option (Option ℕ)
row_count_at missing = some none
row_count_at unreadable = none
row_count_at (readable c) = some (some (count_rows c))

unfoldable pub flatten_rows : Option (Option ℕ) → Option ℕ
flatten_rows none = none
flatten_rows (some rows) = rows

unfoldable pub clear_at : CacheFile → Cleared × CacheFile
unfolding row_count_at flatten_rows
clear_at missing = (nothing, missing)
clear_at file = (removed (flatten_rows (row_count_at file)), missing)

module _ (sha256 : Bytes → Bytes) (pkg_version : Bytes) where
  -- `expansion_prompt_version`
  unfoldable pub expansion_prompt_version : Bytes
  expansion_prompt_version = codes "expansion-1+" ++ pkg_version

  unfoldable pub rerank_prompt_version : Bytes
  rerank_prompt_version = codes "rerank-1+" ++ pkg_version

  unfoldable pub digest : Bytes → List Bytes → Bytes
  digest kind fields = sha256 (length_prefixed (kind ∷ fields))

  unfoldable pub expansion_key : Bytes → Bytes
  unfolding digest
  expansion_key prompt = digest (codes "expansion") (prompt ∷ [])

  unfoldable pub rerank_key : Bytes → Bytes → Bytes
  unfolding digest hex_encode
  rerank_key query chunk = digest (codes "rerank") (query ∷ hex_encode (sha256 chunk) ∷ [])

  unfoldable pub get_expansion : Cache → Bytes → Bytes → Option Bytes
  get_expansion c prompt model =
      find_row (expansion_key prompt) model expansion_prompt_version c.expansion

  -- One transaction: it is applied as a whole.
  unfoldable pub put_expansion : Cache → Bytes → Bytes → Bytes → Cache
  put_expansion c prompt model output = evict (record c {
    expansion =
        insert_or_replace (expansion_key prompt) model expansion_prompt_version output (next_tick c)
          c.expansion;
  })

  unfoldable pub get_rerank_scores : Cache → Bytes → Bytes → List Bytes → List (Option F32)
  get_rerank_scores c query model chunks =
      map (λ chunk. find_row (rerank_key query chunk) model rerank_prompt_version c.rerank) chunks

  -- The loop over the finite scores.
  unfoldable pub store_scores :
      Bytes → Bytes → ℕ → List (Bytes × F32) → List (Row F32) → List (Row F32)
  store_scores query model tick [] rows = rows
  store_scores query model tick ((chunk, score) ∷ scored) rows =
      store_scores query model tick scored (
        if is_finite score
        then insert_or_replace (rerank_key query chunk) model rerank_prompt_version score tick rows
        else rows)

  unfoldable pub put_rerank_scores : Cache → Bytes → Bytes → List (Bytes × F32) → Cache
  put_rerank_scores c query model scored =
      evict (record c { rerank = store_scores query model (next_tick c) scored c.rerank })
