-- ===== src/ModelCache.antt =====
-- crates/rqmd-core/src/model_cache.rs: the query cache file, its two tables and its row limit.
-- The tables, the rows and the eviction; the operations are in `Ops`. An `f32` is its bit pattern. `last_used` is far below the limit of an i64.
pub mod Digest
mod Examples
pub mod Evict
pub mod Limit
pub mod Recall
pub mod Recent
pub mod Ops
use rqmd.Common.{
  ℕ, zero, suc, ◌+◌, ◌-◌, ◌/◌, ◌%◌, ◌^◌, max, Bool, true, false, not, ◌&&◌, ◌||◌, Option, none,
  some, List, [], ◌∷◌, ◌++◌, map, ltb, leb, ◌==◌, if◌then◌else◌, length, take,
}
use rqmd.Text.{Bytes, bytes_eq}

abbrev pub F32 : Type 0
F32 = ℕ

-- `f32::is_finite`: the exponent bits are not all ones.
unfoldable pub is_finite : F32 → Bool
is_finite x = not (x / 2 ^ 23 % 256 == 255)

abbrev pub schema_version : ℕ
schema_version = 1

abbrev pub max_rows_default : ℕ
max_rows_default = 10000

-- `n.to_le_bytes()` for `k` bytes
unfoldable pub le_bytes : ℕ → ℕ → Bytes
le_bytes zero n = []
le_bytes (suc k) n = n % 256 ∷ le_bytes k (n / 256)

-- What the hasher is fed: every part behind its length as a u64.
unfoldable pub length_prefixed : List Bytes → Bytes
unfolding le_bytes
length_prefixed [] = []
length_prefixed (part ∷ parts) = le_bytes 8 (length part) ++ part ++ length_prefixed parts

-- A row of either table. SQLite numbers the rows of a table.
pub record Row (A : Type 0) : Type 0 where
  pub rowid : ℕ
  pub key : Bytes
  pub model : Bytes
  pub prompt_version : Bytes
  pub value : A
  pub last_used : ℕ

-- The database file and the limit of `ModelCache`.
pub record Cache : Type 0 where
  pub user_version : ℕ
  pub expansion : List (Row Bytes)
  pub rerank : List (Row F32)
  pub max_rows : ℕ

-- WHERE key = ?1 AND model = ?2 AND prompt_version = ?3
unfoldable pub is_row : {A : Type 0} → Bytes → Bytes → Bytes → Row A → Bool
is_row key model version r =
    bytes_eq r.key key && bytes_eq r.model model && bytes_eq r.prompt_version version

module _ {A : Type 0} where
  unfoldable pub find_row : Bytes → Bytes → Bytes → List (Row A) → Option A
  unfolding is_row
  find_row key model version [] = none
  find_row key model version (r ∷ rows) =
      if is_row key model version r then some r.value else find_row key model version rows

  -- The rows that REPLACE leaves: those of another primary key.
  unfoldable pub without_key : Bytes → List (Row A) → List (Row A)
  without_key key [] = []
  without_key key (r ∷ rows) =
      let rest = without_key key rows in if bytes_eq r.key key then rest else r ∷ rest

  unfoldable pub last_rowid : List (Row A) → ℕ
  last_rowid [] = 0
  last_rowid (r ∷ rows) = max r.rowid (last_rowid rows)

  -- SELECT MAX(last_used), 0 for an empty table
  unfoldable pub newest : List (Row A) → ℕ
  newest [] = 0
  newest (r ∷ rows) = max r.last_used (newest rows)

  -- INSERT OR REPLACE
  unfoldable pub insert_or_replace : Bytes → Bytes → Bytes → A → ℕ → List (Row A) → List (Row A)
  unfolding without_key last_rowid
  insert_or_replace key model version value tick rows =
      record {
        rowid = suc (last_rowid rows);
        key = key;
        model = model;
        prompt_version = version;
        value = value;
        last_used = tick;
      }
      ∷ without_key key rows

  -- DELETE ... WHERE rowid = ?1
  unfoldable pub delete_row : ℕ → List (Row A) → List (Row A)
  delete_row rowid [] = []
  delete_row rowid (r ∷ rows) =
      let rest = delete_row rowid rows in if r.rowid == rowid then rest else r ∷ rest

unfoldable pub count_rows : Cache → ℕ
count_rows c = if c.user_version == schema_version then length c.expansion + length c.rerank else 0

unfoldable pub next_tick : Cache → ℕ
unfolding newest
next_tick c = suc (max (newest c.expansion) (newest c.rerank))

-- A row of the query for the victims: `table` is 0 for `expansion` and 1 for `rerank`.
pub record Victim : Type 0 where
  pub table : ℕ
  pub rowid : ℕ
  pub last_used : ℕ

unfoldable pub tag : {A : Type 0} → ℕ → List (Row A) → List Victim
tag table [] = []
tag table (r ∷ rows) =
    record { table = table; rowid = r.rowid; last_used = r.last_used } ∷ tag table rows

-- ORDER BY last_used, t, rowid
unfoldable pub comes_first : Victim → Victim → Bool
comes_first a b =
    ltb a.last_used b.last_used
    || a.last_used == b.last_used
      && (ltb a.table b.table || a.table == b.table && leb a.rowid b.rowid)

unfoldable pub insert_victim : Victim → List Victim → List Victim
unfolding comes_first
insert_victim v [] = v ∷ []
insert_victim v (w ∷ ws) = if comes_first v w then v ∷ w ∷ ws else w ∷ insert_victim v ws

unfoldable pub sort_victims : List Victim → List Victim
unfolding insert_victim
sort_victims [] = []
sort_victims (v ∷ vs) = insert_victim v (sort_victims vs)

unfoldable pub delete_victim : Victim → Cache → Cache
unfolding delete_row
delete_victim v c =
    if v.table == 0
    then record c { expansion = delete_row v.rowid c.expansion }
    else record c { rerank = delete_row v.rowid c.rerank }

-- The loop over the victims.
unfoldable pub delete_victims : List Victim → Cache → Cache
delete_victims [] c = c
delete_victims (v ∷ vs) c = delete_victims vs (delete_victim v c)

unfoldable pub evict : Cache → Cache
evict c =
    let excess = count_rows c - c.max_rows in
    delete_victims (take excess (sort_victims (tag 0 c.expansion ++ tag 1 c.rerank))) c

-- `ensure_schema`: a file of another version is emptied.
unfoldable pub ensure_schema : Cache → Cache
ensure_schema c =
    if c.user_version == schema_version
    then c
    else record c { user_version = schema_version; expansion = []; rerank = [] }

unfoldable pub open_with_limit : Cache → ℕ → Cache
unfolding ensure_schema
open_with_limit file max_rows = ensure_schema (record file { max_rows = max_rows })
