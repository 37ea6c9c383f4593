-- ===== src/ModelCache/Examples.antt =====
-- Tests of the query cache, and its theorems at a concrete file.
use rqmd.Common.{ℕ, ◌≡◌, refl, none, some, List, [], ◌∷◌, ◌++◌, arith}
use rqmd.Text.{Bytes, codes}
use rqmd.ModelCache.{F32, Row, Cache, count_rows, evict, schema_version, open_with_limit}
use rqmd.ModelCache.Evict.{entries}
use rqmd.ModelCache.Limit.{victims, FitsLimit, put_within_limit}
use rqmd.ModelCache.Recent.{Each, Older, evict_least_recent}
use rqmd.ModelCache.Recall.{get_expansion-put_expansion}
use rqmd.ModelCache.Digest.{length_prefixed-injective}
use rqmd.ModelCache.Ops.{
  hex_encode, missing, unreadable, readable, nothing, removed, clear_at, get_expansion,
  put_expansion, put_rerank_scores,
}

-- A hash for the tests.
abbrev reversed : Bytes → Bytes
reversed [] = []
reversed (x ∷ s) = reversed s ++ x ∷ []

abbrev version : Bytes
version = codes "0.4.2"

abbrev a_row : ℕ → Bytes → ℕ → Row F32
a_row n key tick = record {
  rowid = n;
  key = key;
  model = codes "m";
  prompt_version = version;
  value = 0x3f800000;
  last_used = tick;
}

-- A full cache of two rows.
abbrev small : Cache
small = record {
  user_version = 1;
  expansion =
      record {
        rowid = 1;
        key = codes "k";
        model = codes "m";
        prompt_version = version;
        value = codes "lex: a";
        last_used = 2;
      }
      ∷ [];
  rerank = a_row 1 (codes "p") 1 ∷ [];
  max_rows = 2;
}

hex_encode_test : hex_encode (0x0f ∷ 0xa3 ∷ []) ≡ codes "0fa3"
unfolding hex_encode
hex_encode_test = refl

-- A file of another version is emptied.
open_other_version : count_rows (open_with_limit (record small { user_version = 2 }) 5) ≡ 0
unfolding open_with_limit count_rows
open_other_version = refl

clear_missing : clear_at missing ≡ (nothing, missing)
unfolding clear_at
clear_missing = refl

clear_unreadable : clear_at unreadable ≡ (removed none, missing)
unfolding clear_at
clear_unreadable = refl

clear_readable : clear_at (readable small) ≡ (removed (some 2), missing)
unfolding clear_at count_rows
clear_readable = refl

put_within_limit_example :
    ((file : Cache) (limit : ℕ) → (open_with_limit file limit).user_version ≡ schema_version)
    × ((prompt model output : Bytes)
        → FitsLimit 2 (put_expansion reversed version small prompt model output))
    × ((query model : Bytes) (scored : List (Bytes × F32))
        → FitsLimit 2 (put_rerank_scores reversed version small query model scored))
put_within_limit_example = put_within_limit reversed version small refl

evict_least_recent_example :
    Each
      (Older (victims (record small { max_rows = 1 })))
      (entries (evict (record small { max_rows = 1 })))
evict_least_recent_example = evict_least_recent (record small { max_rows = 1 })

get_expansion-put_expansion_example :
    get_expansion reversed version
      (put_expansion reversed version small (codes "prompt") (codes "m") (codes "vec: b"))
      (codes "prompt")
      (codes "m")
    ≡ some (codes "vec: b")
get_expansion-put_expansion_example =
    get_expansion-put_expansion reversed version small (codes "prompt") (codes "m") (codes "vec: b")
      (omega arith)

length_prefixed-injective_example : codes "q" ∷ codes "c" ∷ [] ≡ codes "q" ∷ codes "c" ∷ []
length_prefixed-injective_example =
    length_prefixed-injective (codes "q" ∷ codes "c" ∷ []) (codes "q" ∷ codes "c" ∷ [])
      (omega arith, (omega arith, tt)) (omega arith, (omega arith, tt)) refl
