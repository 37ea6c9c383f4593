-- ===== src/Store/Recency.antt =====
-- crates/rqmd-core/src/store.rs: the age of a file, and the factor that its score is multiplied by.
use rqmd.Common.{ℕ, ◌-◌, Option, none, some}
use rqmd.Text.{Bytes}
use rqmd.Store.{Op, pure, ◌>>=◌, Env, ℤ, pos, negsuc}
use rqmd.Store.Picks.{split_filepath}

-- The age at `now`, in nanoseconds. A file without a time, with one before 1970 or one ahead of `now` was just modified.
unfoldable pub age_at : ℕ → Option ℤ → ℕ
age_at now none = 0
age_at now (some (negsuc ns)) = 0
age_at now (some (pos ns)) = now - ns

unfoldable pub recency_factor : {W F V X : Type 0} → Env W F V X → ℕ → Bytes → Op W F
unfolding split_filepath age_at ◌>>=◌ pure
recency_factor env now filepath =
    env.document_mtime_ns (split_filepath filepath).0 (split_filepath filepath).1 >>= λ mtime.
    pure (env.factor (age_at now mtime))
