-- ===== src/ModelCache/Limit.antt =====
-- After an eviction the cache holds no more rows than its limit.
use rqmd.Common.{
  ℕ, zero, suc, ◌+◌, ◌-◌, ◌≤◌, ◌≡◌, refl, sym, ap, ◌∙◌, Bool, true, false, ◌||◌, List, [], ◌∷◌,
  ◌++◌, arith, ◌==◌, ==_iff, if◌then◌else◌, Bool-cases, inl, inr, length, take, drop,
  take-append-drop, length-drop, length-append,
}
use rqmd.Text.{Bytes}
use rqmd.ModelCache.{
  F32, Row, Cache, Victim, tag, comes_first, insert_victim, sort_victims, delete_victim,
  delete_victims, evict, count_rows, schema_version, ensure_schema, open_with_limit,
}
use rqmd.ModelCache.Evict.{same_row, others, without, entries, InTables, entries-delete_victims}
use rqmd.ModelCache.Ops.{put_expansion, put_rerank_scores}

abbrev pub hit : List Victim → Victim → Bool
hit [] w = false
hit (v ∷ vs) w = same_row w v || hit vs w

-- How many entries no victim names.
abbrev kept : List Victim → List Victim → ℕ
kept vs [] = 0
kept vs (w ∷ ws) = if hit vs w then kept vs ws else suc (kept vs ws)

kept-others : (v : Victim) (vs ws : List Victim) → kept vs (others v ws) ≡ kept (v ∷ vs) ws
kept-others v vs [] = refl
kept-others v vs (w ∷ ws) = ground (arith, kept-others v vs ws)

kept_nothing : (ws : List Victim) → kept [] ws ≡ length ws
kept_nothing [] = refl
kept_nothing (w ∷ ws) = ap suc (kept_nothing ws)

length-without : (vs ws : List Victim) → length (without vs ws) ≡ kept vs ws
length-without [] ws = sym (kept_nothing ws)
length-without (v ∷ vs) ws = length-without vs (others v ws) ∙ kept-others v vs ws

kept-append : (vs xs ys : List Victim) → kept vs (xs ++ ys) ≡ kept vs xs + kept vs ys
kept-append vs [] ys = omega arith
kept-append vs (x ∷ xs) ys = ground (arith, kept-append vs xs ys)

kept-insert_victim :
    (vs : List Victim) (v : Victim) (ws : List Victim)
    → kept vs (insert_victim v ws) ≡ kept vs (v ∷ ws)
unfolding insert_victim
kept-insert_victim vs v [] = refl
kept-insert_victim vs v (w ∷ ws) = elim (Bool-cases (comes_first v w)) [
  | inl e ↦ rw e
  | inr e ↦ rw e (ground (arith, kept-insert_victim vs v ws))
]

kept-sort_victims : (vs ws : List Victim) → kept vs (sort_victims ws) ≡ kept vs ws
unfolding sort_victims
kept-sort_victims vs [] = refl
kept-sort_victims vs (w ∷ ws) =
    kept-insert_victim vs w (sort_victims ws)
    ∙ ap (λ (n : ℕ). if hit vs w then n else suc n) (kept-sort_victims vs ws)

abbrev pub AllHit : List Victim → List Victim → Type 0
AllHit vs [] = Unit
AllHit vs (w ∷ ws) = (hit vs w ≡ true) × AllHit vs ws

AllHit-more : (v : Victim) (vs ws : List Victim) → AllHit vs ws → AllHit (v ∷ vs) ws
AllHit-more v vs [] h = tt
AllHit-more v vs (w ∷ ws) (h, hs) = (ground arith, AllHit-more v vs ws hs)

pub AllHit-self : (vs : List Victim) → AllHit vs vs
AllHit-self [] = tt
AllHit-self (v ∷ vs) = (ground arith, AllHit-more v vs vs (AllHit-self vs))

kept-AllHit : (vs ws : List Victim) → AllHit vs ws → kept vs ws ≡ 0
kept-AllHit vs [] h = refl
kept-AllHit vs (w ∷ ws) (h, hs) = rw h (kept-AllHit vs ws hs)

kept-le-length : (vs ws : List Victim) → kept vs ws ≤ length ws
kept-le-length vs [] = omega arith
kept-le-length vs (w ∷ ws) = ground (arith, kept-le-length vs ws)

pub length-sort_victims : (ws : List Victim) → length (sort_victims ws) ≡ length ws
length-sort_victims ws =
    sym (kept_nothing (sort_victims ws)) ∙ kept-sort_victims [] ws ∙ kept_nothing ws

-- Deleting the first `k` of the sorted entries leaves at most the others.
without_first :
    (k : ℕ) (ws : List Victim) → length (without (take k (sort_victims ws)) ws) ≤ length ws - k
without_first k ws =
    let vs = take k (sort_victims ws) in
    let split =
      sym (kept-sort_victims vs ws)
      ∙ ap (kept vs) (sym (take-append-drop k (sort_victims ws)))
      ∙ kept-append vs vs (drop k (sort_victims ws)) in
    omega (
      arith,
      length-without vs ws,
      split,
      kept-AllHit vs vs (AllHit-self vs),
      kept-le-length vs (drop k (sort_victims ws)),
      length-drop k (sort_victims ws),
      length-sort_victims ws,
    )

InTables-insert_victim :
    (v : Victim) (ws : List Victim) → v.table ≤ 1 → InTables ws → InTables (insert_victim v ws)
unfolding insert_victim
InTables-insert_victim v [] h k = (h, tt)
InTables-insert_victim v (w ∷ ws) h (l, k) = elim (Bool-cases (comes_first v w)) [
  | inl e ↦ rw e (h, (l, k))
  | inr e ↦ rw e (l, InTables-insert_victim v ws h k)
]

InTables-sort_victims : (ws : List Victim) → InTables ws → InTables (sort_victims ws)
unfolding sort_victims
InTables-sort_victims [] h = tt
InTables-sort_victims (w ∷ ws) (h, hs) =
    InTables-insert_victim w (sort_victims ws) h (InTables-sort_victims ws hs)

InTables-take : (k : ℕ) (ws : List Victim) → InTables ws → InTables (take k ws)
InTables-take zero ws h = tt
InTables-take (suc k) [] h = tt
InTables-take (suc k) (w ∷ ws) (h, hs) = (h, InTables-take k ws hs)

InTables-tag :
    {A : Type 0} (n : ℕ) (rows : List (Row A)) (ws : List Victim)
    → n ≤ 1
    → InTables ws
    → InTables (tag n rows ++ ws)
unfolding tag
InTables-tag n [] ws h k = k
InTables-tag n (r ∷ rows) ws h k = (h, InTables-tag n rows ws h k)

InTables-nil : {A : Type 0} (n : ℕ) (rows : List (Row A)) → n ≤ 1 → InTables (tag n rows)
unfolding tag
InTables-nil n [] h = tt
InTables-nil n (r ∷ rows) h = (h, InTables-nil n rows h)

-- The victims of an eviction.
abbrev pub victims : Cache → List Victim
victims c = take (count_rows c - c.max_rows) (sort_victims (entries c))

victims-InTables : (c : Cache) → InTables (victims c)
victims-InTables c = InTables-take _ (sort_victims (entries c)) (
    InTables-sort_victims (entries c) (
      InTables-tag 0 c.expansion (tag 1 c.rerank) (omega arith)
        (InTables-nil 1 c.rerank (omega arith))))

pub entries-evict : (c : Cache) → entries (evict c) ≡ without (victims c) (entries c)
unfolding evict
entries-evict c = entries-delete_victims (victims c) c (victims-InTables c)

pub length-tag : {A : Type 0} (n : ℕ) (rows : List (Row A)) → length (tag n rows) ≡ length rows
unfolding tag
length-tag n [] = refl
length-tag n (r ∷ rows) = ap suc (length-tag n rows)

length-entries : (c : Cache) → length (entries c) ≡ length c.expansion + length c.rerank
length-entries c = omega (
  arith,
  length-append (tag 0 c.expansion) (tag 1 c.rerank),
  length-tag 0 c.expansion,
  length-tag 1 c.rerank,
)

user_version-delete_victims :
    (vs : List Victim) (c : Cache) → (delete_victims vs c).user_version ≡ c.user_version
unfolding delete_victims delete_victim
user_version-delete_victims [] c = refl
user_version-delete_victims (v ∷ vs) c =
    user_version-delete_victims vs (delete_victim v c) ∙ ground arith

user_version-evict : (c : Cache) → (evict c).user_version ≡ c.user_version
unfolding evict
user_version-evict c = user_version-delete_victims (victims c) c

abbrev pub rows_of : Cache → ℕ
rows_of c = length c.expansion + length c.rerank

-- A file of the current schema, with at most so many rows in its two tables.
pub record FitsLimit (limit : ℕ) (c : Cache) : Type 0 where
  pub current : c.user_version ≡ schema_version
  pub few : rows_of c ≤ limit

FitsLimit-evict : (c : Cache) → c.user_version ≡ schema_version → FitsLimit c.max_rows (evict c)
unfolding count_rows
FitsLimit-evict c h = record {
  current = user_version-evict c ∙ h;
  few = omega (
    arith,
    length-entries (evict c),
    ap length (entries-evict c),
    length-entries c,
    without_first (count_rows c - c.max_rows) (entries c),
    full,
  );
}
  where
    full : count_rows c ≡ length c.expansion + length c.rerank
    full = rw h refl

open_with_limit-current :
    (file : Cache) (limit : ℕ) → (open_with_limit file limit).user_version ≡ schema_version
unfolding open_with_limit ensure_schema
open_with_limit-current file limit = elim (Bool-cases (file.user_version == schema_version)) [
  | inl e ↦ rw e ((==_iff file.user_version schema_version).0 e)
  | inr e ↦ rw e refl
]

-- A file that is opened has the current schema, whatever it held before. In a file with the current schema, storing an expansion or rerank scores leaves at most the cache's limit of rows in the two tables together, and the schema current.
pub put_within_limit :
    (sha256 : Bytes → Bytes) (pkg_version : Bytes) (c : Cache)
    → c.user_version ≡ schema_version
    → ((file : Cache) (limit : ℕ) → (open_with_limit file limit).user_version ≡ schema_version)
      × ((prompt model output : Bytes)
          → FitsLimit c.max_rows (put_expansion sha256 pkg_version c prompt model output))
      × ((query model : Bytes) (scored : List (Bytes × F32))
          → FitsLimit c.max_rows (put_rerank_scores sha256 pkg_version c query model scored))
unfolding put_expansion put_rerank_scores
put_within_limit sha256 pkg_version c h = (
  open_with_limit-current,
  λ prompt model output. FitsLimit-evict (record c { expansion = _ }) h,
  λ query model scored. FitsLimit-evict (record c { rerank = _ }) h,
)
