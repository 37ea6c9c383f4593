-- ===== src/EmbedExclusion.antt =====
-- crates/rqmd-core/src/embed_exclusion.rs: the documents that a collection keeps out of `rqmd embed`.
pub mod Complete
mod Examples
use rqmd.Common.{
  ℕ, suc, ◌+◌, Bool, true, false, not, ◌&&◌, ◌||◌, Option, none, some, List, [], ◌∷◌, ◌++◌, map,
  ltb, ◌==◌, if◌then◌else◌,
}
use rqmd.Text.{Bytes, bytes_eq, contains}

-- `Collection` of types.rs
pub record Collection : Type 0 where
  pub name : Bytes
  pub path : Bytes
  pub pattern : Bytes
  pub ignore : List Bytes
  pub include_by_default : Bool
  pub update_command : Option Bytes
  pub allow_hidden : Bool
  pub respect_gitignore : Bool
  pub max_file_bytes : Option ℕ
  pub embed_ignore : List Bytes
  pub embed_max_bytes : Option ℕ

abbrev pub GlobSet : Type 0
GlobSet = List (Bytes → Bool)

unfoldable pub is_match : GlobSet → Bytes → Bool
is_match [] path = false
is_match (m ∷ ms) path = m path || is_match ms path

pub data ExclusionReason : Type 0 where
  rule : ExclusionReason
  size_cap : ExclusionReason

pub record CollectionRules : Type 0 where
  pub globs : GlobSet
  pub has_globs : Bool
  pub max_bytes : Option ℕ

-- The map of the rules as a list of its entries.
abbrev pub EmbedExclusions : Type 0
EmbedExclusions = List (Bytes × CollectionRules)

-- A later collection of the same name replaces an earlier one.
unfoldable pub put_rules : Bytes → CollectionRules → EmbedExclusions → EmbedExclusions
put_rules name rules [] = (name, rules) ∷ []
put_rules name rules ((n, r) ∷ entries) =
    if bytes_eq n name then (name, rules) ∷ entries else (n, r) ∷ put_rules name rules entries

unfoldable pub get_rules : Bytes → EmbedExclusions → Option CollectionRules
get_rules name [] = none
get_rules name ((n, r) ∷ entries) = if bytes_eq n name then some r else get_rules name entries

unfoldable pub is_none : {A : Type 0} → Option A → Bool
is_none none = true
is_none (some x) = false

unfoldable pub no_globs : List Bytes → Bool
no_globs [] = true
no_globs (g ∷ gs) = false

-- `compile` is `Glob::new`, none for a pattern that does not parse; `build` says whether the set of
-- the others can be built.
module _ (compile : Bytes → Option (Bytes → Bool)) (build : List Bytes → Bool) where
  unfoldable pub add_globs : List Bytes → GlobSet
  add_globs [] = []
  add_globs (p ∷ ps) = elim (compile p) [ none ↦ add_globs ps | some g ↦ g ∷ add_globs ps ]

  unfoldable pub build_ignore_set : List Bytes → GlobSet
  unfolding add_globs
  build_ignore_set patterns = if build patterns then add_globs patterns else []

  unfoldable pub from_collections : List Collection → EmbedExclusions → EmbedExclusions
  unfolding put_rules build_ignore_set is_none no_globs
  from_collections [] entries = entries
  from_collections (c ∷ cs) entries =
      let skipped = from_collections cs entries in
      let kept = from_collections cs (
        put_rules c.name
          (record {
            globs = build_ignore_set c.embed_ignore;
            has_globs = not (no_globs c.embed_ignore);
            max_bytes = c.embed_max_bytes;
          })
          entries) in
      if not (no_globs c.embed_ignore) || not (is_none c.embed_max_bytes) then kept else skipped

unfoldable pub reason_of : CollectionRules → Bytes → ℕ → Option ExclusionReason
unfolding is_match
reason_of rules path indexed_bytes =
    if rules.has_globs && is_match rules.globs path then some rule else elim rules.max_bytes [
      | none ↦ none
      | some cap ↦ if ltb cap indexed_bytes then some size_cap else none
    ]

-- `EmbedExclusions::reason`
unfoldable pub reason : EmbedExclusions → Bytes → Bytes → ℕ → Option ExclusionReason
unfolding get_rules reason_of
reason exclusions collection path indexed_bytes = elim (get_rules collection exclusions) [
  | none ↦ none
  | some rules ↦ reason_of rules path indexed_bytes
]

-- A document joined with its content.
pub record ContentRow : Type 0 where
  pub id : ℕ
  pub collection : Bytes
  pub path : Bytes
  pub active : Bool
  pub bytes : ℕ

pub record ExcludedDocs : Type 0 where
  pub ids : List ℕ
  pub by_rule : ℕ
  pub by_size : ℕ

unfoldable pub names_of : EmbedExclusions → List Bytes
names_of [] = []
names_of ((n, r) ∷ entries) = n ∷ names_of entries

-- The WHERE clause.
unfoldable pub selects : EmbedExclusions → ContentRow → Bool
unfolding names_of contains
selects exclusions row =
    row.active && ltb 0 row.bytes && contains row.collection (names_of exclusions)

unfoldable pub count_reason : Option ExclusionReason → ℕ → ExcludedDocs → ExcludedDocs
count_reason none id out = out
count_reason (some rule) id out = record out { by_rule = suc out.by_rule; ids = id ∷ out.ids }
count_reason (some size_cap) id out = record out { by_size = suc out.by_size; ids = id ∷ out.ids }

-- The loop over the selected rows. The set of ids is the list of those inserted.
unfoldable pub count_rows_excluded : EmbedExclusions → List ContentRow → ExcludedDocs → ExcludedDocs
unfolding selects count_reason reason
count_rows_excluded exclusions [] out = out
count_rows_excluded exclusions (row ∷ rows) out =
    let skipped = count_rows_excluded exclusions rows out in
    let counted =
      count_rows_excluded exclusions rows
        (count_reason (reason exclusions row.collection row.path row.bytes) row.id out) in
    if selects exclusions row then counted else skipped

unfoldable pub excluded_docs : List ContentRow → EmbedExclusions → ExcludedDocs
unfolding count_rows_excluded
excluded_docs table [] = record { ids = []; by_rule = 0; by_size = 0 }
excluded_docs table (e ∷ es) =
    count_rows_excluded (e ∷ es) table (record { ids = []; by_rule = 0; by_size = 0 })
