-- ===== src/EmbedExclusion/Examples.antt =====
-- Tests of the embed exclusions, and their theorem at a concrete table.
use rqmd.Common.{ℕ, ◌+◌, ◌≡◌, refl, Bool, true, false, Option, none, some, List, [], ◌∷◌}
use rqmd.Text.{Bytes, codes, starts_with}
use rqmd.EmbedExclusion.{
  Collection, EmbedExclusions, ContentRow, from_collections, reason, rule, size_cap, excluded_docs,
}
use rqmd.EmbedExclusion.Complete.{has_number, any_excluded, count_excluded, excluded_docs_lem}

-- A glob "drafts/" stands for a prefix in the tests, and "[" does not parse.
abbrev prefix_glob : Bytes → Option (Bytes → Bool)
prefix_glob [] = none
prefix_glob (b ∷ s) = elim (starts_with (b ∷ s) (codes "[")) [
  | true ↦ none
  | false ↦ some (λ file. starts_with file (b ∷ s))
]

abbrev collection : Bytes → List Bytes → Option ℕ → Collection
collection name globs cap = record {
  name = name;
  path = codes "/notes";
  pattern = codes "**/*.md";
  ignore = [];
  include_by_default = true;
  update_command = none;
  allow_hidden = false;
  respect_gitignore = false;
  max_file_bytes = none;
  embed_ignore = globs;
  embed_max_bytes = cap;
}

abbrev exclusions : EmbedExclusions
exclusions =
    from_collections prefix_glob (λ globs. true)
      (collection (codes "notes") (codes "[" ∷ codes "drafts/" ∷ []) (some 100)
        ∷ collection (codes "docs") [] none
        ∷ [])
      []

rule_before_size : reason exclusions (codes "notes") (codes "drafts/a.md") 500 ≡ some rule
unfolding reason from_collections starts_with rqmd.Text.bytes_eq
rule_before_size = refl

above_cap : reason exclusions (codes "notes") (codes "a.md") 101 ≡ some size_cap
unfolding reason from_collections starts_with rqmd.Text.bytes_eq
above_cap = refl

at_cap : reason exclusions (codes "notes") (codes "a.md") 100 ≡ none
unfolding reason from_collections starts_with rqmd.Text.bytes_eq
at_cap = refl

abbrev content_row : ℕ → Bytes → Bytes → ℕ → ContentRow
content_row id name file bytes = record {
  id = id;
  collection = name;
  path = file;
  active = true;
  bytes = bytes;
}

abbrev rows : List ContentRow
rows =
    content_row 1 (codes "notes") (codes "drafts/a.md") 50
    ∷ content_row 2 (codes "docs") (codes "big.md") 5000
    ∷ content_row 3 (codes "notes") (codes "big.md") 5000
    ∷ content_row 4 (codes "notes") (codes "drafts/empty.md") 0
    ∷ []

two_excluded : excluded_docs rows exclusions ≡ record { ids = 3 ∷ 1 ∷ []; by_rule = 1; by_size = 1 }
unfolding excluded_docs from_collections starts_with
two_excluded = refl

excluded_docs_lem_example :
    (has_number 3 (excluded_docs rows exclusions).ids ≡ any_excluded exclusions 3 rows)
    × ((excluded_docs rows exclusions).by_rule + (excluded_docs rows exclusions).by_size
        ≡ count_excluded exclusions rows)
excluded_docs_lem_example = excluded_docs_lem rows exclusions 3
