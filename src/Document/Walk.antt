-- ===== src/Document/Walk.antt =====
-- crates/rqmd-cli/src/document.rs: the walk over a collection, its pruning and the candidates.
-- A tree is what the walkers see below the root, symbolic links followed; an entry that cannot be read is not in it.
-- A file carries its size, if it can be read, and whether its real path is below the real root.
pub mod Every
pub mod Complete
use rqmd.Common.{
  ℕ, zero, suc, ◌+◌, ◌*◌, Bool, true, false, not, ◌&&◌, ◌||◌, Option, none, some, List, [], ◌∷◌,
  ◌++◌, ltb, ◌==◌, if◌then◌else◌,
}
use rqmd.Text.{Bytes, bytes_eq, bytes_lt, codes}
use rqmd.Text.Lines.{join}
use rqmd.EmbedExclusion.{Collection}
use rqmd.Exclusions.{
  OsName, text, raw, RelPath, to_str, is_builtin_excluded_dir, prunes_dir, is_excluded,
}

abbrev pub default_max_file_bytes : ℕ
default_max_file_bytes = 10 * 1024 * 1024

pub record WalkOptions : Type 0 where
  pub allow_hidden : Bool
  pub respect_gitignore : Bool
  pub max_file_bytes : ℕ

unfoldable pub limit_or_default : Option ℕ → ℕ
limit_or_default none = default_max_file_bytes
limit_or_default (some limit) = limit

unfoldable pub for_collection : Collection → WalkOptions
unfolding limit_or_default
for_collection col = record {
  allow_hidden = col.allow_hidden;
  respect_gitignore = col.respect_gitignore;
  max_file_bytes = limit_or_default col.max_file_bytes;
}

mutual
  pub data Node : Type 0 where
    file : Option ℕ → Bool → Node
    dir : Entries → Node
    special : Node

  pub data Entries : Type 0 where
    nil : Entries
    entry : OsName → Node → Entries → Entries

abbrev pub is_dir : Node → Bool
is_dir (file size contained) = false
is_dir (dir entries) = true
is_dir special = false

-- A path that the walker returns.
pub record Found : Type 0 where
  pub rel : RelPath
  pub node : Node

-- What the walk has returned, and the folders that its filter has noted.
pub record Walk : Type 0 where
  pub found : List Found
  pub pruned : List Bytes

abbrev pub no_walk : Walk
no_walk = record { found = []; pruned = [] }

unfoldable pub then_walk : Walk → Walk → Walk
then_walk v w = record { found = v.found ++ w.found; pruned = v.pruned ++ w.pruned }

-- Parameters: `to_string_lossy`, the options, and the paths that the `.gitignore` files match.
module _ (lossy : Bytes → Bytes) (opts : WalkOptions) (gitignored : RelPath → Bool) where
  unfoldable pub component_text : OsName → Bytes
  component_text (text s) = s
  component_text (raw s) = lossy s

  unfoldable pub rel_path_of : RelPath → List Bytes
  unfolding component_text
  rel_path_of [] = []
  rel_path_of (name ∷ names) = component_text name ∷ rel_path_of names

  -- `Pruner::keep`
  unfoldable pub keep : ℕ → Bool → OsName → Bool
  unfolding prunes_dir
  keep depth folder name = depth == 0 || not folder || not (prunes_dir name opts.allow_hidden)

  -- What `keep` pushes for a folder that it rejects.
  unfoldable pub note_pruned : OsName → RelPath → List Bytes
  unfolding rel_path_of is_builtin_excluded_dir
  note_pruned (text s) path =
      if is_builtin_excluded_dir s then join (codes "/") (rel_path_of path) ∷ [] else []
  note_pruned (raw s) path = []

  unfoldable pub left_out : RelPath → Bool
  left_out path = opts.respect_gitignore && gitignored path

  -- An entry with what the walk finds below it.
  unfoldable pub visit : OsName → RelPath → Node → Walk → Walk
  unfolding keep note_pruned left_out
  visit name path node below =
      if left_out path
      then no_walk
      else if keep 1 (is_dir node) name
      then record {
        found = record { rel = path; node = node } ∷ below.found;
        pruned = below.pruned;
      }
      else record { found = []; pruned = note_pruned name path }

  unfoldable mutual
    pub walk_node : RelPath → Node → Walk
    walk_node path (file size contained) = no_walk
    walk_node path special = no_walk
    walk_node path (dir entries) = walk_entries path entries

    pub walk_entries : RelPath → Entries → Walk
    walk_entries path nil = no_walk
    walk_entries path (entry name node rest) =
        then_walk (visit name (path ++ name ∷ []) node (walk_node (path ++ name ∷ []) node))
          (walk_entries path rest)

  -- The root itself has depth 0 and is kept.
  unfoldable pub walk_paths : Node → Walk
  unfolding walk_node
  walk_paths root =
      let w = walk_node [] root in
      record { found = record { rel = []; node = root } ∷ w.found; pruned = w.pruned }

pub record Candidates : Type 0 where
  pub files : List RelPath
  pub too_large : ℕ
  pub excluded_dirs : List Bytes

unfoldable pub over_limit : ℕ → Option ℕ → Bool
over_limit limit none = false
over_limit limit (some size) = ltb limit size

module _ (opts : WalkOptions) (include ignore : RelPath → Bool) where
  -- The body of the loop for a file, in front of the rounds that follow.
  unfoldable pub take_file : RelPath → Option ℕ → Bool → Candidates → Candidates
  unfolding is_excluded over_limit
  take_file rel size contained after =
      if not contained || is_excluded rel ignore opts.allow_hidden
      then after
      else if not (include rel)
      then after
      else if over_limit opts.max_file_bytes size
      then record after { too_large = suc after.too_large }
      else record after { files = rel ∷ after.files }

  unfoldable pub take_found : Found → Candidates → Candidates
  unfolding take_file
  take_found f after = elim (f.node) [
    | file size contained ↦ take_file f.rel size contained after
    | dir entries ↦ after
    | special ↦ after
  ]

  unfoldable pub collect : List Found → Candidates
  unfolding take_found
  collect [] = record { files = []; too_large = 0; excluded_dirs = [] }
  collect (f ∷ fs) = take_found f (collect fs)

-- `sort`
unfoldable pub insert_dir : Bytes → List Bytes → List Bytes
insert_dir d [] = d ∷ []
insert_dir d (e ∷ es) = let rest = insert_dir d es in if bytes_lt e d then e ∷ rest else d ∷ e ∷ es

unfoldable pub sort_dirs : List Bytes → List Bytes
unfolding insert_dir
sort_dirs [] = []
sort_dirs (d ∷ ds) = insert_dir d (sort_dirs ds)

-- `dedup`: of equal neighbours one stays.
unfoldable pub dedup_dirs : List Bytes → List Bytes
dedup_dirs [] = []
dedup_dirs (d ∷ []) = d ∷ []
dedup_dirs (d ∷ e ∷ es) = let rest = dedup_dirs (e ∷ es) in if bytes_eq d e then rest else d ∷ rest

module _ (lossy : Bytes → Bytes) (opts : WalkOptions)
    (gitignored include ignore : RelPath → Bool) where
  unfoldable pub collect_candidates : Node → Candidates
  unfolding walk_paths collect sort_dirs dedup_dirs
  collect_candidates root =
      let w = walk_paths lossy opts gitignored root in
      record (collect opts include ignore w.found) {
        excluded_dirs = dedup_dirs (sort_dirs w.pruned);
      }
