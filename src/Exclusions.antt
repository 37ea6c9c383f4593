-- ===== src/Exclusions.antt =====
-- crates/rqmd-cli/src/exclusions.rs: which paths of a collection are left out, and the masks.
-- A path is the list of its components below the root of the collection. globset is a parameter.
pub mod Commas
mod Examples
use rqmd.Common.{
  ℕ, zero, suc, ◌+◌, Bool, true, false, not, ◌&&◌, ◌||◌, Option, none, some, List, [], ◌∷◌, ◌==◌,
  if◌then◌else◌,
}
use rqmd.Text.{Bytes, codes, contains, starts_with, is_empty, trim}
use rqmd.Text.Lines.{onto_first}

-- A name that the file system returns: text, or bytes that are no UTF-8.
pub data OsName : Type 0 where
  text : Bytes → OsName
  raw : Bytes → OsName

abbrev pub RelPath : Type 0
RelPath = List OsName

unfoldable pub to_str : OsName → Option Bytes
to_str (text s) = some s
to_str (raw s) = none

abbrev pub builtin_excluded_dirs : List Bytes
builtin_excluded_dirs =
    codes "node_modules"
    ∷ codes "vendor"
    ∷ codes "dist"
    ∷ codes "build"
    ∷ codes "target"
    ∷ codes ".cache"
    ∷ []

unfoldable pub is_builtin_excluded_dir : Bytes → Bool
is_builtin_excluded_dir name = contains name builtin_excluded_dirs

unfoldable pub component_excluded : Bytes → Bool → Bool
unfolding is_builtin_excluded_dir
component_excluded name allow_hidden =
    not allow_hidden && starts_with name (codes ".") || is_builtin_excluded_dir name

unfoldable pub prunes_dir : OsName → Bool → Bool
unfolding component_excluded
prunes_dir (text s) allow_hidden = component_excluded s allow_hidden
prunes_dir (raw s) allow_hidden = true

-- The loop over the components: whether one of them excludes the path.
unfoldable pub excluded_by_component : RelPath → Bool → Bool
unfolding component_excluded
excluded_by_component [] allow_hidden = false
excluded_by_component (text s ∷ rel) allow_hidden =
    component_excluded s allow_hidden || excluded_by_component rel allow_hidden
excluded_by_component (raw s ∷ rel) allow_hidden = true

-- `ignore` is the match of the set of globs.
unfoldable pub is_excluded : RelPath → (RelPath → Bool) → Bool → Bool
unfolding excluded_by_component
is_excluded rel ignore allow_hidden = excluded_by_component rel allow_hidden || ignore rel

abbrev pub count : ℕ → ℕ → ℕ → ℕ
count brace b n = if b == brace then suc n else n

-- The depth is the number of opened braces less that of closed ones.
unfoldable pub split_at_depth : ℕ → ℕ → Bytes → List Bytes
split_at_depth opened closed [] = [] ∷ []
split_at_depth opened closed (b ∷ s) =
    let rest = split_at_depth (count b'{' b opened) (count b'}' b closed) s in
    if b == b',' && opened == closed then [] ∷ rest else onto_first b rest

unfoldable pub split_top_level_commas : Bytes → List Bytes
unfolding split_at_depth
split_top_level_commas mask = split_at_depth 0 0 mask

-- `Glob::new`: a glob, or the reason why there is none.
pub data Parsed (G : Type 0) : Type 0 where
  glob : G → Parsed G
  malformed : Bytes → Parsed G

-- The error names the part that is no glob; `too_large` is an error of the builder.
pub data Include (G : Type 0) : Type 0 where
  globs : List G → Include G
  invalid : Bytes → Include G
  too_large : Include G

unfoldable pub with_glob : {G : Type 0} → G → Include G → Include G
with_glob g (globs gs) = globs (g ∷ gs)
with_glob g (invalid part) = invalid part
with_glob g too_large = too_large

module _ {G : Type 0} (glob_new : Bytes → Parsed G) where
  unfoldable pub invalid_ignore_patterns : List Bytes → List (Bytes × Bytes)
  invalid_ignore_patterns [] = []
  invalid_ignore_patterns (pat ∷ pats) =
      let rest = invalid_ignore_patterns pats in
      elim (glob_new pat) [ glob g ↦ rest | malformed reason ↦ (pat, reason) ∷ rest ]

  -- `none` is the success.
  unfoldable pub validate_ignore_patterns : List Bytes → Option (Bytes × Bytes)
  unfolding invalid_ignore_patterns
  validate_ignore_patterns patterns = elim (invalid_ignore_patterns patterns) [
    | [] ↦ none
    | bad ∷ rest ↦ some bad
  ]

  -- The loop over the parts of the mask: the first part that is no glob is the error.
  unfoldable pub add_parts : List Bytes → Include G
  unfolding with_glob
  add_parts [] = globs []
  add_parts (part ∷ parts) =
      let rest = add_parts parts in
      if is_empty (trim part) then rest else elim (glob_new (trim part)) [
        | glob g ↦ with_glob g rest
        | malformed reason ↦ invalid (trim part)
      ]

  -- `build` is whether the builder takes the globs.
  unfoldable pub built : (List G → Bool) → Include G → Include G
  built build (globs gs) = if build gs then globs gs else too_large
  built build (invalid part) = invalid part
  built build too_large = too_large

  unfoldable pub build_include_set : (List G → Bool) → Bytes → Include G
  unfolding add_parts split_top_level_commas built
  build_include_set build mask = built build (add_parts (split_top_level_commas mask))
