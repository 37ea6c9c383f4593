-- ===== src/Document/Walk/Complete.antt =====
-- Leaving a folder out of the walk loses no candidate.
use rqmd.Common.{
  ℕ, ◌≡◌, refl, sym, ap, ◌∙◌, Bool, true, false, not, ◌&&◌, ◌||◌, Option, List, [], ◌∷◌, ◌++◌,
  Bool-cases, inl, inr, append_assoc, append-nil,
}
use rqmd.Text.{Bytes}
use rqmd.Exclusions.{OsName, RelPath, prunes_dir, excluded_by_component, is_excluded}
use rqmd.Document.Walk.{
  WalkOptions, Node, file, dir, special, Entries, nil, entry, is_dir, Found, Walk, then_walk, keep,
  left_out, visit, walk_node, walk_entries, walk_paths, Candidates, take_file, take_found, collect,
  collect_candidates,
}
use rqmd.Document.Walk.Every.{
  all_or_none, every_below, every_entry, AllExcluded, excluded_last, every_below-AllExcluded,
}

rejected : (a b : Bool) → (not a || not b) ≡ false → b ≡ true
rejected true true h = refl
rejected true false h = absurd (cc)
rejected false b h = absurd (cc)

module _ (opts : WalkOptions) (include ignore : RelPath → Bool) where
  -- Lists with the same candidates, whatever follows them.
  Same : List Found → List Found → Type 0
  Same xs ys =
      (rest : List Found)
      → collect opts include ignore (xs ++ rest) ≡ collect opts include ignore (ys ++ rest)

  take_file-excluded :
      (rel : RelPath) (size : Option ℕ) (contained : Bool) (after : Candidates)
      → excluded_by_component rel opts.allow_hidden ≡ true
      → take_file opts include ignore rel size contained after ≡ after
  unfolding take_file is_excluded
  take_file-excluded rel size true after h = rw h refl
  take_file-excluded rel size false after h = refl

  take_found-excluded :
      (f : Found) (after : Candidates)
      → excluded_by_component f.rel opts.allow_hidden ≡ true
      → take_found opts include ignore f after ≡ after
  unfolding take_found take_file is_excluded
  take_found-excluded f after h =
      elim f.node as (λ n. take_found opts include ignore (record f { node = n }) after ≡ after) [
        | file size contained ↦ take_file-excluded f.rel size contained after h
        | dir entries ↦ refl
        | special ↦ refl
      ]

  AllExcluded-Same : (xs : List Found) → AllExcluded opts.allow_hidden xs → Same [] xs
  unfolding Same collect
  AllExcluded-Same [] h rest = refl
  AllExcluded-Same (x ∷ xs) (e, h) rest =
      AllExcluded-Same xs h rest ∙ sym (take_found-excluded x _ e)

  Same-cons : (f : Found) (xs ys : List Found) → Same xs ys → Same (f ∷ xs) (f ∷ ys)
  unfolding Same collect
  Same-cons f xs ys h rest = ap (take_found opts include ignore f) (h rest)

  Same-prefix :
      (xs ys zs rest : List Found)
      → Same ys zs
      → collect opts include ignore (xs ++ (ys ++ rest))
        ≡ collect opts include ignore (xs ++ (zs ++ rest))
  unfolding Same collect
  Same-prefix [] ys zs rest h = h rest
  Same-prefix (x ∷ xs) ys zs rest h =
      ap (take_found opts include ignore x) (Same-prefix xs ys zs rest h)

  Same-append : (xs ys zs ws : List Found) → Same xs ys → Same zs ws → Same (xs ++ zs) (ys ++ ws)
  unfolding Same
  Same-append xs ys zs ws h k rest =
      ap (collect opts include ignore) (append_assoc xs zs rest)
      ∙ h (zs ++ rest)
      ∙ Same-prefix ys zs ws rest k
      ∙ ap (collect opts include ignore) (sym (append_assoc ys ws rest))

  module _ (lossy : Bytes → Bytes) (gitignored : RelPath → Bool) where
    visit-Same :
        (path : RelPath) (name : OsName) (node : Node) (below : Walk) (all : List Found)
        → (excluded_by_component (path ++ name ∷ []) opts.allow_hidden ≡ true
            → AllExcluded opts.allow_hidden all)
        → Same below.found all
        → Same (visit lossy opts gitignored name (path ++ name ∷ []) node below).found (
            all_or_none opts gitignored
              (path ++ name ∷ [])
              (record { rel = path ++ name ∷ []; node = node } ∷ all))
    unfolding visit all_or_none left_out keep Same
    visit-Same path name node below all gone h =
        elim (Bool-cases (opts.respect_gitignore && gitignored (path ++ name ∷ []))) [
          | inl e ↦ rw e (λ rest. refl)
          | inr e ↦
              rw e
                (elim (Bool-cases (not (is_dir node) || not (prunes_dir name opts.allow_hidden))) [
                  | inl k ↦ rw k (Same-cons _ below.found all h)
                  | inr k ↦
                      let at =
                        excluded_last path name opts.allow_hidden (rejected (is_dir node) _ k) in
                      rw k (
                        AllExcluded-Same (record { rel = path ++ name ∷ []; node = node } ∷ all)
                          (at, gone at))
                ])
        ]

    mutual
      unfolding walk_node every_below then_walk Same

      walk_node-Same :
          (path : RelPath) (node : Node)
          → Same
              (walk_node lossy opts gitignored path node).found
              (every_below opts gitignored path node)
      walk_node-Same path (file size contained) = λ rest. refl
      walk_node-Same path special = λ rest. refl
      walk_node-Same path (dir entries) = walk_entries-Same path entries

      walk_entries-Same :
          (path : RelPath) (es : Entries)
          → Same
              (walk_entries lossy opts gitignored path es).found
              (every_entry opts gitignored path es)
      walk_entries-Same path nil = λ rest. refl
      walk_entries-Same path (entry name node rest) =
          Same-append _ _ _ _
            (visit-Same path name node (walk_node lossy opts gitignored (path ++ name ∷ []) node) _
              (λ e.
                every_below-AllExcluded opts gitignored opts.allow_hidden (path ++ name ∷ []) node
                  e)
              (walk_node-Same (path ++ name ∷ []) node))
            (walk_entries-Same path rest)

-- Every path at and below the root that `.gitignore` files leave.
unfoldable pub every_path : WalkOptions → (RelPath → Bool) → Node → List Found
every_path opts gitignored root =
    record { rel = []; node = root } ∷ every_below opts gitignored [] root

-- The files to index, and the count of those over the limit, are those of the walk that descends into every folder: no folder is pruned that holds a candidate.
pub collect_candidates-every_path :
    (lossy : Bytes → Bytes) (opts : WalkOptions) (gitignored include ignore : RelPath → Bool)
    (root : Node)
    → ((collect_candidates lossy opts gitignored include ignore root).files
        ≡ (collect opts include ignore (every_path opts gitignored root)).files)
      × ((collect_candidates lossy opts gitignored include ignore root).too_large
          ≡ (collect opts include ignore (every_path opts gitignored root)).too_large)
unfolding collect_candidates walk_paths every_path Same
collect_candidates-every_path lossy opts gitignored include ignore root =
    (ap (λ c. c.files) same, ap (λ c. c.too_large) same)
  where
    same :
        collect opts include ignore (walk_paths lossy opts gitignored root).found
        ≡ collect opts include ignore (every_path opts gitignored root)
    same =
        let c = collect opts include ignore in
        let found = (walk_node lossy opts gitignored [] root).found in
        ap (take_found opts include ignore (record { rel = []; node = root })) (
          ap c (sym (append-nil found))
          ∙ walk_node-Same opts include ignore lossy gitignored [] root []
          ∙ ap c (append-nil (every_below opts gitignored [] root)))
