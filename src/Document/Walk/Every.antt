-- ===== src/Document/Walk/Every.antt =====
-- Every path of a tree, and those that a component of the path excludes.
use rqmd.Common.{
  ◌≡◌, refl, Bool, true, false, ◌&&◌, ◌||◌, List, [], ◌∷◌, ◌++◌, if◌then◌else◌, Bool-cases, inl,
  inr,
}
use rqmd.Exclusions.{
  OsName, text, raw, RelPath, prunes_dir, component_excluded, excluded_by_component,
}
use rqmd.Document.Walk.{WalkOptions, Node, file, dir, special, Entries, nil, entry, Found}

-- Every path of the tree but those that are left out for `.gitignore`, in the order of the walk.
module _ (opts : WalkOptions) (gitignored : RelPath → Bool) where
  unfoldable pub all_or_none : RelPath → List Found → List Found
  all_or_none path found = if opts.respect_gitignore && gitignored path then [] else found

  unfoldable mutual
    pub every_below : RelPath → Node → List Found
    every_below path (file size contained) = []
    every_below path special = []
    every_below path (dir entries) = every_entry path entries

    pub every_entry : RelPath → Entries → List Found
    every_entry path nil = []
    every_entry path (entry name node rest) =
        all_or_none (path ++ name ∷ [])
          (record { rel = path ++ name ∷ []; node = node } ∷ every_below (path ++ name ∷ []) node)
        ++ every_entry path rest

-- Paths with a component that excludes them.
abbrev pub AllExcluded : Bool → List Found → Type 0
AllExcluded hidden [] = Unit
AllExcluded hidden (f ∷ fs) = (excluded_by_component f.rel hidden ≡ true) × AllExcluded hidden fs

AllExcluded-append :
    (hidden : Bool) (xs ys : List Found)
    → AllExcluded hidden xs
    → AllExcluded hidden ys
    → AllExcluded hidden (xs ++ ys)
AllExcluded-append hidden [] ys h k = k
AllExcluded-append hidden (x ∷ xs) ys (e, h) k = (e, AllExcluded-append hidden xs ys h k)

excluded_below :
    (path : RelPath) (names : RelPath) (hidden : Bool)
    → excluded_by_component path hidden ≡ true
    → excluded_by_component (path ++ names) hidden ≡ true
unfolding excluded_by_component
excluded_below [] names hidden h = absurd (cc)
excluded_below (text s ∷ path) names hidden h = elim (Bool-cases (component_excluded s hidden)) [
  | inl e ↦ rw e refl
  | inr e ↦ rw e (excluded_below path names hidden (rw e at h))
]
excluded_below (raw s ∷ path) names hidden h = refl

or_true : (b : Bool) → (b || true) ≡ true
or_true true = refl
or_true false = refl

pub excluded_last :
    (path : RelPath) (name : OsName) (hidden : Bool)
    → prunes_dir name hidden ≡ true
    → excluded_by_component (path ++ name ∷ []) hidden ≡ true
unfolding excluded_by_component prunes_dir
excluded_last [] (text s) hidden h = rw h refl
excluded_last [] (raw s) hidden h = refl
excluded_last (text s ∷ path) name hidden h =
    rw (excluded_last path name hidden h) (or_true (component_excluded s hidden))
excluded_last (raw s ∷ path) name hidden h = refl

module _ (opts : WalkOptions) (gitignored : RelPath → Bool) where
  all_or_none-AllExcluded :
      (hidden : Bool) (path : RelPath) (fs : List Found)
      → AllExcluded hidden fs
      → AllExcluded hidden (all_or_none opts gitignored path fs)
  unfolding all_or_none
  all_or_none-AllExcluded hidden path fs h =
      elim (Bool-cases (opts.respect_gitignore && gitignored path)) [
        | inl e ↦ rw e tt
        | inr e ↦ rw e h
      ]

  mutual
    unfolding every_below

    pub every_below-AllExcluded :
        (hidden : Bool) (path : RelPath) (node : Node)
        → excluded_by_component path hidden ≡ true
        → AllExcluded hidden (every_below opts gitignored path node)
    every_below-AllExcluded hidden path (file size contained) h = tt
    every_below-AllExcluded hidden path special h = tt
    every_below-AllExcluded hidden path (dir entries) h =
        every_entry-AllExcluded hidden path entries h

    every_entry-AllExcluded :
        (hidden : Bool) (path : RelPath) (es : Entries)
        → excluded_by_component path hidden ≡ true
        → AllExcluded hidden (every_entry opts gitignored path es)
    every_entry-AllExcluded hidden path nil h = tt
    every_entry-AllExcluded hidden path (entry name node rest) h =
        let at = excluded_below path (name ∷ []) hidden h in
        AllExcluded-append hidden _ _
          (all_or_none-AllExcluded hidden (path ++ name ∷ []) _
            (at, every_below-AllExcluded hidden (path ++ name ∷ []) node at))
          (every_entry-AllExcluded hidden path rest h)
