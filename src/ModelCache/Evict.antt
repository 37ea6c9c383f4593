-- ===== src/ModelCache/Evict.antt =====
-- Deleting the victims leaves no more rows than the limit.
use rqmd.Common.{
  ℕ, ◌≤◌, ◌≡◌, refl, ap, ◌∙◌, Bool, true, false, ◌&&◌, List, [], ◌∷◌, ◌++◌, arith, ◌==◌,
  if◌then◌else◌, Bool-cases, inl, inr,
}
use rqmd.ModelCache.{Row, Cache, Victim, tag, delete_row, delete_victim, delete_victims}

-- Whether two entries name the same row.
abbrev pub same_row : Victim → Victim → Bool
same_row v w = v.table == w.table && v.rowid == w.rowid

-- The entries of a list that name another row than `v`.
abbrev pub others : Victim → List Victim → List Victim
others v [] = []
others v (w ∷ ws) = if same_row w v then others v ws else w ∷ others v ws

abbrev pub without : List Victim → List Victim → List Victim
without [] ws = ws
without (v ∷ vs) ws = without vs (others v ws)

others-append :
    (v : Victim) (xs ys : List Victim) → others v (xs ++ ys) ≡ others v xs ++ others v ys
others-append v [] ys = refl
others-append v (x ∷ xs) ys = ground (arith, others-append v xs ys)

others-nothing :
    (v : Victim) {A : Type 0} (n : ℕ) (rows : List (Row A))
    → (n == v.table) ≡ false
    → others v (tag n rows) ≡ tag n rows
unfolding tag
others-nothing v n [] h = refl
others-nothing v n (r ∷ rows) h = ground (arith, others-nothing v n rows h)

others-tag :
    (v : Victim) {A : Type 0} (n : ℕ) (rows : List (Row A))
    → (n == v.table) ≡ true
    → tag n (delete_row v.rowid rows) ≡ others v (tag n rows)
unfolding tag delete_row
others-tag v n [] h = refl
others-tag v n (r ∷ rows) h = ground (arith, others-tag v n rows h)

-- All entries of a file, as the query lists them.
abbrev pub entries : Cache → List Victim
entries c = tag 0 c.expansion ++ tag 1 c.rerank

-- The table of every victim is one of the two.
abbrev pub InTables : List Victim → Type 0
InTables [] = Unit
InTables (v ∷ vs) = (v.table ≤ 1) × InTables vs

entries-delete_victim :
    (v : Victim) (c : Cache) → v.table ≤ 1 → entries (delete_victim v c) ≡ others v (entries c)
unfolding delete_victim
entries-delete_victim v c h = elim (Bool-cases (v.table == 0)) [
  | inl e ↦ rw (
    e,
    others-append v (tag 0 c.expansion) (tag 1 c.rerank),
    others-nothing v 1 c.rerank (ground arith),
    others-tag v 0 c.expansion (ground arith),
  )
  | inr e ↦ rw (
    e,
    others-append v (tag 0 c.expansion) (tag 1 c.rerank),
    others-nothing v 0 c.expansion (ground arith),
    others-tag v 1 c.rerank (ground arith),
  )
]

pub entries-delete_victims :
    (vs : List Victim) (c : Cache)
    → InTables vs
    → entries (delete_victims vs c) ≡ without vs (entries c)
unfolding delete_victims
entries-delete_victims [] c h = refl
entries-delete_victims (v ∷ vs) c (h, hs) =
    entries-delete_victims vs (delete_victim v c) hs ∙ ap (without vs) (entries-delete_victim v c h)
