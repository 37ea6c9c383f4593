-- ===== src/EmbedExclusion/Complete.antt =====
-- The excluded documents are those that have a reason.
use rqmd.Common.{
  ℕ, suc, ◌+◌, ◌≡◌, refl, sym, ap, Bool, true, false, not, ◌&&◌, ◌||◌, Option, none, some, List, [],
  ◌∷◌, arith, ltb, ◌==◌, if◌then◌else◌, Bool-cases, inl, inr,
}
use rqmd.Text.{Bytes, bytes_eq, contains}
use rqmd.EmbedExclusion.{
  EmbedExclusions, ExclusionReason, rule, size_cap, get_rules, reason, ContentRow, ExcludedDocs,
  names_of, selects, count_reason, count_rows_excluded, excluded_docs, is_none,
}

abbrev pub has_number : ℕ → List ℕ → Bool
has_number id [] = false
has_number id (n ∷ ns) = n == id || has_number id ns

-- An active document with text that has a reason to be left out.
abbrev pub is_excluded : EmbedExclusions → ContentRow → Bool
is_excluded exclusions row =
    row.active
    && ltb 0 row.bytes
    && not (is_none (reason exclusions row.collection row.path row.bytes))

abbrev pub any_excluded : EmbedExclusions → ℕ → List ContentRow → Bool
any_excluded exclusions id [] = false
any_excluded exclusions id (row ∷ rows) =
    is_excluded exclusions row && row.id == id || any_excluded exclusions id rows

abbrev pub count_excluded : EmbedExclusions → List ContentRow → ℕ
count_excluded exclusions [] = 0
count_excluded exclusions (row ∷ rows) =
    if is_excluded exclusions row
    then suc (count_excluded exclusions rows)
    else count_excluded exclusions rows

no_rules :
    (name : Bytes) (exclusions : EmbedExclusions)
    → contains name (names_of exclusions) ≡ false
    → get_rules name exclusions ≡ none
unfolding contains names_of get_rules
no_rules name [] h = refl
no_rules name ((n, r) ∷ entries) h = elim (Bool-cases (bytes_eq n name)) [
  | inl e ↦ absurd (ground arith)
  | inr e ↦ rw e (no_rules name entries (ground arith))
]

-- A collection without rules has no reason.
no_reason :
    (exclusions : EmbedExclusions) (row : ContentRow)
    → contains row.collection (names_of exclusions) ≡ false
    → reason exclusions row.collection row.path row.bytes ≡ none
unfolding reason
no_reason exclusions row h = rw (no_rules row.collection exclusions h, reason) refl

selects-is_excluded :
    (exclusions : EmbedExclusions) (row : ContentRow)
    → (selects exclusions row
        && not (is_none (reason exclusions row.collection row.path row.bytes)))
      ≡ is_excluded exclusions row
unfolding selects
selects-is_excluded exclusions row =
    elim (Bool-cases (contains row.collection (names_of exclusions))) [
      | inl e ↦ ground arith
      | inr e ↦
          let n = ap is_none (no_reason exclusions row e) in
          let t : is_none {A = ExclusionReason} none ≡ true = unfold is_none in refl in ground arith
    ]

-- What the count adds to.
abbrev Adds : EmbedExclusions → ℕ → List ContentRow → ExcludedDocs → ExcludedDocs → Type 0
Adds exclusions id rows out result =
    (has_number id result.ids ≡ (any_excluded exclusions id rows || has_number id out.ids))
    × (result.by_rule + result.by_size
        ≡ count_excluded exclusions rows + (out.by_rule + out.by_size))

Adds-counted :
    (exclusions : EmbedExclusions) (id : ℕ) (row : ContentRow) (rows : List ContentRow)
    (out result : ExcludedDocs) (r : Option ExclusionReason)
    → is_excluded exclusions row ≡ not (is_none r)
    → Adds exclusions id rows (count_reason r row.id out) result
    → Adds exclusions id (row ∷ rows) out result
unfolding count_reason is_none
Adds-counted exclusions id row rows out result none e (h, k) = rw e (ground arith, omega arith)
Adds-counted exclusions id row rows out result (some rule) e (h, k) =
    rw e (ground arith, omega arith)
Adds-counted exclusions id row rows out result (some size_cap) e (h, k) =
    rw e (ground arith, omega arith)

Adds-count_rows_excluded :
    (exclusions : EmbedExclusions) (id : ℕ) (rows : List ContentRow) (out : ExcludedDocs)
    → Adds exclusions id rows out (count_rows_excluded exclusions rows out)
unfolding count_rows_excluded
Adds-count_rows_excluded exclusions id [] out = (refl, omega arith)
Adds-count_rows_excluded exclusions id (row ∷ rows) out =
    let split = selects-is_excluded exclusions row in
    let r = reason exclusions row.collection row.path row.bytes in
    elim (Bool-cases (selects exclusions row)) [
      | inl e ↦
          let x : is_excluded exclusions row ≡ not (is_none r) = ground arith in
          rw e (
            Adds-counted exclusions id row rows out _ r x
              (Adds-count_rows_excluded exclusions id rows (count_reason r row.id out)))
      | inr e ↦
          let x : is_excluded exclusions row ≡ false = ground arith in
          let (h, k) = Adds-count_rows_excluded exclusions id rows out in rw (e, x) (h, k)
    ]

not_excluded : (row : ContentRow) → is_excluded [] row ≡ false
unfolding reason get_rules is_none
not_excluded row = ground arith

no_excluded : (id : ℕ) (rows : List ContentRow) → any_excluded [] id rows ≡ false
no_excluded id [] = refl
no_excluded id (row ∷ rows) = rw (not_excluded row) (no_excluded id rows)

none_counted : (rows : List ContentRow) → count_excluded [] rows ≡ 0
none_counted [] = refl
none_counted (row ∷ rows) = rw (not_excluded row) (none_counted rows)

-- For every table of documents and all rules, a document's id is among the excluded ones exactly if
-- an active document with that id and with text has a reason to be left out, whether or not its
-- collection has rules, and the counts by rule and by size add up to the number of those documents.
pub excluded_docs_lem :
    (table : List ContentRow) (exclusions : EmbedExclusions) (id : ℕ)
    → (has_number id (excluded_docs table exclusions).ids ≡ any_excluded exclusions id table)
      × ((excluded_docs table exclusions).by_rule + (excluded_docs table exclusions).by_size
          ≡ count_excluded exclusions table)
excluded_docs_lem table [] id =
    unfold excluded_docs in (sym (no_excluded id table), sym (none_counted table))
excluded_docs_lem table (e ∷ es) id =
    let (h, k) =
      Adds-count_rows_excluded (e ∷ es) id table (record { ids = []; by_rule = 0; by_size = 0 }) in
    unfold excluded_docs in (ground arith, omega arith)
