-- ===== src/Resolve/Queries/Rows.antt =====
-- Which rows the queries give: sorting, batches and merging lose and add none.
use rqmd.Common.{
  ℕ, zero, suc, ◌≤◌, ◌≡◌, refl, sym, ap, ap₂, ◌∙◌, Bool, false, ◌&&◌, ◌||◌, Option, List, [], ◌∷◌,
  ◌++◌, arith, ltb, ◌==◌, Bool-cases, inl, inr, length, take, drop, take-append-drop, length-drop,
}
use rqmd.Text.{Bytes}
use rqmd.Resolve.{Document}
use rqmd.Resolve.Queries.{
  document_lt, insert_document, sort_documents, dedup_by_id, filter_documents, in_collections,
  matches_any, find_documents_by_needle_batch, needle_batch, find_batches,
  find_documents_by_needles, list_documents_multi,
}

abbrev pub any_document : (Document → Bool) → List Document → Bool
any_document test [] = false
any_document test (d ∷ docs) = test d || any_document test docs

abbrev pub has_id : ℕ → List Document → Bool
has_id id docs = any_document (λ d. d.id == id) docs

pub any_document-append :
    (test : Document → Bool) (xs ys : List Document)
    → any_document test (xs ++ ys) ≡ any_document test xs || any_document test ys
any_document-append test [] ys = refl
any_document-append test (x ∷ xs) ys = ground (arith, any_document-append test xs ys)

pub any_document-insert_document :
    (test : Document → Bool) (d : Document) (xs : List Document)
    → any_document test (insert_document d xs) ≡ (test d || any_document test xs)
unfolding insert_document
any_document-insert_document test d [] = refl
any_document-insert_document test d (x ∷ xs) = elim (Bool-cases (document_lt x d)) [
  | inl e ↦ rw e (ground (arith, any_document-insert_document test d xs))
  | inr e ↦ rw e refl
]

pub any_document-sort_documents :
    (test : Document → Bool) (xs : List Document)
    → any_document test (sort_documents xs) ≡ any_document test xs
unfolding sort_documents
any_document-sort_documents test [] = refl
any_document-sort_documents test (x ∷ xs) = ground (
  arith,
  any_document-insert_document test x (sort_documents xs),
  any_document-sort_documents test xs,
)

pub any_document-filter_documents :
    (test keep : Document → Bool) (xs : List Document)
    → any_document test (filter_documents keep xs) ≡ any_document (λ d. keep d && test d) xs
unfolding filter_documents
any_document-filter_documents test keep [] = refl
any_document-filter_documents test keep (x ∷ xs) =
    ground (arith, any_document-filter_documents test keep xs)

-- Removing a repeated id loses no id.
pub has_id-dedup_from :
    (id : ℕ) (d : Document) (xs : List Document)
    → has_id id (dedup_by_id (d ∷ xs)) ≡ has_id id (d ∷ xs)
unfolding dedup_by_id
has_id-dedup_from id d [] = refl
has_id-dedup_from id d (x ∷ xs) = elim (Bool-cases (d.id == x.id)) [
  | inl e ↦ rw e (ground (arith, has_id-dedup_from id d xs))
  | inr e ↦ rw e (ground (arith, has_id-dedup_from id x xs))
]

pub has_id-dedup_by_id : (id : ℕ) (xs : List Document) → has_id id (dedup_by_id xs) ≡ has_id id xs
has_id-dedup_by_id id [] = unfold dedup_by_id in refl
has_id-dedup_by_id id (x ∷ xs) = has_id-dedup_from id x xs

pub any_document-or :
    (f g : Document → Bool) (xs : List Document)
    → any_document (λ d. f d || g d) xs ≡ any_document f xs || any_document g xs
any_document-or f g [] = refl
any_document-or f g (x ∷ xs) = ground (arith, any_document-or f g xs)

pub any_document-ext :
    (f g : Document → Bool) (xs : List Document)
    → ((d : Document) → f d ≡ g d)
    → any_document f xs ≡ any_document g xs
any_document-ext f g [] h = refl
any_document-ext f g (x ∷ xs) h = ground (arith, h x, any_document-ext f g xs h)

pub matches_any-append :
    (xs ys : List Bytes) (d : Document)
    → matches_any (xs ++ ys) d ≡ matches_any xs d || matches_any ys d
unfolding matches_any
matches_any-append [] ys d = refl
matches_any-append (x ∷ xs) ys d = ground (arith, matches_any-append xs ys d)

module _ (table : List Document) (collections : Option (List Bytes)) (id : ℕ) where
  -- An active row of the collections with this id that passes a test.
  abbrev pub row : (Document → Bool) → Document → Bool
  row test d = (d.active && test d && in_collections collections d) && d.id == id

  pub has_id-batch :
      (ns : List Bytes)
      → has_id id (find_documents_by_needle_batch table collections ns)
        ≡ any_document (row (matches_any ns)) table
  unfolding find_documents_by_needle_batch
  has_id-batch ns =
      any_document-sort_documents (λ d. d.id == id) (filter_documents _ table)
      ∙ any_document-filter_documents (λ d. d.id == id) _ table

  pub any_document-row :
      (f g : Document → Bool)
      → any_document (row (λ d. f d || g d)) table
        ≡ any_document (row f) table || any_document (row g) table
  any_document-row f g =
      any_document-ext (row (λ d. f d || g d)) (λ d. row f d || row g d) table (λ d. ground arith)
      ∙ any_document-or (row f) (row g) table

  no_row : (xs : List Document) → any_document (row (matches_any [])) xs ≡ false
  unfolding matches_any
  no_row [] = refl
  no_row (x ∷ xs) = ground (arith, no_row xs)

  pub has_id-find_batches :
      (fuel : ℕ) (ns : List Bytes)
      → length ns ≤ fuel
      → has_id id (find_batches fuel table collections ns)
        ≡ any_document (row (matches_any ns)) table
  unfolding find_batches
  has_id-find_batches fuel [] h = sym (no_row table)
  has_id-find_batches zero (n ∷ ns) h = absurd (omega arith)
  has_id-find_batches (suc fuel) (n ∷ ns) h =
      any_document-append (λ d. d.id == id)
        (find_documents_by_needle_batch table collections (take needle_batch (n ∷ ns)))
        (find_batches fuel table collections (drop needle_batch (n ∷ ns)))
      ∙ ap₂ ◌||◌ (has_id-batch (take needle_batch (n ∷ ns))) (
          has_id-find_batches fuel (drop needle_batch (n ∷ ns))
            (omega (arith, length-drop needle_batch (n ∷ ns))))
      ∙ sym (
          any_document-row (matches_any (take needle_batch (n ∷ ns)))
            (matches_any (drop needle_batch (n ∷ ns))))
      ∙ any_document-ext _ (row (matches_any (n ∷ ns))) table (λ d. joined d)
    where
      joined :
          (d : Document)
          → row
              (λ e.
                matches_any (take needle_batch (n ∷ ns)) e
                || matches_any (drop needle_batch (n ∷ ns)) e)
              d
            ≡ row (matches_any (n ∷ ns)) d
      joined d =
          ap (λ r. (d.active && r && in_collections collections d) && d.id == id)
            (sym (matches_any-append (take needle_batch (n ∷ ns)) (drop needle_batch (n ∷ ns)) d)
              ∙ ap (λ ks. matches_any ks d) (take-append-drop needle_batch (n ∷ ns)))

  pub has_id-find_documents_by_needles :
      (ns : List Bytes)
      → has_id id (find_documents_by_needles table collections ns)
        ≡ any_document (row (matches_any ns)) table
  unfolding find_documents_by_needles
  has_id-find_documents_by_needles ns = elim (Bool-cases (ltb needle_batch (length ns))) [
    | inl e ↦ rw e (
        has_id-dedup_by_id id (sort_documents (find_batches (length ns) table collections ns))
        ∙ any_document-sort_documents (λ d. d.id == id)
            (find_batches (length ns) table collections ns)
        ∙ has_id-find_batches (length ns) ns (omega arith))
    | inr e ↦ rw e (has_id-find_batches (length ns) ns (omega arith))
  ]

  pub has_id-globs :
      (test : Document → Bool)
      → has_id id (filter_documents test (list_documents_multi table collections))
        ≡ any_document (row test) table
  unfolding list_documents_multi
  has_id-globs test =
      any_document-filter_documents (λ d. d.id == id) test
        (sort_documents (filter_documents _ table))
      ∙ any_document-sort_documents (λ d. test d && d.id == id) (filter_documents _ table)
      ∙ any_document-filter_documents (λ d. test d && d.id == id) _ table
      ∙ any_document-ext (λ x. (x.active && in_collections collections x) && (test x && x.id == id))
          (row test) table (λ d. ground arith)
