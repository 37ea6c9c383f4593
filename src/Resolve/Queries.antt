-- ===== src/Resolve/Queries.antt =====
-- The queries of crates/rqmd-core/src/db.rs that `multi-get` runs, over the rows of the table `documents`,
-- and the sorting of documents. SQLite's own failures are left out.
pub mod Rows
use mathlib.Core.Option
use rqmd.Common.{
  ℕ, zero, suc, ◌+◌, Bool, true, false, not, ◌&&◌, ◌||◌, Option, none, some, List, [], ◌∷◌, ◌++◌,
  map, ltb, leb, ◌==◌, if◌then◌else◌, length, take, drop,
}
use rqmd.Text.{
  Bytes, bytes_eq, bytes_lt, contains, codes, starts_with, strip_prefix, is_empty, trim,
}
use rqmd.Text.Lines.{split_on}
use rqmd.Resolve.{
  Document, NeedleIndex, full_path, lowercase, matches_needle, new_index, count_needle,
}

-- ORDER BY collection, path
unfoldable pub document_lt : Document → Document → Bool
unfolding bytes_lt
document_lt a b =
    bytes_lt a.collection b.collection
    || bytes_eq a.collection b.collection && bytes_lt a.path b.path

unfoldable pub insert_document : Document → List Document → List Document
unfolding document_lt
insert_document doc [] = doc ∷ []
insert_document doc (d ∷ docs) =
    if document_lt d doc then d ∷ insert_document doc docs else doc ∷ d ∷ docs

-- Stable, as `sort_by` is.
unfoldable pub sort_documents : List Document → List Document
unfolding insert_document
sort_documents [] = []
sort_documents (doc ∷ docs) = insert_document doc (sort_documents docs)

-- `docs.dedup_by_key(|d| d.id)`
unfoldable pub dedup_by_id : List Document → List Document
dedup_by_id [] = []
dedup_by_id (d ∷ []) = d ∷ []
dedup_by_id (d ∷ e ∷ docs) =
    let same = dedup_by_id (d ∷ docs) in
    let other = dedup_by_id (e ∷ docs) in if d.id == e.id then same else d ∷ other

unfoldable pub filter_documents : (Document → Bool) → List Document → List Document
filter_documents test [] = []
filter_documents test (d ∷ docs) =
    let rest = filter_documents test docs in if test d then d ∷ rest else rest

-- AND collection IN (...), which is left out for no collections
unfoldable pub in_collections : Option (List Bytes) → Document → Bool
unfolding contains
in_collections none doc = true
in_collections (some []) doc = true
in_collections (some (c ∷ cs)) doc = contains doc.collection (c ∷ cs)

unfoldable pub matches_any : List Bytes → Document → Bool
matches_any [] doc = false
matches_any (n ∷ ns) doc = matches_needle n doc || matches_any ns doc

unfoldable pub find_documents_by_needle_batch :
    List Document → Option (List Bytes) → List Bytes → List Document
unfolding filter_documents sort_documents matches_any in_collections
find_documents_by_needle_batch table collections needles = sort_documents (
    filter_documents (λ d. d.active && matches_any needles d && in_collections collections d) table)

abbrev pub needle_batch : ℕ
needle_batch = 250

-- The loop over the batches, with the number of needles as fuel.
unfoldable pub find_batches : ℕ → List Document → Option (List Bytes) → List Bytes → List Document
unfolding find_documents_by_needle_batch
find_batches fuel table collections [] = []
find_batches zero table collections (n ∷ ns) = []
find_batches (suc fuel) table collections (n ∷ ns) =
    find_documents_by_needle_batch table collections (take needle_batch (n ∷ ns))
    ++ find_batches fuel table collections (drop needle_batch (n ∷ ns))

-- One batch is in order already; several are merged.
unfoldable pub find_documents_by_needles :
    List Document → Option (List Bytes) → List Bytes → List Document
unfolding find_batches sort_documents dedup_by_id
find_documents_by_needles table collections needles =
    let rows = find_batches (length needles) table collections needles in
    if ltb needle_batch (length needles) then dedup_by_id (sort_documents rows) else rows

unfoldable pub list_documents_multi : List Document → Option (List Bytes) → List Document
unfolding filter_documents sort_documents in_collections
list_documents_multi table collections =
    sort_documents (filter_documents (λ d. d.active && in_collections collections d) table)

abbrev pub first_document : List Document → Option Document
first_document [] = none
first_document (d ∷ docs) = some d

-- hash LIKE docid || '%', of the active rows the first
unfoldable pub get_document_by_docid_prefix : List Document → Bytes → Option Document
unfolding filter_documents sort_documents
get_document_by_docid_prefix table docid =
    if is_empty docid
    then none
    else first_document (
        sort_documents (
          filter_documents (λ d. starts_with (lowercase d.hash) (lowercase docid) && d.active)
            table))
