-- ===== src/Resolve/MultiGet.antt =====
-- resolve.rs: `resolve_multi_get_report`. `compile_glob` stands for the `globset` crate.
pub mod Union
use mathlib.Core.Option
use rqmd.Common.{
  ℕ, zero, suc, ◌+◌, Bool, true, false, not, ◌&&◌, ◌||◌, Option, none, some, List, [], ◌∷◌, ◌++◌,
  map, ltb, leb, ◌==◌, if◌then◌else◌, length, take, drop,
}
use rqmd.Text.{
  Bytes, bytes_eq, bytes_lt, contains, codes, starts_with, strip_prefix, is_empty, trim,
}
use rqmd.Text.Lines.{split_on}
use rqmd.Resolve.{
  Document, NeedleIndex, full_path, lowercase, matches_needle, new_index, count_needle,
}
use rqmd.Resolve.Queries.{
  document_lt, insert_document, sort_documents, dedup_by_id, filter_documents, in_collections,
  matches_any, find_documents_by_needle_batch, needle_batch, find_batches,
  find_documents_by_needles, list_documents_multi, first_document, get_document_by_docid_prefix,
}

-- `Entry`
pub data Entry : Type 0 where
  docid : Bytes → Entry
  glob : Bytes → Entry
  path : Bytes → Entry

-- entry.contains(['*', '?', '[', '{'])
unfoldable pub has_wildcard : Bytes → Bool
has_wildcard [] = false
has_wildcard (b ∷ s) = b == b'*' || b == b'?' || b == b'[' || b == b'{' || has_wildcard s

-- `trim_start_matches("rqmd://")`; every prefix is a byte at least, so the length is fuel enough.
unfoldable pub trim_scheme : ℕ → Bytes → Bytes
trim_scheme zero s = s
trim_scheme (suc fuel) s = elim (strip_prefix s (codes "rqmd://")) [
  | none ↦ s
  | some rest ↦ trim_scheme fuel rest
]

unfoldable pub classify : Bytes → Entry
unfolding has_wildcard trim_scheme
classify entry = elim (strip_prefix entry (codes "#")) [
  | some hex ↦ docid hex
  | none ↦
      if has_wildcard entry
      then glob (trim_scheme (length entry) entry)
      else path (trim_scheme (length entry) entry)
]

unfoldable pub classify_all : List Bytes → List (Bytes × Entry)
unfolding classify
classify_all [] = []
classify_all (p ∷ ps) =
    let rest = classify_all ps in
    if is_empty (trim p) then rest else (trim p, classify (trim p)) ∷ rest

unfoldable pub parse_entries : Bytes → List (Bytes × Entry)
unfolding classify_all
parse_entries pattern = classify_all (split_on b',' pattern)

unfoldable pub needles_of : List (Bytes × Entry) → List Bytes
needles_of [] = []
needles_of ((w, docid s) ∷ es) = needles_of es
needles_of ((w, glob s) ∷ es) = needles_of es
needles_of ((w, path s) ∷ es) = s ∷ needles_of es

unfoldable pub globs_of : List (Bytes × Entry) → List Bytes
globs_of [] = []
globs_of ((w, docid s) ∷ es) = globs_of es
globs_of ((w, glob s) ∷ es) = s ∷ globs_of es
globs_of ((w, path s) ∷ es) = globs_of es

-- The first of every repeated needle; `seen` holds those before.
unfoldable pub distinct_needles : List Bytes → List Bytes → List Bytes
unfolding contains
distinct_needles seen [] = []
distinct_needles seen (n ∷ ns) =
    let fresh = n ∷ distinct_needles (n ∷ seen) ns in
    let old = distinct_needles seen ns in if contains n seen then old else fresh

-- The loop over the docid entries.
unfoldable pub docid_documents : List Document → List (Bytes × Entry) → List Document
unfolding get_document_by_docid_prefix
docid_documents table [] = []
docid_documents table ((w, docid hex) ∷ es) = elim (get_document_by_docid_prefix table hex) [
  | none ↦ docid_documents table es
  | some doc ↦ doc ∷ docid_documents table es
]
docid_documents table ((w, glob s) ∷ es) = docid_documents table es
docid_documents table ((w, path s) ∷ es) = docid_documents table es

pub record AmbiguousEntry : Type 0 where
  pub entry : Bytes
  pub matches : ℕ

pub record MultiGetReport : Type 0 where
  pub documents : List Document
  pub unmatched : List Bytes
  pub ambiguous : List AmbiguousEntry

unfoldable pub is_path : Entry → Bool
is_path (docid s) = false
is_path (glob s) = false
is_path (path s) = true

-- The loop over the entries and their counts; `seen` holds those reported.
unfoldable pub report_entries :
    (Entry → ℕ) → List Bytes → List (Bytes × Entry) → List Document → MultiGetReport
unfolding contains is_path
report_entries count seen [] docs = record { documents = docs; unmatched = []; ambiguous = [] }
report_entries count seen ((written, entry) ∷ es) docs =
    let skipped = report_entries count seen es docs in
    let reported = report_entries count (written ∷ seen) es docs in
    if (count entry == 0 || is_path entry && ltb 1 (count entry)) && not (contains written seen)
    then (if count entry == 0
        then record reported { unmatched = written ∷ reported.unmatched }
        else record reported {
          ambiguous = record { entry = written; matches = count entry } ∷ reported.ambiguous;
        })
    else skipped

abbrev pub max_distinct_path_entries : ℕ
max_distinct_path_entries = 5000

-- `none` is a glob that does not compile.
module _ (compile_glob : Bytes → Option (Bytes → Bool)) where
  unfoldable pub compile_all : List Bytes → Option (List (Bytes → Bool))
  compile_all [] = some []
  compile_all (g ∷ gs) = elim (compile_glob g) [
    | none ↦ none
    | some matcher ↦ Option.map (λ ms. matcher ∷ ms) (compile_all gs)
  ]

  unfoldable pub any_match : List (Bytes → Bool) → Document → Bool
  any_match [] doc = false
  any_match (m ∷ ms) doc = m (full_path doc) || any_match ms doc

  unfoldable pub count_glob : Bytes → List Document → ℕ
  count_glob g [] = 0
  count_glob g (d ∷ docs) = elim (compile_glob g) [
    | none ↦ 0
    | some matcher ↦ if matcher (full_path d) then suc (count_glob g docs) else count_glob g docs
  ]

  -- The number of documents an entry matched.
  unfoldable pub count_entry : List Document → Option (List Bytes) → List Document → Entry → ℕ
  unfolding count_glob get_document_by_docid_prefix list_documents_multi
  count_entry table collections matched (docid hex) =
      elim (get_document_by_docid_prefix table hex) [ none ↦ 0 | some doc ↦ 1 ]
  count_entry table collections matched (path needle) = count_needle (new_index matched) needle
  count_entry table collections matched (glob g) =
      count_glob g (list_documents_multi table collections)

  -- The documents, before they are sorted.
  unfoldable pub gather :
      List Document
      → Option (List Bytes)
      → List (Bytes × Entry)
      → List Document
      → List (Bytes → Bool)
      → List Document
  unfolding docid_documents any_match list_documents_multi
  gather table collections entries matched matchers =
      docid_documents table entries
      ++ matched
      ++ filter_documents (any_match matchers) (list_documents_multi table collections)

  -- `none` is an error: too many distinct path entries, or a glob that does not compile.
  unfoldable pub resolve_multi_get_report :
      List Document → Option (List Bytes) → Bytes → Option MultiGetReport
  unfolding gather report_entries count_entry compile_all distinct_needles needles_of globs_of
      parse_entries find_documents_by_needles
  resolve_multi_get_report table collections pattern =
      let entries = parse_entries pattern in
      let distinct = distinct_needles [] (needles_of entries) in
      let matched = find_documents_by_needles table collections distinct in
      if ltb max_distinct_path_entries (length distinct)
      then none
      else Option.map
          (λ matchers.
            report_entries (count_entry table collections matched) [] entries
              (dedup_by_id (sort_documents (gather table collections entries matched matchers))))
          (compile_all (globs_of entries))

  unfoldable pub resolve_multi_get :
      List Document → Option (List Bytes) → Bytes → Option (List Document)
  unfolding resolve_multi_get_report
  resolve_multi_get table collections pattern =
      Option.map (λ (r : MultiGetReport). r.documents)
        (resolve_multi_get_report table collections pattern)
