-- ===== src/Resolve/Examples.antt =====
-- Tests of the document lookup, and its theorems at a concrete table.
use rqmd.Common.{ℕ, ◌≡◌, ◌||◌, refl, Bool, true, Option, none, some, List, [], ◌∷◌}
use rqmd.Text.{Bytes, codes, bytes_eq}
use rqmd.Resolve.{Document, new_index, count_needle, matches_needle}
use rqmd.Resolve.Distinct.{count_if}
use rqmd.Resolve.Lockstep.{count_needle-count_if}
use rqmd.Resolve.MultiGet.{
  glob, path, classify, MultiGetReport, resolve_multi_get_report, docid_documents, parse_entries,
}
use rqmd.Resolve.Queries.Rows.{any_document, has_id, row}
use rqmd.Resolve.MultiGet.Union.{wanted, resolve_multi_get_report-union}

abbrev document : ℕ → Bytes → Bytes → Bytes → Document
document id collection file hash = record {
  id = id;
  collection = collection;
  path = file;
  title = [];
  hash = hash;
  active = true;
}

abbrev table : List Document
table =
    document 1 (codes "notes") (codes "b/SYNTAX.md") (codes "aa11")
    ∷ document 2 (codes "notes") (codes "a/syntax.md") (codes "ab22")
    ∷ document 3 (codes "docs") (codes "SYNTAX.md") (codes "cc33")
    ∷ document 4 (codes "docs") (codes "OLD-SYNTAX.md") (codes "dd44")
    ∷ []

-- A glob that matches one path, for the tests.
abbrev literal_glob : Bytes → Option (Bytes → Bool)
literal_glob g = some (λ name. bytes_eq name (codes "docs/OLD-SYNTAX.md"))

classify_scheme : classify (codes "rqmd://rqmd://a.md") ≡ path (codes "a.md")
unfolding classify rqmd.Text.strip_prefix
classify_scheme = refl

classify_glob : classify (codes "rqmd://a?") ≡ glob (codes "a?")
unfolding classify rqmd.Text.strip_prefix
classify_glob = refl

three_matches : count_needle (new_index table) (codes "SYNTAX.md") ≡ 3
unfolding count_needle new_index bytes_eq
three_matches = refl

count_needle-count_if_example :
    count_needle (new_index table) (codes "SYNTAX.md")
    ≡ count_if (matches_needle (codes "SYNTAX.md")) table
count_needle-count_if_example = count_needle-count_if table (codes "SYNTAX.md")

abbrev pattern : Bytes
pattern = codes "SYNTAX.md, #dd,docs/*, nothing.md"

abbrev report : MultiGetReport
report = record {
  documents =
      document 4 (codes "docs") (codes "OLD-SYNTAX.md") (codes "dd44")
      ∷ document 3 (codes "docs") (codes "SYNTAX.md") (codes "cc33")
      ∷ document 2 (codes "notes") (codes "a/syntax.md") (codes "ab22")
      ∷ document 1 (codes "notes") (codes "b/SYNTAX.md") (codes "aa11")
      ∷ [];
  unmatched = codes "nothing.md" ∷ [];
  ambiguous = record { entry = codes "SYNTAX.md"; matches = 3 } ∷ [];
}

resolve_pattern : resolve_multi_get_report literal_glob table none pattern ≡ some report
unfolding resolve_multi_get_report rqmd.Text.Lines.split_on rqmd.Text.trim rqmd.Text.strip_prefix
    bytes_eq count_needle new_index matches_needle rqmd.Text.starts_with
resolve_pattern = refl

resolve_multi_get_report-union_example :
    has_id 3 report.documents
    ≡ has_id 3 (docid_documents table (parse_entries pattern))
      || any_document (row table none 3 (wanted literal_glob (parse_entries pattern))) table
resolve_multi_get_report-union_example =
    resolve_multi_get_report-union literal_glob table none pattern report 3 resolve_pattern
