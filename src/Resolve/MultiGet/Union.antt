-- ===== src/Resolve/MultiGet/Union.antt =====
-- The documents of a `multi-get` are the union of what its entries match.
use rqmd.Common.{
  ℕ, ◌≡◌, refl, sym, ap, ap₂, ◌∙◌, Bool, true, false, not, ◌&&◌, ◌||◌, Option, none, some,
  Option-cases, List, [], ◌∷◌, ◌++◌, arith, ltb, ◌==◌, Bool-cases, inl, inr, length,
}
use rqmd.Text.{Bytes, bytes_eq, contains}
use rqmd.Text.Equal.{bytes_eq_iff}
use rqmd.Resolve.{Document, full_path, matches_needle}
use rqmd.Resolve.Queries.{
  sort_documents, dedup_by_id, filter_documents, in_collections, matches_any,
  find_documents_by_needles, list_documents_multi,
}
use rqmd.Resolve.Queries.Rows.{
  any_document, has_id, any_document-append, any_document-sort_documents, has_id-dedup_by_id,
  any_document-ext, row, any_document-row, has_id-find_documents_by_needles, has_id-globs,
}
use rqmd.Resolve.MultiGet.{
  Entry, docid, glob, path, MultiGetReport, is_path, needles_of, globs_of, distinct_needles,
  docid_documents, report_entries, compile_all, any_match, gather, resolve_multi_get_report,
  parse_entries, count_entry,
}

contains-matches :
    (n : Bytes) (seen : List Bytes) (d : Document)
    → contains n seen ≡ true
    → matches_needle n d ≡ true
    → matches_any seen d ≡ true
unfolding contains matches_any
contains-matches n [] d h k = absurd (cc)
contains-matches n (s ∷ seen) d h k = elim (Bool-cases (bytes_eq s n)) [
  | inl e ↦
      let q : matches_needle s d ≡ matches_needle n d =
        ap (λ r. matches_needle r d) ((bytes_eq_iff s n).0 e) in
      ground arith
  | inr e ↦
      let rest : matches_any seen d ≡ true = contains-matches n seen d (ground arith) k in
      ground arith
]

-- Leaving out a repeated needle loses no match.
distinct-matches :
    (seen ns : List Bytes) (d : Document)
    → (matches_any (distinct_needles seen ns) d || matches_any seen d)
      ≡ (matches_any ns d || matches_any seen d)
unfolding distinct_needles matches_any
distinct-matches seen [] d = refl
distinct-matches seen (n ∷ ns) d = elim (Bool-cases (contains n seen)) [
  | inl e ↦ rw e (elim (Bool-cases (matches_needle n d)) [
    | inl m ↦ let s : matches_any seen d ≡ true = contains-matches n seen d e m in ground arith
    | inr m ↦ rw m (distinct-matches seen ns d)
  ])
  | inr e ↦ rw e (ground (arith, distinct-matches (n ∷ seen) ns d))
]

module _ (table : List Document) (collections : Option (List Bytes)) (id : ℕ) where
  has_id-distinct :
      (ns : List Bytes)
      → has_id id (find_documents_by_needles table collections (distinct_needles [] ns))
        ≡ any_document (row table collections id (matches_any ns)) table
  has_id-distinct ns =
      has_id-find_documents_by_needles table collections id (distinct_needles [] ns)
      ∙ any_document-ext (row table collections id (matches_any (distinct_needles [] ns)))
          (row table collections id (matches_any ns)) table (λ d. same d (distinct-matches [] ns d))
    where
      same :
          (d : Document)
          → (matches_any (distinct_needles [] ns) d || matches_any [] d)
            ≡ (matches_any ns d || matches_any [] d)
          → row table collections id (matches_any (distinct_needles [] ns)) d
            ≡ row table collections id (matches_any ns) d
      same d h = let e : matches_any [] d ≡ false = unfold matches_any in refl in ground arith

module _ (compile_glob : Bytes → Option (Bytes → Bool)) where
  abbrev glob_matches : Option (Bytes → Bool) → Document → Bool
  glob_matches none d = false
  glob_matches (some matcher) d = matcher (full_path d)

  -- Whether a path or glob entry matches a document.
  abbrev pub wanted : List (Bytes × Entry) → Document → Bool
  wanted [] d = false
  wanted ((w, docid s) ∷ es) d = wanted es d
  wanted ((w, glob s) ∷ es) d = glob_matches (compile_glob s) d || wanted es d
  wanted ((w, path s) ∷ es) d = matches_needle s d || wanted es d

  some-injective : {A : Type 0} {a b : A} → some a ≡ some b → a ≡ b
  some-injective e = cc

  wanted_lem :
      (es : List (Bytes × Entry)) (ms : List (Bytes → Bool))
      → compile_all compile_glob (globs_of es) ≡ some ms
      → (d : Document)
      → (matches_any (needles_of es) d || any_match compile_glob ms d) ≡ wanted es d
  unfolding compile_all globs_of needles_of any_match matches_any
  wanted_lem [] ms h d = ap (λ ks. any_match compile_glob ks d) (sym (some-injective h))
  wanted_lem ((w, docid s) ∷ es) ms h d = wanted_lem es ms h d
  wanted_lem ((w, path s) ∷ es) ms h d = ground (arith, wanted_lem es ms h d)
  wanted_lem ((w, glob s) ∷ es) ms h d = elim (Option-cases (compile_glob s)) [
    | inl e ↦ absurd (let k = rw e at h in cc)
    | inr (m, e) ↦ elim (Option-cases (compile_all compile_glob (globs_of es))) [
      | inl f ↦ absurd (let k = rw (e, f) at h in cc)
      | inr (ks, f) ↦
          let q : m ∷ ks ≡ ms = some-injective (rw (e, f) at h) in
          rw (e, sym q) (ground (arith, wanted_lem es ks f d))
    ]
  ]

  documents-report_entries :
      (count : Entry → ℕ) (seen : List Bytes) (es : List (Bytes × Entry)) (docs : List Document)
      → (report_entries count seen es docs).documents ≡ docs
  unfolding report_entries
  documents-report_entries count seen [] docs = refl
  documents-report_entries count seen ((w, e) ∷ es) docs =
      elim (Bool-cases ((count e == 0 || is_path e && ltb 1 (count e)) && not (contains w seen))) [
        | inl c ↦ rw c (elim (Bool-cases (count e == 0)) [
          | inl z ↦ rw z (documents-report_entries count (w ∷ seen) es docs)
          | inr z ↦ rw z (documents-report_entries count (w ∷ seen) es docs)
        ])
        | inr c ↦ rw c (documents-report_entries count seen es docs)
      ]

  or_assoc : (a b c : Bool) → ((a || b) || c) ≡ (a || (b || c))
  or_assoc a b c = ground arith

  has_id-gather :
      (table : List Document) (collections : Option (List Bytes)) (id : ℕ)
      (es : List (Bytes × Entry)) (ms : List (Bytes → Bool))
      → compile_all compile_glob (globs_of es) ≡ some ms
      → has_id id (
          gather compile_glob table collections es
            (find_documents_by_needles table collections (distinct_needles [] (needles_of es)))
            ms)
        ≡ has_id id (docid_documents table es)
          || any_document (row table collections id (wanted es)) table
  unfolding gather
  has_id-gather table collections id es ms h =
      let found =
        find_documents_by_needles table collections (distinct_needles [] (needles_of es)) in
      let listed =
        filter_documents (any_match compile_glob ms) (list_documents_multi table collections) in
      any_document-append (λ d. d.id == id) (docid_documents table es ++ found) listed
      ∙ ap (λ r. r || has_id id listed)
          (any_document-append (λ d. d.id == id) (docid_documents table es) found)
      ∙ or_assoc (has_id id (docid_documents table es)) (has_id id found) (has_id id listed)
      ∙ ap (λ r. has_id id (docid_documents table es) || r)
          (ap₂ ◌||◌ (has_id-distinct table collections id (needles_of es))
              (has_id-globs table collections id (any_match compile_glob ms))
            ∙ sym (
                any_document-row table collections id (matches_any (needles_of es))
                  (any_match compile_glob ms))
            ∙ any_document-ext _ (row table collections id (wanted es)) table (λ d.
              ap (λ r. (d.active && r && in_collections collections d) && d.id == id)
                (wanted_lem es ms h d)))

-- If a pattern resolves, then a document's id is among the result exactly if a docid entry stands for
-- that document, or an active row with the id in the selected collections matches a path or a glob
-- entry: repeats, batches, sorting and merging lose nothing and add nothing.
pub resolve_multi_get_report-union :
    (compile_glob : Bytes → Option (Bytes → Bool)) (table : List Document)
    (collections : Option (List Bytes)) (pattern : Bytes) (report : MultiGetReport) (id : ℕ)
    → resolve_multi_get_report compile_glob table collections pattern ≡ some report
    → has_id id report.documents
      ≡ has_id id (docid_documents table (parse_entries pattern))
        || any_document
            (row table collections id (wanted compile_glob (parse_entries pattern)))
            table
unfolding resolve_multi_get_report
resolve_multi_get_report-union compile_glob table collections pattern report id h =
    let es = parse_entries pattern in
    let distinct = distinct_needles [] (needles_of es) in
    elim (Bool-cases (ltb 5000 (length distinct))) [
      | inl e ↦ absurd (let k = rw e at h in cc)
      | inr e ↦ elim (Option-cases (compile_all compile_glob (globs_of es))) [
        | inl f ↦ absurd (let k = rw (e, f) at h in cc)
        | inr (ms, f) ↦
            let found = find_documents_by_needles table collections distinct in
            let docs = gather compile_glob table collections es found ms in
            let q = some-injective compile_glob (rw (e, f) at h) in
            ap (λ (r : MultiGetReport). has_id id r.documents) (sym q)
            ∙ ap (has_id id) (
                documents-report_entries compile_glob
                  (count_entry compile_glob table collections found) [] es
                  (dedup_by_id (sort_documents docs)))
            ∙ has_id-dedup_by_id id (sort_documents docs)
            ∙ any_document-sort_documents (λ d. d.id == id) docs
            ∙ has_id-gather compile_glob table collections id es ms f
      ]
    ]
