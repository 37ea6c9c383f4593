-- ===== src/Store/Unlike.antt =====
-- The search for documents like an indexed one does not return that, nor a document twice.
use rqmd.Common.{
  ℕ, suc, ◌≤◌, ◌≡◌, refl, sym, ap, Option, none, some, List, [], ◌∷◌, ◌++◌, arith, length,
  length-take, take, max, Bool-cases, inl, inr, if◌then◌else◌, All, All-take, All-sort_by, tally,
  tally-take, tally-sort_by,
}
use rqmd.Text.{Bytes, bytes_eq, codes}
use rqmd.Text.Equal.{bytes_eq_iff, bytes_eq_sym, bytes_eq_different}
use rqmd.Resolve.{Document}
use rqmd.Store.{Op, pure, Ensures, Ensures-bind, Ensures-weaken, Env}
use rqmd.Store.Picks.{SearchResult}
use rqmd.Store.Scope.{filepath_of}
use rqmd.Store.Rerank.{body_of}
use rqmd.Store.Keyword.{result_from_doc}
use rqmd.Store.Lockstep.{behind_any}
use rqmd.Store.Similar.{
  Best, exceeds, keep_best, add_similar, similar_hits, best_before, sort_best, show_best,
  similar_vids, similar_in, similar_from, similar_to_hash, similar_max_chunks,
}

-- How often a path is a result.
abbrev pub times_shown : {F : Type 0} → Bytes → List (SearchResult F) → ℕ
times_shown p [] = 0
times_shown p (r ∷ rs) =
    if bytes_eq r.file (codes "rqmd://" ++ p) then suc (times_shown p rs) else times_shown p rs

-- How often a path is a key of the map.
abbrev keys : {F : Type 0} → Bytes → List (Best F) → ℕ
keys p = tally (λ b. bytes_eq b.filepath p)

abbrev allowed : Bytes → Bytes → ℕ
allowed source p = if bytes_eq p source then 0 else 1

abbrev IsKeyed : {F : Type 0} → Best F → Type 0
IsKeyed b = b.filepath ≡ filepath_of b.document

-- The map has each path once, and not the source's.
record IsUnlike {F : Type 0} (source : Bytes) (by_doc : List (Best F)) : Type 0 where
  keyed : All IsKeyed by_doc
  once : (p : Bytes) → keys p by_doc ≤ allowed source p

-- At most `limit` results, each path once, and none the source's.
pub record IsSimilar {F : Type 0} (source : Bytes) (limit : ℕ) (rs : List (SearchResult F))
    : Type 0 where
  pub short : length rs ≤ limit
  pub shown_once : (p : Bytes) → times_shown p rs ≤ allowed source p

module _ {W F V X : Type 0} (env : Env W F V X) where
  keys-keep_best :
      (p : Bytes) (b : Best F) (cs : List (Best F))
      → keys p (keep_best env b cs) ≤ max (keys p cs) (if bytes_eq b.filepath p then 1 else 0)
  unfolding keep_best
  keys-keep_best p b [] = ground arith
  keys-keep_best p b (c ∷ cs) = elim (Bool-cases (bytes_eq c.filepath b.filepath)) [
    | inl e ↦
        let q : c.filepath ≡ b.filepath = (bytes_eq_iff c.filepath b.filepath).0 e in
        let k : bytes_eq c.filepath p ≡ bytes_eq b.filepath p = ap (λ s. bytes_eq s p) q in
        rw e (ground arith)
    | inr e ↦ rw e (
        let d = bytes_eq_different c.filepath b.filepath p e in
        let ih = keys-keep_best p b cs in ground arith)
  ]

  keep_best-IsKeyed :
      (b : Best F) (cs : List (Best F))
      → b.filepath ≡ filepath_of b.document
      → All IsKeyed cs
      → All IsKeyed (keep_best env b cs)
  unfolding keep_best
  keep_best-IsKeyed b [] e h = (e, tt)
  keep_best-IsKeyed b (c ∷ cs) e (k, h) = elim (Bool-cases (bytes_eq c.filepath b.filepath)) [
    | inl q ↦
        rw q (elim (Bool-cases (exceeds env b.sim c.sim)) [
          | inl r ↦ rw r (e, h)
          | inr r ↦ rw r (k, h)
        ])
    | inr q ↦ rw q (k, keep_best-IsKeyed b cs e h)
  ]

  add_similar-IsUnlike :
      (source : Bytes) (found : Option (Document × ℕ)) (sim : F) (by_doc : List (Best F))
      → IsUnlike source by_doc
      → IsUnlike source (add_similar env source found sim by_doc)
  unfolding add_similar
  add_similar-IsUnlike source none sim by_doc h = h
  add_similar-IsUnlike source (some (doc, pos)) sim by_doc h =
      elim (Bool-cases (bytes_eq (filepath_of doc) source)) [
        | inl e ↦ rw e h
        | inr e ↦ rw e (record {
          keyed = keep_best-IsKeyed _ by_doc refl h.keyed;
          once = λ p.
              let k =
                keys-keep_best p (record { filepath = filepath_of doc; sim = sim; document = doc })
                  by_doc in
              let o = h.once p in
              let d = bytes_eq_different (filepath_of doc) source p e in
              let s = bytes_eq_sym source p in ground arith;
        })
      ]

  similar_hits-IsUnlike :
      (source : Bytes) (exclusions : X) (hits : List (ℕ × F)) (by_doc : List (Best F))
      → IsUnlike source by_doc
      → Ensures (IsUnlike source) (similar_hits env source exclusions hits by_doc)
  unfolding similar_hits pure
  similar_hits-IsUnlike source exclusions [] by_doc h = λ w. h
  similar_hits-IsUnlike source exclusions ((vid, sim) ∷ hits) by_doc h =
      behind_any (IsUnlike source) (env.doc_chunk_for_vid vid none exclusions) _ (λ found.
        similar_hits-IsUnlike source exclusions hits _
          (add_similar-IsUnlike source found sim by_doc h))

  sort_best-IsUnlike :
      (source : Bytes) (bs : List (Best F))
      → IsUnlike source bs
      → IsUnlike source (sort_best env bs)
  unfolding sort_best
  sort_best-IsUnlike source bs h = record {
    keyed = All-sort_by (best_before env) IsKeyed bs h.keyed;
    once = λ p.
        omega (arith, h.once p, tally-sort_by (best_before env) (λ b. bytes_eq b.filepath p) bs);
  }

  -- What is shown of the map.
  record Shown (bs : List (Best F)) (rs : List (SearchResult F)) : Type 0 where
    same_length : length rs ≡ length bs
    same_times : (p : Bytes) → times_shown p rs ≡ keys p bs

  shown_file :
      (b : Best F) (body p : Bytes) (w : W)
      → b.filepath ≡ filepath_of b.document
      → bytes_eq (result_from_doc env b.document body b.sim w).file (codes "rqmd://" ++ p)
        ≡ bytes_eq b.filepath p
  unfolding result_from_doc bytes_eq
  shown_file b body p w e = ap (λ s. bytes_eq s p) (sym e)

  show_best-Shown : (bs : List (Best F)) → All IsKeyed bs → Ensures (Shown bs) (show_best env bs)
  unfolding show_best pure
  show_best-Shown [] h = λ w. record { same_length = refl; same_times = λ p. refl }
  show_best-Shown (b ∷ bs) (e, h) =
      behind_any (Shown (b ∷ bs)) (env.document_raw b.document.id) _ (λ raw w.
        Ensures-bind (Shown bs) (Shown (b ∷ bs)) (show_best env bs) _ (show_best-Shown bs h)
          (λ rs k w'. record {
            same_length = ap suc k.same_length;
            same_times = λ p. rw (shown_file b (body_of env raw) p w e, k.same_times p) refl;
          })
          w)

  module _ (vids_for_hash : Bytes → Op W (List ℕ)) (get_vector : ℕ → Op W V) where
    similar_vids-IsUnlike :
        (source : Bytes) (exclusions : X) (k : ℕ) (vids : List ℕ) (by_doc : List (Best F))
        → IsUnlike source by_doc
        → Ensures
            (IsUnlike source)
            (similar_vids env vids_for_hash get_vector source exclusions k vids by_doc)
    unfolding similar_vids pure
    similar_vids-IsUnlike source exclusions k [] by_doc h = λ w. h
    similar_vids-IsUnlike source exclusions k (vid ∷ vids) by_doc h =
        behind_any (IsUnlike source) (get_vector vid) _ (λ embedding.
          behind_any (IsUnlike source) (env.hnsw_search embedding k) _ (λ hits.
            Ensures-bind (IsUnlike source) (IsUnlike source) _ _
              (similar_hits-IsUnlike source exclusions hits by_doc h)
              (λ more m. similar_vids-IsUnlike source exclusions k vids more m)))

    Shown-IsSimilar :
        (source : Bytes) (limit : ℕ) (by_doc : List (Best F)) (rs : List (SearchResult F))
        → IsUnlike source by_doc
        → Shown (take limit (sort_best env by_doc)) rs
        → IsSimilar source limit rs
    Shown-IsSimilar source limit by_doc rs h k = record {
      short = omega (arith, k.same_length, length-take limit (sort_best env by_doc));
      shown_once = λ p. omega (
        arith,
        k.same_times p,
        tally-take (λ b. bytes_eq b.filepath p) limit (sort_best env by_doc),
        (sort_best-IsUnlike source by_doc h).once p,
      );
    }

    similar_in-IsSimilar :
        (source : Bytes) (limit : ℕ) (vids : List ℕ)
        → Ensures
            (IsSimilar source limit)
            (similar_in env vids_for_hash get_vector source limit vids)
    unfolding similar_in
    similar_in-IsSimilar source limit vids w =
        behind_any (IsSimilar source limit) env.load_exclusions _
          (λ exclusions.
            Ensures-bind (IsUnlike source) (IsSimilar source limit) _ _
              (similar_vids-IsUnlike source exclusions _ vids []
                (record { keyed = tt; once = λ p. omega arith }))
              (λ by_doc h.
                Ensures-weaken (Shown (take limit (sort_best env by_doc))) (IsSimilar source limit)
                  (show_best env (take limit (sort_best env by_doc)))
                  (show_best-Shown (take limit (sort_best env by_doc)) (
                    All-take IsKeyed limit (sort_best env by_doc)
                      (sort_best-IsUnlike source by_doc h).keyed))
                  (λ rs k. Shown-IsSimilar source limit by_doc rs h k)))
          w

    similar_from-IsSimilar :
        (source : Bytes) (limit : ℕ) (vids : List ℕ)
        → Ensures
            (IsSimilar source limit)
            (similar_from env vids_for_hash get_vector source limit vids)
    unfolding similar_from
    similar_from-IsSimilar source limit [] w = tt
    similar_from-IsSimilar source limit (vid ∷ vids) w =
        similar_in-IsSimilar source limit (take similar_max_chunks (vid ∷ vids)) w

-- Whatever the parts of the store return, the search for documents like an indexed one, if it does not fail, returns no more than the limit, no path twice, and never the path it starts from.
pub similar_to_hash-IsSimilar :
    {W F V X : Type 0} (env : Env W F V X) (vids_for_hash : Bytes → Op W (List ℕ))
    (get_vector : ℕ → Op W V) (hash collection path : Bytes) (limit : ℕ)
    → Ensures
        (IsSimilar (collection ++ b'/' ∷ path) limit)
        (similar_to_hash env vids_for_hash get_vector hash collection path limit)
unfolding similar_to_hash
similar_to_hash-IsSimilar env vids_for_hash get_vector hash collection path limit =
    behind_any (IsSimilar (collection ++ b'/' ∷ path) limit) (vids_for_hash hash) _
      (similar_from-IsSimilar env vids_for_hash get_vector (collection ++ b'/' ∷ path) limit)
