-- ===== src/Store/Lockstep.antt =====
-- The ranked lists of a query and what they were searched by stay in step.
use rqmd.Common.{
  ℕ, suc, ◌≡◌, refl, Bool, not, ◌&&◌, Option, List, [], ◌∷◌, ◌++◌, arith, length, length-append,
  Bool-cases, Option-cases, inl, inr,
}
use rqmd.Text.{Bytes, codes, trim}
use rqmd.Text.Lines.{lines}
use rqmd.Query.{QueryType, original, lex, vec, hyde, SubQuery, ParsedQuery}
use rqmd.Rrf.{RankedResult}
use rqmd.Store.{
  Result, done, timed_out, failed, Op, pure, ◌>>=◌, Holds, Ensures, Ensures-bind, Scope, Env,
}
use rqmd.Store.Retrieve.{
  Ranked, no_lists, push_list, extend, fts_hits_to_ranked, ExpansionLine, expansion_line,
  weight_type, lex_list, vec_list, run_subquery, subquery_list, line_list, run_subqueries,
  is_wanted, run_line, run_lines, parse_and_run_expansion, is_strong, after_expansion, expand_query,
  build_expansion_prompt, expand_mode, retrieve_by, retrieve_ranked_lists, expand_text_of,
}
use rqmd.Store.Scope.{fts_scoped, search_vec_scoped}

abbrev NoneEmpty : {F : Type 0} → List (List (RankedResult F)) → Type 0
NoneEmpty [] = Unit
NoneEmpty ([] ∷ ls) = ⊥
NoneEmpty ((r ∷ rs) ∷ ls) = NoneEmpty ls

-- As many lists as descriptions, and no list is empty.
pub record InStep {F : Type 0} (r : Ranked F) : Type 0 where
  pub paired : length r.ranked_lists ≡ length r.list_meta
  pub filled : NoneEmpty r.ranked_lists

NoneEmpty-append :
    {F : Type 0} (xs ys : List (List (RankedResult F)))
    → NoneEmpty xs
    → NoneEmpty ys
    → NoneEmpty (xs ++ ys)
NoneEmpty-append [] ys h k = k
NoneEmpty-append ((r ∷ rs) ∷ xs) ys h k = NoneEmpty-append xs ys h k
NoneEmpty-append ([] ∷ xs) ys h k = absurd h

push_list-InStep :
    {F : Type 0} (source : Bytes) (qt : QueryType) (list : List (RankedResult F)) (acc : Ranked F)
    → InStep acc
    → InStep (push_list source qt list acc)
unfolding push_list
push_list-InStep source qt [] acc h = h
push_list-InStep source qt (r ∷ rs) acc h = record {
  paired = omega (
    arith,
    h.paired,
    length-append acc.ranked_lists ((r ∷ rs) ∷ []),
    length-append acc.list_meta (record { source = source; query_type = qt } ∷ []),
  );
  filled = NoneEmpty-append acc.ranked_lists ((r ∷ rs) ∷ []) h.filled tt;
}

extend-InStep :
    {F : Type 0} (acc more : Ranked F) → InStep acc → InStep more → InStep (extend acc more)
unfolding extend
extend-InStep acc more h k = record {
  paired = omega (
    arith,
    h.paired,
    k.paired,
    length-append acc.ranked_lists more.ranked_lists,
    length-append acc.list_meta more.list_meta,
  );
  filled = NoneEmpty-append acc.ranked_lists more.ranked_lists h.filled k.filled;
}

abbrev Any : {A : Type 0} → A → Type 0
Any a = Unit

Ensures-Any : {W A : Type 0} (m : Op W A) → Ensures Any m
Ensures-Any {A} m w = holds (m w).0
  where
    holds : (r : Result A) → Holds Any r
    holds (done a) = tt
    holds (timed_out stage) = tt
    holds failed = tt

-- A step that promises nothing, in front of one that keeps a promise.
pub behind_any :
    {W A B : Type 0} (P : B → Type 0) (m : Op W A) (f : A → Op W B)
    → ((a : A) → Ensures P (f a))
    → Ensures P (m >>= f)
behind_any P m f h = Ensures-bind Any P m f (Ensures-Any m) (λ a k. h a)

behind :
    {W A F : Type 0} (m : Op W A) (f : A → Op W (Ranked F))
    → ((a : A) → Ensures InStep (f a))
    → Ensures InStep (m >>= f)
behind m f h = behind_any InStep m f h

module _ {W F V X : Type 0} (env : Env W F V X) (fetch_size : ℕ) (scope : Scope) where
  lex_list-InStep :
      (source text : Bytes) (qt : QueryType) (acc : Ranked F)
      → InStep acc
      → Ensures InStep (lex_list env fetch_size scope source text qt acc)
  unfolding lex_list pure
  lex_list-InStep source text qt acc h =
      behind (fts_scoped env text fetch_size scope) _
        (λ hits w. push_list-InStep source qt (fts_hits_to_ranked hits) acc h)

  vec_list-InStep :
      (source : Bytes) (embed : Op W V) (qt : QueryType) (acc : Ranked F)
      → InStep acc
      → Ensures InStep (vec_list env fetch_size scope source embed qt acc)
  unfolding vec_list pure
  vec_list-InStep source embed qt acc h = behind embed _ (λ emb.
      behind (search_vec_scoped env emb fetch_size scope) _
        (λ results w. push_list-InStep source qt results acc h))

  subquery_list-InStep :
      (kind : QueryType) (text : Bytes) (qt : QueryType) (acc : Ranked F)
      → InStep acc
      → Ensures InStep (subquery_list env fetch_size scope kind text qt acc)
  unfolding subquery_list pure
  subquery_list-InStep lex text qt acc h = lex_list-InStep (codes "fts") text qt acc h
  subquery_list-InStep vec text qt acc h =
      vec_list-InStep (codes "vec") (env.embed_query text) qt acc h
  subquery_list-InStep hyde text qt acc h =
      vec_list-InStep (codes "hyde") (env.embed_passage text) qt acc h
  subquery_list-InStep original text qt acc h = λ w. h

  run_subqueries-InStep :
      (idx : ℕ) (subs : List SubQuery) (acc : Ranked F)
      → InStep acc
      → Ensures InStep (run_subqueries env fetch_size scope idx subs acc)
  unfolding run_subqueries pure run_subquery
  run_subqueries-InStep idx [] acc h = λ w. h
  run_subqueries-InStep idx (sub ∷ subs) acc h = behind (env.check (codes "a sub-query")) _ (λ ok.
      Ensures-bind InStep InStep (run_subquery env fetch_size scope idx sub acc) _
        (subquery_list-InStep sub.qtype sub.text (weight_type idx sub.qtype) acc h)
        (λ more k. run_subqueries-InStep (suc idx) subs more k))

  line_list-InStep :
      (kind : QueryType) (text : Bytes) (acc : Ranked F)
      → InStep acc
      → Ensures InStep (line_list env fetch_size scope kind text acc)
  unfolding line_list pure
  line_list-InStep lex text acc h = lex_list-InStep (codes "expand-lex") text lex acc h
  line_list-InStep vec text acc h =
      vec_list-InStep (codes "expand-vec") (env.embed_query text) vec acc h
  line_list-InStep hyde text acc h =
      vec_list-InStep (codes "expand-hyde") (env.embed_passage text) hyde acc h
  line_list-InStep original text acc h = λ w. h

  run_lines-InStep :
      (query : Bytes) (ls : List Bytes) (seen : List ExpansionLine) (acc : Ranked F)
      → InStep acc
      → Ensures InStep (run_lines env fetch_size scope query ls seen acc)
  unfolding run_lines pure run_line
  run_lines-InStep query [] seen acc h = λ w. h
  run_lines-InStep query (line ∷ rest) seen acc h =
      behind (env.check (codes "an expansion query")) _ (λ ok.
        elim (Option-cases (expansion_line (trim line))) [
          | inl e ↦ rw e (run_lines-InStep query rest seen acc h)
          | inr (l, e) ↦ rw e (elim (Bool-cases (is_wanted env fetch_size scope query l seen)) [
            | inl k ↦ rw k (
                Ensures-bind InStep InStep (run_line env fetch_size scope l acc) _
                  (line_list-InStep l.kind l.text acc h)
                  (λ more j. run_lines-InStep query rest (l ∷ seen) more j))
            | inr k ↦ rw k (run_lines-InStep query rest seen acc h)
          ])
        ])

  after_expansion-InStep :
      (query : Bytes) (acc : Ranked F) (r : Result Bytes × W)
      → InStep acc
      → Holds InStep (after_expansion env fetch_size scope query acc r).0
  unfolding after_expansion parse_and_run_expansion pure
  after_expansion-InStep query acc (done expansion, w) h =
      Ensures-bind InStep InStep (parse_and_run_expansion env fetch_size scope expansion query) _
        (run_lines-InStep query (lines expansion) [] no_lists
          (record { paired = refl; filled = tt }))
        (λ more k w'. extend-InStep acc more h k) w
  after_expansion-InStep query acc (timed_out stage, w) h = h
  after_expansion-InStep query acc (failed, w) h = h

  expand_query-InStep :
      (query : Bytes) (intent : Option Bytes) (acc : Ranked F)
      → InStep acc
      → Ensures InStep (expand_query env fetch_size scope query intent acc)
  unfolding expand_query
  expand_query-InStep query intent acc h = behind (env.check (codes "query expansion")) _ (λ ok w.
      after_expansion-InStep query acc
        (env.generate_expansion (build_expansion_prompt query intent) w) h)

  expand_mode-InStep :
      (text : Bytes) (intent : Option Bytes) (no_expand : Bool)
      → Ensures InStep (expand_mode env fetch_size scope text intent no_expand)
  unfolding expand_mode pure
  expand_mode-InStep text intent no_expand =
      behind (fts_scoped env text fetch_size scope) _ (λ hits.
        behind (env.check (codes "embedding the query")) _ (λ ok.
          Ensures-bind InStep InStep _ _
            (vec_list-InStep (codes "vec") (env.embed_query text) original _ (
              push_list-InStep (codes "fts") original (fts_hits_to_ranked hits) no_lists
                (record { paired = refl; filled = tt })))
            (λ acc k.
              elim (Bool-cases
                (not no_expand && not (is_strong env fetch_size scope hits) && env.can_generate)) [
                  | inl e ↦ rw e (expand_query-InStep text intent acc k)
                  | inr e ↦ rw e (λ w. k)
                ])))

  retrieve_by-InStep :
      (subs : List SubQuery) (expand_text intent : Option Bytes) (query : Bytes) (no_expand : Bool)
      → Ensures InStep (retrieve_by env fetch_size scope subs expand_text intent query no_expand)
  unfolding retrieve_by
  retrieve_by-InStep [] expand_text intent query no_expand =
      expand_mode-InStep (expand_text_of env fetch_size scope expand_text query) intent no_expand
  retrieve_by-InStep (sub ∷ subs) expand_text intent query no_expand =
      run_subqueries-InStep 0 (sub ∷ subs) no_lists (record { paired = refl; filled = tt })

-- Whatever the parts of the store return, a query's ranked lists are as many as the descriptions that weigh them, and none of them is empty.
pub retrieve_ranked_lists-InStep :
    {W F V X : Type 0} (env : Env W F V X) (fetch_size : ℕ) (scope : Scope) (parsed : ParsedQuery)
    (intent : Option Bytes) (query : Bytes) (no_expand : Bool)
    → Ensures InStep (retrieve_ranked_lists env fetch_size scope parsed intent query no_expand)
unfolding retrieve_ranked_lists
retrieve_ranked_lists-InStep env fetch_size scope parsed intent query no_expand =
    retrieve_by-InStep env fetch_size scope parsed.subqueries parsed.expand_text intent query
      no_expand
