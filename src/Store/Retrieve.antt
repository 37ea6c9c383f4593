-- ===== src/Store/Retrieve.antt =====
-- crates/rqmd-core/src/store.rs: the ranked lists of a query, from its sub-queries or its expansion.
use rqmd.Common.{
  ℕ, zero, suc, Bool, true, false, not, ◌&&◌, ◌||◌, Option, none, some, List, [], ◌∷◌, ◌++◌,
  get_elem?, if◌then◌else◌,
}
use rqmd.Text.{Bytes, bytes_eq, codes, newline, is_empty, trim, strip_prefix}
use rqmd.Text.Lines.{lines}
use rqmd.Query.{QueryType, original, lex, vec, hyde, SubQuery, ParsedQuery}
use rqmd.Rrf.{RankedResult, RankedListMeta}
use rqmd.Store.{Result, done, timed_out, failed, Op, pure, ◌>>=◌, Hit, Scope, Env}
use rqmd.Store.Script.{expansion_language_mismatch}
use rqmd.Store.Scope.{fts_scoped, search_vec_scoped}

-- The lists with what each was searched by.
pub record Ranked (F : Type 0) : Type 0 where
  pub ranked_lists : List (List (RankedResult F))
  pub list_meta : List RankedListMeta

abbrev pub no_lists : {F : Type 0} → Ranked F
no_lists = record { ranked_lists = []; list_meta = [] }

unfoldable pub fts_hits_to_ranked : {F : Type 0} → List (Hit F) → List (RankedResult F)
fts_hits_to_ranked [] = []
fts_hits_to_ranked (h ∷ hs) =
    record { filepath = h.filepath; title = []; backend_score = h.score } ∷ fts_hits_to_ranked hs

-- A list that is empty is not pushed.
unfoldable pub push_list :
    {F : Type 0} → Bytes → QueryType → List (RankedResult F) → Ranked F → Ranked F
push_list source qt [] acc = acc
push_list source qt (r ∷ rs) acc = record {
  ranked_lists = acc.ranked_lists ++ (r ∷ rs) ∷ [];
  list_meta = acc.list_meta ++ record { source = source; query_type = qt } ∷ [];
}

unfoldable pub extend : {F : Type 0} → Ranked F → Ranked F → Ranked F
extend acc more = record {
  ranked_lists = acc.ranked_lists ++ more.ranked_lists;
  list_meta = acc.list_meta ++ more.list_meta;
}

abbrev pub newline_text : Bytes
newline_text = newline ∷ []

unfoldable pub intent_block : Option Bytes → Bytes
intent_block none = []
intent_block (some i) = if is_empty i then [] else codes "Context: " ++ i ++ newline_text

unfoldable pub build_expansion_prompt : Bytes → Option Bytes → Bytes
unfolding intent_block
build_expansion_prompt query intent =
    codes "<|im_start|>system"
    ++ newline_text
    ++ codes
        "You are a search query expansion assistant. Given a user query, emit exactly three lines:"
    ++ newline_text
    ++ codes "lex: <keyword or phrase for BM25 search>"
    ++ newline_text
    ++ codes "vec: <natural language question for vector search>"
    ++ newline_text
    ++ codes "hyde: <a 50-100 word hypothetical passage that would answer the query>"
    ++ newline_text
    ++ codes "Write all three lines in the same language as the query."
    ++ newline_text
    ++ codes "Output only those three lines. No explanation.<|im_end|>"
    ++ newline_text
    ++ codes "<|im_start|>user"
    ++ newline_text
    ++ intent_block intent
    ++ codes "Query: "
    ++ query
    ++ codes "<|im_end|>"
    ++ newline_text
    ++ codes "<|im_start|>assistant"
    ++ newline_text

-- The kind of an expansion line, and its text.
pub record ExpansionLine : Type 0 where
  pub kind : QueryType
  pub text : Bytes

abbrev text_behind : QueryType → Bytes → ExpansionLine
text_behind kind text = record { kind = kind; text = trim text }

unfoldable pub expansion_line : Bytes → Option ExpansionLine
expansion_line line = elim (strip_prefix line (codes "lex:")) [
  | some text ↦ some (text_behind lex text)
  | none ↦ elim (strip_prefix line (codes "vec:")) [
    | some text ↦ some (text_behind vec text)
    | none ↦ elim (strip_prefix line (codes "hyde:")) [
      | some text ↦ some (text_behind hyde text)
      | none ↦ none
    ]
  ]
]

unfoldable pub same_kind : QueryType → QueryType → Bool
same_kind lex lex = true
same_kind vec vec = true
same_kind hyde hyde = true
same_kind original original = true
same_kind _ _ = false

-- Whether a kind and a text are in the set.
unfoldable pub was_seen : ExpansionLine → List ExpansionLine → Bool
unfolding same_kind
was_seen l [] = false
was_seen l (k ∷ ks) = same_kind l.kind k.kind && bytes_eq l.text k.text || was_seen l ks

unfoldable pub top_score : {F : Type 0} → F → List (Hit F) → ℕ → F
top_score zero_score hits i = elim (get_elem? hits i) [ none ↦ zero_score | some h ↦ h.score ]

abbrev pub has_hits : {F : Type 0} → List (Hit F) → Bool
has_hits [] = false
has_hits (h ∷ hs) = true

-- The type of the sub-query at an index, for the weights.
unfoldable pub weight_type : ℕ → QueryType → QueryType
weight_type zero qt = original
weight_type (suc idx) qt = qt

-- `fetch_size` and the collections of the search.
module _ {W F V X : Type 0} (env : Env W F V X) (fetch_size : ℕ) (scope : Scope) where
  unfoldable pub lex_list : Bytes → Bytes → QueryType → Ranked F → Op W (Ranked F)
  unfolding fts_hits_to_ranked push_list fts_scoped ◌>>=◌ pure
  lex_list source text qt acc = fts_scoped env text fetch_size scope >>= λ hits.
      pure (push_list source qt (fts_hits_to_ranked hits) acc)

  unfoldable pub vec_list : Bytes → Op W V → QueryType → Ranked F → Op W (Ranked F)
  unfolding push_list search_vec_scoped ◌>>=◌ pure
  vec_list source embed qt acc = embed >>= λ emb.
      search_vec_scoped env emb fetch_size scope >>= λ results.
      pure (push_list source qt results acc)

  -- The search of a sub-query of a type; the other type is for the weights.
  unfoldable pub subquery_list : QueryType → Bytes → QueryType → Ranked F → Op W (Ranked F)
  unfolding lex_list vec_list pure
  subquery_list lex text qt acc = lex_list (codes "fts") text qt acc
  subquery_list vec text qt acc = vec_list (codes "vec") (env.embed_query text) qt acc
  subquery_list hyde text qt acc = vec_list (codes "hyde") (env.embed_passage text) qt acc
  subquery_list original text qt acc = pure acc

  unfoldable pub run_subquery : ℕ → SubQuery → Ranked F → Op W (Ranked F)
  unfolding subquery_list weight_type
  run_subquery idx sub acc = subquery_list sub.qtype sub.text (weight_type idx sub.qtype) acc

  unfoldable pub run_subqueries : ℕ → List SubQuery → Ranked F → Op W (Ranked F)
  unfolding run_subquery ◌>>=◌ pure
  run_subqueries idx [] acc = pure acc
  run_subqueries idx (sub ∷ subs) acc = env.check (codes "a sub-query") >>= λ ok.
      run_subquery idx sub acc >>= λ more. run_subqueries (suc idx) subs more

  -- An expansion line is searched unless it is empty, repeats the query or an earlier line, or is in another script.
  unfoldable pub is_wanted : Bytes → ExpansionLine → List ExpansionLine → Bool
  unfolding was_seen expansion_language_mismatch
  is_wanted query l seen =
      not (is_empty l.text)
      && not (bytes_eq l.text (trim query))
      && not (expansion_language_mismatch env.is_alphabetic query l.text)
      && not (was_seen l seen)

  unfoldable pub line_list : QueryType → Bytes → Ranked F → Op W (Ranked F)
  unfolding lex_list vec_list pure
  line_list lex text acc = lex_list (codes "expand-lex") text lex acc
  line_list vec text acc = vec_list (codes "expand-vec") (env.embed_query text) vec acc
  line_list hyde text acc = vec_list (codes "expand-hyde") (env.embed_passage text) hyde acc
  line_list original text acc = pure acc

  unfoldable pub run_line : ExpansionLine → Ranked F → Op W (Ranked F)
  unfolding line_list
  run_line l acc = line_list l.kind l.text acc

  -- The loop over the lines; `seen` has the lines that were searched.
  unfoldable pub run_lines : Bytes → List Bytes → List ExpansionLine → Ranked F → Op W (Ranked F)
  unfolding expansion_line is_wanted run_line ◌>>=◌ pure
  run_lines query [] seen acc = pure acc
  run_lines query (line ∷ rest) seen acc = env.check (codes "an expansion query") >>= λ ok.
      elim (expansion_line (trim line)) [
        | none ↦ run_lines query rest seen acc
        | some l ↦
            if is_wanted query l seen
            then (run_line l acc >>= λ more. run_lines query rest (l ∷ seen) more)
            else run_lines query rest seen acc
      ]

  unfoldable pub parse_and_run_expansion : Bytes → Bytes → Op W (Ranked F)
  unfolding run_lines
  parse_and_run_expansion expansion query = run_lines query (lines expansion) [] no_lists

  unfoldable pub is_strong : List (Hit F) → Bool
  unfolding top_score
  is_strong hits =
      let first = top_score env.zero_score hits 0 in
      let second = top_score env.zero_score hits 1 in
      has_hits hits
      && env.at_least first env.strong_signal_min_score
      && env.at_least (env.minus first second) env.strong_signal_min_gap

  -- A failure of the model leaves the lists as they are.
  unfoldable pub after_expansion : Bytes → Ranked F → Result Bytes × W → Result (Ranked F) × W
  unfolding parse_and_run_expansion extend ◌>>=◌ pure
  after_expansion query acc (done expansion, w) =
      (parse_and_run_expansion expansion query >>= λ more. pure (extend acc more)) w
  after_expansion query acc (timed_out stage, w) = (done acc, w)
  after_expansion query acc (failed, w) = (done acc, w)

  unfoldable pub expand_query : Bytes → Option Bytes → Ranked F → Op W (Ranked F)
  unfolding after_expansion build_expansion_prompt ◌>>=◌
  expand_query query intent acc = env.check (codes "query expansion") >>= λ ok w.
      after_expansion query acc (env.generate_expansion (build_expansion_prompt query intent) w)

  unfoldable pub expand_mode : Bytes → Option Bytes → Bool → Op W (Ranked F)
  unfolding expand_query is_strong fts_hits_to_ranked push_list vec_list ◌>>=◌ pure
  expand_mode text intent no_expand = fts_scoped env text fetch_size scope >>= λ hits.
      env.check (codes "embedding the query") >>= λ ok.
      vec_list (codes "vec") (env.embed_query text) original
        (push_list (codes "fts") original (fts_hits_to_ranked hits) no_lists)
      >>= λ acc.
          if not no_expand && not (is_strong hits) && env.can_generate
          then expand_query text intent acc
          else pure acc

  unfoldable pub expand_text_of : Option Bytes → Bytes → Bytes
  expand_text_of none query = query
  expand_text_of (some text) query = text

  unfoldable pub retrieve_by :
      List SubQuery → Option Bytes → Option Bytes → Bytes → Bool → Op W (Ranked F)
  unfolding run_subqueries expand_mode expand_text_of
  retrieve_by [] expand_text intent query no_expand =
      expand_mode (expand_text_of expand_text query) intent no_expand
  retrieve_by (sub ∷ subs) expand_text intent query no_expand =
      run_subqueries 0 (sub ∷ subs) no_lists

  unfoldable pub retrieve_ranked_lists : ParsedQuery → Option Bytes → Bytes → Bool → Op W (Ranked F)
  unfolding retrieve_by
  retrieve_ranked_lists parsed intent query no_expand =
      retrieve_by parsed.subqueries parsed.expand_text intent query no_expand
