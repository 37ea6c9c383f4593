-- ===== src/Rrf.antt =====
-- crates/rqmd-core/src/rrf.rs: the fusion of ranked lists. The type of scores with its operations stands for
-- `f32`, whose rounding no theorem here depends on.
pub mod Once
mod Examples
use rqmd.Common.{
  ℕ, zero, suc, ◌+◌, Bool, true, false, ◌&&◌, ◌||◌, Option, none, some, List, [], ◌∷◌, ◌++◌, map,
  ltb, leb, ◌==◌, if◌then◌else◌, get_elem?,
}
use rqmd.Text.{Bytes, bytes_eq, bytes_lt, contains}
use rqmd.Query.{QueryType, original, lex, vec, hyde}

-- `partial_cmp`: `unordered` if one of the two is no number.
pub data PartialOrdering : Type 0 where
  less : PartialOrdering
  equal : PartialOrdering
  greater : PartialOrdering
  unordered : PartialOrdering

-- `RankedListMeta` of types.rs
pub record RankedListMeta : Type 0 where
  pub source : Bytes
  pub query_type : QueryType

-- What the fusion uses of `f32`.
pub record Floats (F : Type 0) : Type 0 where
  pub plus : F → F → F
  pub divide : F → F → F
  pub of_usize : ℕ → F
  pub rrf_k : F
  pub one : F
  pub two : F
  pub top_bonus : F
  pub near_bonus : F
  pub partial_cmp : F → F → PartialOrdering

-- `RankedResult` of types.rs
pub record RankedResult (F : Type 0) : Type 0 where
  pub filepath : Bytes
  pub title : Bytes
  pub backend_score : F

-- `Entry` of `reciprocal_rank_fusion`
pub record Entry (F : Type 0) : Type 0 where
  pub result : RankedResult F
  pub rrf_score : F
  pub top_rank : ℕ

module _ {F : Type 0} (f : Floats F) where
  -- Whether the first of two scored paths sorts before the second.
  unfoldable pub score_desc_then_path : F → Bytes → F → Bytes → Bool
  unfolding bytes_lt
  score_desc_then_path a_score a_path b_score b_path = elim (f.partial_cmp b_score a_score) [
    | less ↦ true
    | greater ↦ false
    | equal ↦ bytes_lt a_path b_path
    | unordered ↦ bytes_lt a_path b_path
  ]

  -- `seen` holds the paths before.
  unfoldable pub dedupe_from : List Bytes → List (RankedResult F) → List (RankedResult F)
  unfolding contains
  dedupe_from seen [] = []
  dedupe_from seen (r ∷ rs) =
      let old = dedupe_from seen rs in
      let fresh = r ∷ dedupe_from (r.filepath ∷ seen) rs in
      if contains r.filepath seen then old else fresh

  unfoldable pub dedupe_by_filepath : List (RankedResult F) → List (RankedResult F)
  unfolding dedupe_from
  dedupe_by_filepath list = dedupe_from [] list

  unfoldable pub weight_of : QueryType → F
  weight_of original = f.two
  weight_of lex = f.one
  weight_of vec = f.one
  weight_of hyde = f.one

  unfoldable pub rrf_weights : List RankedListMeta → List F
  unfolding weight_of
  rrf_weights meta = map (λ (m : RankedListMeta). weight_of m.query_type) meta

  unfoldable pub contribution : F → ℕ → F
  contribution weight rank = f.divide weight (f.plus (f.plus f.rrf_k (f.of_usize rank)) f.one)

  -- The body of the inner loop. The map is the list of its entries, each under its result's path.
  unfoldable pub add_result : F → ℕ → RankedResult F → List (Entry F) → List (Entry F)
  add_result amount rank r [] = record { result = r; rrf_score = amount; top_rank = rank } ∷ []
  add_result amount rank r (e ∷ es) =
      if bytes_eq e.result.filepath r.filepath
      then record e {
        rrf_score = f.plus e.rrf_score amount;
        top_rank = if ltb rank e.top_rank then rank else e.top_rank;
      }
        ∷ es
      else e ∷ add_result amount rank r es

  unfoldable pub add_results : F → ℕ → List (RankedResult F) → List (Entry F) → List (Entry F)
  unfolding add_result contribution
  add_results weight rank [] scores = scores
  add_results weight rank (r ∷ rs) scores =
      add_results weight (suc rank) rs (add_result (contribution weight rank) rank r scores)

  -- `weights.get(list_idx).copied().unwrap_or(1.0)`
  unfoldable pub weight_at : List F → ℕ → F
  weight_at weights i = elim (get_elem? weights i) [ none ↦ f.one | some w ↦ w ]

  unfoldable pub add_lists :
      List F → ℕ → List (List (RankedResult F)) → List (Entry F) → List (Entry F)
  unfolding add_results dedupe_by_filepath weight_at
  add_lists weights i [] scores = scores
  add_lists weights i (list ∷ lists) scores =
      add_lists weights (suc i) lists
        (add_results (weight_at weights i) 0 (dedupe_by_filepath list) scores)

  unfoldable pub with_bonus : Entry F → Entry F
  with_bonus e =
      if e.top_rank == 0
      then record e { rrf_score = f.plus e.rrf_score f.top_bonus }
      else if leb e.top_rank 2
      then record e { rrf_score = f.plus e.rrf_score f.near_bonus }
      else e

  unfoldable pub to_result : Entry F → RankedResult F
  to_result e = record {
    filepath = e.result.filepath;
    title = e.result.title;
    backend_score = e.rrf_score;
  }

  unfoldable pub insert_result : RankedResult F → List (RankedResult F) → List (RankedResult F)
  unfolding score_desc_then_path
  insert_result r [] = r ∷ []
  insert_result r (s ∷ ss) =
      if score_desc_then_path s.backend_score s.filepath r.backend_score r.filepath
      then s ∷ insert_result r ss
      else r ∷ s ∷ ss

  -- `sort_by` where it returns, as it does if all scores compare.
  unfoldable pub sort_results : List (RankedResult F) → List (RankedResult F)
  unfolding insert_result
  sort_results [] = []
  sort_results (r ∷ rs) = insert_result r (sort_results rs)

  unfoldable pub reciprocal_rank_fusion :
      List (List (RankedResult F)) → List F → List (RankedResult F)
  unfolding add_lists with_bonus to_result sort_results
  reciprocal_rank_fusion result_lists weights =
      sort_results (map (λ e. to_result (with_bonus e)) (add_lists weights 0 result_lists []))
