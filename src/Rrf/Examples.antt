-- ===== src/Rrf/Examples.antt =====
-- Tests of the fusion, and its theorem at concrete lists. The scores of the tests are in thousandths.
use rqmd.Common.{ℕ, ◌+◌, ◌*◌, ◌/◌, ◌≡◌, refl, List, [], ◌∷◌, ltb, if◌then◌else◌}
use rqmd.Text.{Bytes, codes}
use rqmd.Rrf.{
  Floats, less, greater, equal, RankedResult, rrf_weights, RankedListMeta, reciprocal_rank_fusion,
}
use rqmd.Query.{original, lex}
use rqmd.Rrf.Once.{times, times-reciprocal_rank_fusion}

abbrev thousandths : Floats ℕ
thousandths = record {
  plus = λ a b. a + b;
  divide = λ a b. a * 1000 / b;
  of_usize = λ n. n * 1000;
  rrf_k = 60000;
  one = 1000;
  two = 2000;
  top_bonus = 50;
  near_bonus = 20;
  partial_cmp = λ a b. if ltb a b then less else if ltb b a then greater else equal;
}

abbrev result : Bytes → ℕ → RankedResult ℕ
result path score = record { filepath = path; title = []; backend_score = score }

abbrev two_lists : List (List (RankedResult ℕ))
two_lists =
    (result (codes "n/a") 9 ∷ result (codes "n/a") 8 ∷ result (codes "n/b") 7 ∷ [])
    ∷ (result (codes "n/b") 5 ∷ result (codes "n/c") 4 ∷ [])
    ∷ []

abbrev metas : List RankedListMeta
metas =
    record { source = codes "fts"; query_type = original }
    ∷ record { source = codes "fts"; query_type = lex }
    ∷ []

fused_lists :
    reciprocal_rank_fusion thousandths two_lists (rrf_weights thousandths metas)
    ≡ result (codes "n/b") 98 ∷ result (codes "n/a") 82 ∷ result (codes "n/c") 36 ∷ []
unfolding reciprocal_rank_fusion rrf_weights rqmd.Text.bytes_eq
fused_lists = refl

times-reciprocal_rank_fusion_example :
    times thousandths
      (codes "n/a")
      (reciprocal_rank_fusion thousandths two_lists (rrf_weights thousandths metas))
    ≡ 1
unfolding rqmd.Text.bytes_eq
times-reciprocal_rank_fusion_example =
    times-reciprocal_rank_fusion thousandths two_lists (rrf_weights thousandths metas) (codes "n/a")
