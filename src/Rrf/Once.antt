-- ===== src/Rrf/Once.antt =====
-- The fused list holds every document of the lists once.
use rqmd.Common.{
  ℕ, suc, max, ◌≡◌, refl, sym, ap, ◌∙◌, Bool, true, false, ◌&&◌, ◌||◌, List, [], ◌∷◌, map, arith,
  leb, ◌==◌, if◌then◌else◌, Bool-cases, inl, inr,
}
use rqmd.Text.{Bytes, bytes_eq, contains}
use rqmd.Text.Equal.{bytes_eq_iff, bytes_eq_different}
use rqmd.Rrf.{
  Floats, RankedResult, Entry, score_desc_then_path, dedupe_from, dedupe_by_filepath, add_result,
  add_results, contribution, weight_at, add_lists, with_bonus, to_result, insert_result,
  sort_results, reciprocal_rank_fusion,
}

module _ {F : Type 0} (f : Floats F) (p : Bytes) where
  -- How often a path stands in a list.
  abbrev pub times : List (RankedResult F) → ℕ
  times [] = 0
  times (r ∷ rs) = if bytes_eq r.filepath p then suc (times rs) else times rs

  abbrev pub mentions : List (RankedResult F) → Bool
  mentions [] = false
  mentions (r ∷ rs) = bytes_eq r.filepath p || mentions rs

  abbrev pub mentioned : List (List (RankedResult F)) → Bool
  mentioned [] = false
  mentioned (list ∷ lists) = mentions list || mentioned lists

  abbrev entries : List (Entry F) → ℕ
  entries [] = 0
  entries (e ∷ es) = if bytes_eq e.result.filepath p then suc (entries es) else entries es

  -- One entry at least, if the path was met.
  abbrev met : Bool → ℕ → ℕ
  met true n = max 1 n
  met false n = n

  met-or : (a b : Bool) (n : ℕ) → met b (met a n) ≡ met (a || b) n
  met-or true true n = omega arith
  met-or true false n = refl
  met-or false b n = refl

  met-nothing : (a : Bool) → met a 0 ≡ (if a then 1 else 0)
  met-nothing true = refl
  met-nothing false = refl

  met-updated :
      (a b : Bool) (n : ℕ) → a ≡ b → (if a then suc n else n) ≡ met b (if a then suc n else n)
  met-updated true true n h = omega arith
  met-updated true false n h = absurd (cc)
  met-updated false true n h = absurd (cc)
  met-updated false false n h = refl

  met-kept :
      (a b : Bool) (n m : ℕ)
      → (a && b) ≡ false
      → m ≡ met b n
      → (if a then suc m else m) ≡ met b (if a then suc n else n)
  met-kept true true n m h k = absurd (cc)
  met-kept true false n m h k = ap suc k
  met-kept false b n m h k = k

  entries-add_result :
      (amount : F) (rank : ℕ) (r : RankedResult F) (es : List (Entry F))
      → entries (add_result f amount rank r es) ≡ met (bytes_eq r.filepath p) (entries es)
  unfolding add_result
  entries-add_result amount rank r [] = ground arith
  entries-add_result amount rank r (e ∷ es) =
      elim (Bool-cases (bytes_eq e.result.filepath r.filepath)) [
        | inl q ↦
            let same : bytes_eq e.result.filepath p ≡ bytes_eq r.filepath p =
              ap (λ s. bytes_eq s p) ((bytes_eq_iff e.result.filepath r.filepath).0 q) in
            rw q
              (met-updated (bytes_eq e.result.filepath p) (bytes_eq r.filepath p) (entries es) same)
        | inr q ↦ rw q (
            met-kept (bytes_eq e.result.filepath p) (bytes_eq r.filepath p) (entries es)
              (entries (add_result f amount rank r es))
              (bytes_eq_different e.result.filepath r.filepath p q)
              (entries-add_result amount rank r es))
      ]

  entries-add_results :
      (weight : F) (rank : ℕ) (rs : List (RankedResult F)) (es : List (Entry F))
      → entries (add_results f weight rank rs es) ≡ met (mentions rs) (entries es)
  unfolding add_results
  entries-add_results weight rank [] es = refl
  entries-add_results weight rank (r ∷ rs) es =
      entries-add_results weight (suc rank) rs (add_result f (contribution f weight rank) rank r es)
      ∙ ap (met (mentions rs)) (entries-add_result (contribution f weight rank) rank r es)
      ∙ met-or (bytes_eq r.filepath p) (mentions rs) (entries es)

  mentions-dedupe_from :
      (seen : List Bytes) (rs : List (RankedResult F))
      → (mentions (dedupe_from f seen rs) || contains p seen) ≡ (mentions rs || contains p seen)
  unfolding dedupe_from contains
  mentions-dedupe_from seen [] = refl
  mentions-dedupe_from seen (r ∷ rs) = elim (Bool-cases (contains r.filepath seen)) [
    | inl c ↦ rw c (elim (Bool-cases (bytes_eq r.filepath p)) [
      | inl q ↦
          let s : contains p seen ≡ true =
            ap (λ k. contains k seen) (sym ((bytes_eq_iff r.filepath p).0 q)) ∙ c in
          ground arith
      | inr q ↦ rw q (mentions-dedupe_from seen rs)
    ])
    | inr c ↦ rw c (ground (arith, mentions-dedupe_from (r.filepath ∷ seen) rs))
  ]

  times-insert_result :
      (r : RankedResult F) (rs : List (RankedResult F))
      → times (insert_result f r rs) ≡ times (r ∷ rs)
  unfolding insert_result
  times-insert_result r [] = refl
  times-insert_result r (s ∷ ss) =
      elim (Bool-cases
        (score_desc_then_path f s.backend_score s.filepath r.backend_score r.filepath)) [
          | inl e ↦ rw e (ground (arith, times-insert_result r ss))
          | inr e ↦ rw e refl
        ]

  times-sort_results : (rs : List (RankedResult F)) → times (sort_results f rs) ≡ times rs
  unfolding sort_results
  times-sort_results [] = refl
  times-sort_results (r ∷ rs) =
      times-insert_result r (sort_results f rs) ∙ ground (arith, times-sort_results rs)

  path-with_bonus : (e : Entry F) → (with_bonus f e).result ≡ e.result
  unfolding with_bonus
  path-with_bonus e = elim (Bool-cases (e.top_rank == 0)) [
    | inl h ↦ rw h refl
    | inr h ↦ elim (Bool-cases (leb e.top_rank 2)) [
      | inl k ↦ rw (h, k) refl
      | inr k ↦ rw (h, k) refl
    ]
  ]

  times-map :
      (es : List (Entry F)) → times (map (λ e. to_result f (with_bonus f e)) es) ≡ entries es
  unfolding to_result
  times-map [] = refl
  times-map (e ∷ es) =
      let q : bytes_eq (with_bonus f e).result.filepath p ≡ bytes_eq e.result.filepath p =
        ap (λ (r : RankedResult F). bytes_eq r.filepath p) (path-with_bonus e) in
      rw (q, times-map es) refl

  mentions-dedupe_by_filepath :
      (rs : List (RankedResult F)) → mentions (dedupe_by_filepath f rs) ≡ mentions rs
  unfolding dedupe_by_filepath
  mentions-dedupe_by_filepath rs =
      let h = mentions-dedupe_from [] rs in
      let e : contains p [] ≡ false = unfold contains in refl in ground arith

  entries-add_lists :
      (weights : List F) (i : ℕ) (lists : List (List (RankedResult F))) (es : List (Entry F))
      → entries (add_lists f weights i lists es) ≡ met (mentioned lists) (entries es)
  unfolding add_lists
  entries-add_lists weights i [] es = refl
  entries-add_lists weights i (list ∷ lists) es =
      let scores = add_results f (weight_at f weights i) 0 (dedupe_by_filepath f list) es in
      entries-add_lists weights (suc i) lists scores
      ∙ ap (met (mentioned lists)) (
          entries-add_results (weight_at f weights i) 0 (dedupe_by_filepath f list) es
          ∙ ap (λ b. met b (entries es)) (mentions-dedupe_by_filepath list))
      ∙ met-or (mentions list) (mentioned lists) (entries es)

-- In the fused list the path of every document of the lists stands exactly once, and no other path,
-- whatever the scores and weights are.
pub times-reciprocal_rank_fusion :
    {F : Type 0} (f : Floats F) (lists : List (List (RankedResult F))) (weights : List F)
    (p : Bytes)
    → times f p (reciprocal_rank_fusion f lists weights) ≡ (if mentioned f p lists then 1 else 0)
unfolding reciprocal_rank_fusion
times-reciprocal_rank_fusion f lists weights p =
    times-sort_results f p _
    ∙ times-map f p (add_lists f weights 0 lists [])
    ∙ entries-add_lists f p weights 0 lists []
    ∙ met-nothing f p (mentioned f p lists)
