-- ===== src/QueryCache/Rerank.antt =====
-- Reranking with the cache gives the scores of the model.
use rqmd.Common.{
  ℕ, zero, suc, ◌≤◌, ◌<◌, max, ◌≡◌, refl, sym, ap, ap₂, append-nil, ◌∙◌, Bool, true, false, Option,
  none, some, Option-cases, Bool-cases, ◌⊎◌, inl, inr, List, [], ◌∷◌, ◌++◌, map, arith, ==_iff,
  ◌==◌, if◌then◌else◌, length, take, drop, length-drop, take-append-drop, append_assoc,
}
use rqmd.Text.{Bytes}
use rqmd.ModelCache.{F32, Cache, find_row}
use rqmd.ModelCache.Ops.{get_rerank_scores, rerank_key, rerank_prompt_version}
use rqmd.QueryCache.{
  Outcome, done, Fault, parts, rerank_parts, rerank_candidates, misses, merge, no_scores, complete,
  rerank_misses, rerank_candidates_cached,
}

-- The reranker gives every chunk its own score, whatever it is asked together with.
abbrev pub IsScorer : (Bytes → F32) → (ℕ → List Bytes → Outcome (Option (List F32))) → Type 0
IsScorer score backend = (n : ℕ) (part : List Bytes) → backend n part ≡ done (some (map score part))

map-append : {A B : Type 0} (f : A → B) (xs ys : List A) → map f (xs ++ ys) ≡ map f xs ++ map f ys
map-append f [] ys = refl
map-append f (x ∷ xs) ys = ap (λ r. f x ∷ r) (map-append f xs ys)

nil_of_length : {A : Type 0} (xs : List A) → length xs ≡ 0 → xs ≡ []
nil_of_length [] h = refl
nil_of_length (x ∷ xs) h = absurd (omega arith)

length-map : {A B : Type 0} (f : A → B) (xs : List A) → length (map f xs) ≡ length xs
length-map f [] = refl
length-map f (x ∷ xs) = ap suc (length-map f xs)

module _ (score : Bytes → F32) where
  joined :
      (n : ℕ) (chunks : List Bytes) (scores : List F32)
      → (scores ++ map score (take n chunks)) ++ map score (drop n chunks)
        ≡ scores ++ map score chunks
  joined n chunks scores =
      append_assoc scores (map score (take n chunks)) (map score (drop n chunks))
      ∙ ap (λ r. scores ++ r)
          (sym (map-append score (take n chunks) (drop n chunks))
            ∙ ap (map score) (take-append-drop n chunks))

  rerank_parts-parts :
      (backend : ℕ → List Bytes → Outcome (Option (List F32))) (fuel n : ℕ) (chunks : List Bytes)
      (scores : List F32)
      → IsScorer score backend
      → 0 < n
      → length chunks ≤ fuel
      → rerank_parts backend (parts fuel n chunks) scores ≡ done (some (scores ++ map score chunks))
  unfolding rerank_parts parts
  rerank_parts-parts backend fuel n [] scores h pos le =
      ap (λ r. done (some r)) (sym (append-nil scores))
  rerank_parts-parts backend zero n (c ∷ cs) scores h pos le = absurd (omega arith)
  rerank_parts-parts backend (suc fuel) n (c ∷ cs) scores h pos le =
      rw (h (length scores) (take n (c ∷ cs))) (
        rerank_parts-parts backend fuel n (drop n (c ∷ cs)) (scores ++ map score (take n (c ∷ cs)))
          h pos (omega (arith, length-drop n (c ∷ cs)))
        ∙ ap (λ r. done (some r)) (joined n (c ∷ cs) scores))

  pub rerank_candidates-map :
      (backend : ℕ → List Bytes → Outcome (Option (List F32))) (observed : Bool)
      (chunks : List Bytes)
      → IsScorer score backend
      → rerank_candidates backend observed chunks ≡ done (some (map score chunks))
  unfolding rerank_candidates
  rerank_candidates-map backend true chunks h =
      rerank_parts-parts backend (length chunks) 4 chunks [] h (omega arith) (omega arith)
  rerank_candidates-map backend false chunks h =
      rerank_parts-parts backend (length chunks) (max (length chunks) 1) chunks [] h (omega arith)
        (omega arith)

  -- Every cached score is the chunk's.
  abbrev Agree : List Bytes → List (Option F32) → Type 0
  Agree [] [] = Unit
  Agree [] (s ∷ cached) = ⊥
  Agree (c ∷ cs) [] = ⊥
  Agree (c ∷ cs) (none ∷ cached) = Agree cs cached
  Agree (c ∷ cs) (some s ∷ cached) = (s ≡ score c) × Agree cs cached

  merge-misses :
      (chunks : List Bytes) (cached : List (Option F32))
      → Agree chunks cached
      → merge cached (map score (misses chunks cached)) ≡ map score chunks
  unfolding merge misses
  merge-misses [] [] h = refl
  merge-misses [] (s ∷ cached) h = absurd h
  merge-misses (c ∷ cs) [] h = absurd h
  merge-misses (c ∷ cs) (none ∷ cached) h = ap (λ r. score c ∷ r) (merge-misses cs cached h)
  merge-misses (c ∷ cs) (some s ∷ cached) (e, h) = ap₂ ◌∷◌ e (merge-misses cs cached h)

  complete-full :
      (cached : List (Option F32)) (fresh : List F32) (n : ℕ) (chunks : List Bytes)
      → length fresh ≡ n
      → merge cached fresh ≡ map score chunks
      → complete cached n (done (some fresh)) ≡ done (some (map score chunks))
  unfolding complete
  complete-full cached fresh n chunks e m =
      rw ((==_iff (length fresh) n).1 e) (ap (λ r. done (some r)) m)

  rerank_misses-map :
      (rerank : List Bytes → Outcome (Option (List F32))) (chunks : List Bytes)
      (cached : List (Option F32))
      → ((cs : List Bytes) → rerank cs ≡ done (some (map score cs)))
      → Agree chunks cached
      → rerank_misses rerank chunks cached ≡ done (some (map score chunks))
  unfolding rerank_misses complete
  rerank_misses-map rerank chunks cached h a =
      elim (Bool-cases (length (misses chunks cached) == length chunks)) [
        | inl e ↦ rw e (h chunks)
        | inr e ↦ rw e (completed (Bool-cases (length (misses chunks cached) == 0)))
      ]
    where
      completed :
          ((length (misses chunks cached) == 0) ≡ true)
            ⊎ ((length (misses chunks cached) == 0) ≡ false)
          → complete cached (length (misses chunks cached)) (
              if length (misses chunks cached) == 0
              then done (some [])
              else rerank (misses chunks cached))
            ≡ done (some (map score chunks))
      completed (inl e) = rw e (
          complete-full cached [] (length (misses chunks cached)) chunks
            (sym ((==_iff (length (misses chunks cached)) 0).0 e))
            (ap (λ r. merge cached (map score r))
                (sym (
                  nil_of_length (misses chunks cached)
                    ((==_iff (length (misses chunks cached)) 0).0 e)))
              ∙ merge-misses chunks cached a))
      completed (inr e) =
          rw (e, h (misses chunks cached))
            (complete-full cached (map score (misses chunks cached)) (length (misses chunks cached))
              chunks (length-map score (misses chunks cached)) (merge-misses chunks cached a))

  abbrev pub CacheAgree : (Bytes → Bytes) → Bytes → Cache → Bytes → Bytes → Type 0
  CacheAgree sha256 pkg_version c query model =
      (chunk : Bytes) (s : F32)
      → find_row (rerank_key sha256 pkg_version query chunk) model
          (rerank_prompt_version sha256 pkg_version) c.rerank
        ≡ some s
      → s ≡ score chunk

  Agree-no_scores : (chunks : List Bytes) → Agree chunks (no_scores chunks)
  unfolding no_scores
  Agree-no_scores [] = tt
  Agree-no_scores (c ∷ cs) = Agree-no_scores cs

  module _ (sha256 : Bytes → Bytes) (pkg_version : Bytes) (query model : Bytes) where
    abbrev pub lookup : Cache → Bytes → Option F32
    lookup c chunk =
        find_row (rerank_key sha256 pkg_version query chunk) model
          (rerank_prompt_version sha256 pkg_version) c.rerank

    Agree-lookup :
        (c : Cache) (chunks : List Bytes)
        → CacheAgree sha256 pkg_version c query model
        → Agree chunks (get_rerank_scores sha256 pkg_version c query model chunks)
    unfolding get_rerank_scores
    Agree-lookup c [] h = tt
    Agree-lookup c (k ∷ ks) h = elim (Option-cases (lookup c k)) [
      | inl e ↦ rw e (Agree-lookup c ks h)
      | inr (s, e) ↦ rw e (h k s e, Agree-lookup c ks h)
    ]

  abbrev pub StateAgree : (Bytes → Bytes) → Bytes → Bytes → Option Bytes → Option Cache → Type 0
  StateAgree sha256 pkg_version query identity none = Unit
  StateAgree sha256 pkg_version query none (some c) = Unit
  StateAgree sha256 pkg_version query (some model) (some c) =
      CacheAgree sha256 pkg_version c query model

-- If the reranker gives every chunk its own score, and the cache holds for this query and model no
-- other score of a chunk, then reranking with the cache gives the same scores as without: every
-- chunk's own, in order, whatever the cache holds and whether or not its lookup fails.
pub rerank_candidates_cached-rerank_candidates :
    (sha256 : Bytes → Bytes) (pkg_version : Bytes) (score : Bytes → F32)
    (backend : ℕ → List Bytes → Outcome (Option (List F32))) (observed : Bool)
    (identity : Option Bytes) (fault : Option Fault) (query : Bytes) (chunks : List Bytes)
    (state : Option Cache)
    → IsScorer score backend
    → StateAgree score sha256 pkg_version query identity state
    → ((rerank_candidates_cached sha256 pkg_version
          (rerank_candidates backend observed)
          identity
          fault
          query
          chunks
          state).0
        ≡ rerank_candidates backend observed chunks)
      × (rerank_candidates backend observed chunks ≡ done (some (map score chunks)))
unfolding rerank_candidates_cached
rerank_candidates_cached-rerank_candidates sha256 pkg_version score backend observed identity fault
      query chunks state h a =
    (
      cached state identity fault a ∙ sym (rerank_candidates-map score backend observed chunks h),
      rerank_candidates-map score backend observed chunks h,
    )
  where
    cached :
        (state : Option Cache) (identity : Option Bytes) (fault : Option Fault)
        → StateAgree score sha256 pkg_version query identity state
        → (rerank_candidates_cached sha256 pkg_version
            (rerank_candidates backend observed)
            identity
            fault
            query
            chunks
            state).0
          ≡ done (some (map score chunks))
    cached none identity fault a = rerank_candidates-map score backend observed chunks h
    cached (some c) none fault a = rerank_candidates-map score backend observed chunks h
    cached (some c) (some model) none a =
        rerank_misses-map score (rerank_candidates backend observed) chunks _
          (λ cs. rerank_candidates-map score backend observed cs h)
          (Agree-lookup score sha256 pkg_version query model c chunks a)
    cached (some c) (some model) (some fault) a =
        rerank_misses-map score (rerank_candidates backend observed) chunks (no_scores chunks)
          (λ cs. rerank_candidates-map score backend observed cs h) (Agree-no_scores score chunks)
