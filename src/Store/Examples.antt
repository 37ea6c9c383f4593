-- ===== src/Store/Examples.antt =====
-- Tests of the pipeline over a small index, and its theorems there. Scores are in thousandths.
use rqmd.Common.{
  ℕ, suc, ◌+◌, ◌*◌, ◌-◌, ◌/◌, ◌≡◌, refl, true, false, none, some, List, [], ◌∷◌, ◌++◌, map, ltb,
  leb, ◌==◌, if◌then◌else◌, length, take,
}
use rqmd.Text.{Bytes, Run, ok, bytes_eq, codes, trim}
use rqmd.Text.Lines.{split_on}
use rqmd.Query.{parse_query}
use rqmd.Resolve.{Document}
use rqmd.Rrf.{Floats, less, greater, equal}
use rqmd.Store.{Result, done, pure, Holds, Ensures, Env}
use rqmd.Store.Sections.{best_chunks, keyword_terms, nearest_chunk, uncovered_text}
use rqmd.Store.Picks.{Pick, PickDoc, picks_to_results, recency_pool, split_filepath}
use rqmd.Store.Moved.{clone_picks, picks_to_results-clone_picks}
use rqmd.Store.Script.{cjk, dominant_script, expansion_language_mismatch}
use rqmd.Store.Scope.{ranked_round, widen}
use rqmd.Store.Widen.{Found, widen-Found-ranked_round-document_round}
use rqmd.Store.Vectors.{document_round, search_vec_multi_with}
use rqmd.Store.Similar.{similar_to_hash}
use rqmd.Store.Unlike.{IsSimilar, similar_to_hash-IsSimilar}
use rqmd.Store.Retrieve.{retrieve_ranked_lists}
use rqmd.Store.Lockstep.{InStep, retrieve_ranked_lists-InStep}
use rqmd.Store.Rerank.{Candidate}
use rqmd.Store.Calendar.{date_time, format_rfc3339}
use rqmd.Store.Dates.{IsTime, date_time-IsTime}
use rqmd.Store.Search.{SearchOptions, QueryOutcome}

abbrev thousandths : Floats ℕ
thousandths = record {
  plus = λ a b. a + b;
  divide = λ a b. a * 1000 / b;
  of_usize = λ n. n * 1000;
  rrf_k = 60000;
  one = 1000;
  two = 2000;
  top_bonus = 50;
  near_bonus = 20;
  partial_cmp = λ a b. if ltb a b then less else if ltb b a then greater else equal;
}

abbrev document : ℕ → Document
document i = record {
  id = i;
  collection = codes "n";
  path = if i == 0 then codes "a" else codes "b";
  title = codes "T";
  hash = codes "01234567";
  active = true;
}

abbrev raw_of : ℕ → Bytes
raw_of i = if i == 0 then codes "red fox" else codes "red hen"

-- Two documents, each with one chunk and one vector. The world counts the calls of the clock.
abbrev env : Env ℕ ℕ ℕ Unit
env = record {
  scores = thousandths;
  times = λ a b. a * b / 1000;
  minus = λ a b. a - b;
  zero_score = 0;
  at_least = λ a b. leb b a;
  is_finite = λ s. true;
  blend_hi = 750;
  blend_lo = 250;
  strong_signal_min_score = 850;
  strong_signal_min_gap = 150;
  to_lowercase = λ s. s;
  split_whitespace = λ s. split_on b' ' s;
  is_alphabetic = λ c. ltb 64 c;
  chunk_document_for_path = λ path body. record { text = body; pos = 0 } ∷ [];
  first_chunk = λ body. body;
  check = λ stage w. (done tt, suc w);
  list_collections = pure [];
  active_document_ids = λ names. pure (0 ∷ 1 ∷ []);
  search_fts_scoped = λ query limit scope ids. pure (
      take limit (
        record { filepath = codes "n/a"; doc_id = 0; score = 500 }
        ∷ record { filepath = codes "n/b"; doc_id = 1; score = 400 }
        ∷ []));
  hnsw_size = λ w. 2;
  hnsw_search = λ embedding k. pure (take k ((1, 900) ∷ (0, 100) ∷ []));
  load_exclusions = pure tt;
  doc_chunk_for_vid = λ vid scope exclusions. pure (some (document vid, 0));
  embed_query = λ s. pure 0;
  embed_passage = λ s. pure 0;
  can_generate = true;
  generate_expansion = λ prompt w. (done (codes "lex: hen"), w);
  can_rerank = true;
  rerank_cached = λ query chunks soft w. (done (some (map (λ c. 600) chunks)), w);
  remember_rerank_scores = λ query chunks scores w. w;
  document_by_filepath =
      λ collection path. pure (some (document (if bytes_eq path (codes "a") then 0 else 1)));
  document_by_id = λ i. pure (some (document i));
  document_raw = λ i. pure (some (raw_of i));
  context_for_path = λ collection path w. none;
  document_mtime_ns = λ collection path. pure none;
  now = λ w. w;
  factor = λ age. 1000;
}

abbrev options : SearchOptions
options = record { per_file = 1; recency = false }

similar_to_hash-IsSimilar_example :
    Holds
      (IsSimilar (codes "n/a") 5)
      (similar_to_hash env
        (λ hash. pure (0 ∷ []))
        (λ vid. pure 0)
        (codes "01234567")
        (codes "n")
        (codes "a")
        5
        0).0
similar_to_hash-IsSimilar_example =
    similar_to_hash-IsSimilar env (λ hash. pure (0 ∷ [])) (λ vid. pure 0) (codes "01234567")
      (codes "n") (codes "a") 5 0

retrieve_ranked_lists-InStep_example :
    Holds InStep
      (retrieve_ranked_lists env 20 none (parse_query (codes "red")) none (codes "red") false 0).0
retrieve_ranked_lists-InStep_example =
    retrieve_ranked_lists-InStep env 20 none (parse_query (codes "red")) none (codes "red") false 0

widen-Found-ranked_round-document_round_example :
    Ensures
      (Found (ranked_round env 0 none tt) length 1 2)
      (widen (ranked_round env 0 none tt) length 1 2 4 1)
    × Ensures
        (Found (document_round env 0 none tt) length 1 2)
        (widen (document_round env 0 none tt) length 1 2 4 4)
widen-Found-ranked_round-document_round_example =
    widen-Found-ranked_round-document_round env 0 1 none tt 2 1

-- The document that is asked for is left out.
similar_to_the_first :
    (similar_to_hash env
      (λ hash. pure (0 ∷ []))
      (λ vid. pure 0)
      (codes "01234567")
      (codes "n")
      (codes "a")
      5
      0).0
    ≡ done (
        record {
          file = codes "rqmd://n/b";
          title = codes "T";
          body = codes "red hen";
          best_chunk = codes "red hen";
          best_chunk_pos = 0;
          score = 900;
          docid = codes "012345";
          collection = codes "n";
          path = codes "b";
          context = none;
        }
        ∷ [])
unfolding similar_to_hash bytes_eq
similar_to_the_first = refl

-- The vector of the second document is the nearest.
nearest_document :
    (search_vec_multi_with env (λ ms. ms) (codes "red") 1 none options 0).0
    ≡ done (
        ok (
          record {
            file = codes "rqmd://n/b";
            title = codes "T";
            body = codes "red hen";
            best_chunk = codes "red hen";
            best_chunk_pos = 0;
            score = 900;
            docid = codes "012345";
            collection = codes "n";
            path = codes "b";
            context = none;
          }
          ∷ []))
unfolding search_vec_multi_with bytes_eq rqmd.Store.Search.clamp_per_file
nearest_document = refl

abbrev candidates : List (Candidate ℕ)
candidates =
    record {
      result = record { filepath = codes "n/a"; title = []; backend_score = 30 };
      hash = [];
      body = codes "red fox";
    }
    ∷ []

abbrev pick : ℕ → ℕ → Pick ℕ
pick doc rank = record {
  filepath = codes "n/a";
  doc = doc;
  rank = rank;
  score = 1;
  chunk = ([], 0);
}

abbrev pick_docs_of_test : List PickDoc
pick_docs_of_test =
    record { title = codes "A"; hash = []; body = codes "x" }
    ∷ record { title = codes "B"; hash = []; body = codes "y" }
    ∷ []

-- The first document is used twice, around the second.
picks_to_results-clone_picks_example :
    picks_to_results (λ c p. none) pick_docs_of_test (pick 0 0 ∷ pick 1 0 ∷ pick 0 1 ∷ [])
    ≡ clone_picks (λ c p. none) pick_docs_of_test (pick 0 0 ∷ pick 1 0 ∷ pick 0 1 ∷ [])
picks_to_results-clone_picks_example =
    picks_to_results-clone_picks (λ c p. none) pick_docs_of_test
      (pick 0 0 ∷ pick 1 0 ∷ pick 0 1 ∷ [])

small_tests :
    (recency_pool 10 ≡ 40)
    × (recency_pool 100 ≡ 200)
    × (recency_pool 300 ≡ 300)
    × (keyword_terms (λ s. s) (λ s. split_on b' ' s) (codes "-not \"fox hen\" of")
        ≡ codes "fox" ∷ codes "hen" ∷ [])
    × (nearest_chunk
          (record { text = codes "p"; pos = 0 } ∷ record { text = codes "q"; pos = 9 } ∷ [])
          7
        ≡ (codes "q", 9))
    × (uncovered_text
          (record { text = codes "cdef"; pos = 2 })
          (record { text = codes "abcd"; pos = 0 } ∷ [])
        ≡ codes "ef")
    × (split_filepath (codes "n/a/b") ≡ (codes "n", codes "a/b"))
unfolding recency_pool keyword_terms split_on rqmd.Text.starts_with nearest_chunk uncovered_text
    rqmd.Text.slice rqmd.Text.is_char_boundary split_filepath
small_tests = (refl, refl, refl, refl, refl, refl, refl)

-- Of two chunks that both hold the word, the later is first, and the other is left out when it adds nothing.
best_of_two :
    best_chunks
      (λ s. s)
      (record { text = codes "fox ab"; pos = 0 } ∷ record { text = codes "ab fox"; pos = 4 } ∷ [])
      (codes "ab" ∷ [])
      2
    ≡ (codes "ab fox", 4) ∷ []
unfolding best_chunks rqmd.Text.slice rqmd.Text.is_char_boundary
best_of_two = refl

japanese_is_cjk :
    (dominant_script (λ c. ltb 64 c) (codes "Rust " ++ 0xe6 ∷ 0x89 ∷ 0x80 ∷ 0xe6 ∷ 0x9c ∷ 0x89 ∷ [])
      ≡ cjk)
    × (expansion_language_mismatch (λ c. ltb 64 c) (codes "fox") (0xe6 ∷ 0x89 ∷ 0x80 ∷ []) ≡ true)
unfolding dominant_script expansion_language_mismatch
japanese_is_cjk = (refl, refl)

-- A leap day of a year that 400 divides.
date_time-IsTime_example : IsTime 951782400 (date_time 951782400)
date_time-IsTime_example = date_time-IsTime 951782400

leap_day_text : format_rfc3339 951786061 ≡ codes "2000-02-29T01:01:01Z"
unfolding format_rfc3339
leap_day_text = refl
