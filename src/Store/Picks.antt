-- ===== src/Store/Picks.antt =====
-- crates/rqmd-core/src/store.rs: the sections chosen for a result, their order, and the results they become.
use rqmd.Common.{
  ℕ, zero, suc, ◌*◌, Bool, false, Option, none, some, List, [], ◌∷◌, ◌++◌, ltb, ◌==◌, if◌then◌else◌,
  take, drop, min, max,
}
use rqmd.Text.{Bytes, Run, ok, panic, out_of_fuel, codes, ◌>>=◌}
use rqmd.Frontmatter.{find_byte}
use rqmd.Rrf.{Floats, less, equal, greater, unordered, score_desc_then_path}
use rqmd.Text.{bytes_eq}
use rqmd.Store.Sections.{Section}
use rqmd.Store.Ordered.{sort_scores}

-- `split_once('/')`, or the whole path and nothing
unfoldable pub split_filepath : Bytes → Bytes × Bytes
unfolding find_byte
split_filepath filepath = elim (find_byte b'/' filepath) [
  | none ↦ (filepath, [])
  | some i ↦ (take i filepath, drop (suc i) filepath)
]

abbrev pub recency_pool_factor : ℕ
recency_pool_factor = 4

abbrev pub recency_pool_cap : ℕ
recency_pool_cap = 200

unfoldable pub recency_pool : ℕ → ℕ
recency_pool limit = max limit (min (limit * recency_pool_factor) recency_pool_cap)

unfoldable pub docid_from_hash : Bytes → Bytes
docid_from_hash hash = take 6 hash

pub record Pick (F : Type 0) : Type 0 where
  pub filepath : Bytes
  pub doc : ℕ
  pub rank : ℕ
  pub score : F
  pub chunk : Section

pub record PickDoc : Type 0 where
  pub title : Bytes
  pub hash : Bytes
  pub body : Bytes

pub record SearchResult (F : Type 0) : Type 0 where
  pub file : Bytes
  pub title : Bytes
  pub body : Bytes
  pub best_chunk : Bytes
  pub best_chunk_pos : ℕ
  pub score : F
  pub docid : Bytes
  pub collection : Bytes
  pub path : Bytes
  pub context : Option Bytes

module _ {F : Type 0} (f : Floats F) where
  -- Whether the scores and paths of two picks tie: then their ranks decide.
  unfoldable pub ties : Pick F → Pick F → Bool
  ties a b = elim (f.partial_cmp b.score a.score) [
    | less ↦ false
    | greater ↦ false
    | equal ↦ bytes_eq a.filepath b.filepath
    | unordered ↦ bytes_eq a.filepath b.filepath
  ]

  unfoldable pub pick_before : Pick F → Pick F → Bool
  unfolding ties score_desc_then_path
  pick_before a b =
      if ties a b
      then ltb a.rank b.rank
      else score_desc_then_path f a.score a.filepath b.score b.filepath

  unfoldable pub sort_picks : List (Pick F) → Run (List (Pick F))
  unfolding pick_before sort_scores
  sort_picks = sort_scores f (λ p. p.score) pick_before

  unfoldable pub rank_picks : List (Pick F) → ℕ → Run (List (Pick F))
  unfolding sort_picks
  rank_picks picks limit = sort_picks picks >>= λ sorted. ok (take limit sorted)

-- The map `left`: how many picks of a document are still to come.
abbrev pub Left : Type 0
Left = List (ℕ × ℕ)

-- `*left.entry(doc).or_default() += 1`
unfoldable pub add_one : ℕ → Left → Left
add_one d [] = (d, 1) ∷ []
add_one d ((k, n) ∷ left) =
    let rest = add_one d left in if k == d then (k, suc n) ∷ left else (k, n) ∷ rest

unfoldable pub count_picks : {F : Type 0} → List (Pick F) → Left → Left
unfolding add_one
count_picks [] left = left
count_picks (p ∷ ps) left = count_picks ps (add_one p.doc left)

unfoldable pub left_of : ℕ → Left → Option ℕ
left_of d [] = none
left_of d ((k, n) ∷ left) = let rest = left_of d left in if k == d then some n else rest

-- `*remaining -= 1` of the entry; `expect` on a document that was not counted is a panic, and so is a count below 0.
unfoldable pub decrement : Option ℕ → Run ℕ
decrement none = panic
decrement (some zero) = panic
decrement (some (suc n)) = ok n

-- The entry of the document, which is there, is overwritten.
unfoldable pub put_left : ℕ → ℕ → Left → Left
put_left d n [] = []
put_left d n ((k, m) ∷ left) =
    let rest = put_left d n left in if k == d then (k, n) ∷ left else (k, m) ∷ rest

-- A slot holds its document until that is taken.
abbrev pub Slots : Type 0
Slots = List (Option PickDoc)

unfoldable pub slots_of : List PickDoc → Slots
slots_of [] = []
slots_of (d ∷ ds) = some d ∷ slots_of ds

-- The index out of range is a panic.
unfoldable pub slot_at : Slots → ℕ → Run (Option PickDoc)
slot_at [] i = panic
slot_at (s ∷ ss) zero = ok s
slot_at (s ∷ ss) (suc i) = slot_at ss i

unfoldable pub clear_slot : Slots → ℕ → Slots
clear_slot [] i = []
clear_slot (s ∷ ss) zero = none ∷ ss
clear_slot (s ∷ ss) (suc i) = s ∷ clear_slot ss i

-- `context` is what is configured for a path, with errors dropped.
module _ {F : Type 0} (context : Bytes → Bytes → Option Bytes) where
  unfoldable pub to_search_result : Pick F → PickDoc → SearchResult F
  unfolding split_filepath docid_from_hash
  to_search_result pick doc =
      let (collection, path) = split_filepath pick.filepath in
      record {
        file = codes "rqmd://" ++ pick.filepath;
        title = doc.title;
        body = doc.body;
        best_chunk = pick.chunk.0;
        best_chunk_pos = pick.chunk.1;
        score = pick.score;
        docid = docid_from_hash doc.hash;
        collection = collection;
        path = path;
        context = context collection path;
      }

  -- The document of a slot that is cloned, or taken when no later pick needs it; `expect` on a slot that is empty is a panic.
  unfoldable pub from_slot :
      Pick F → ℕ → Slots → Run (Option PickDoc) → Run (SearchResult F × Slots)
  unfolding to_search_result clear_slot
  from_slot pick remaining slots panic = panic
  from_slot pick remaining slots out_of_fuel = out_of_fuel
  from_slot pick remaining slots (ok none) = panic
  from_slot pick remaining slots (ok (some doc)) =
      ok (to_search_result pick doc, (if ltb 0 remaining then slots else clear_slot slots pick.doc))

  unfoldable pub cons_result :
      SearchResult F → Run (List (SearchResult F)) → Run (List (SearchResult F))
  cons_result r (ok rs) = ok (r ∷ rs)
  cons_result r panic = panic
  cons_result r out_of_fuel = out_of_fuel

  unfoldable pub after_slot :
      (Slots → Run (List (SearchResult F)))
      → Run (SearchResult F × Slots)
      → Run (List (SearchResult F))
  unfolding cons_result
  after_slot rest panic = panic
  after_slot rest out_of_fuel = out_of_fuel
  after_slot rest (ok (r, slots)) = cons_result r (rest slots)

  -- The loop over the picks.
  unfoldable pub take_picks : List (Pick F) → Left → Slots → Run (List (SearchResult F))
  unfolding left_of decrement put_left slot_at from_slot after_slot
  take_picks [] left slots = ok []
  take_picks (p ∷ ps) left slots = decrement (left_of p.doc left) >>= λ remaining.
      after_slot (take_picks ps (put_left p.doc remaining left))
        (from_slot p remaining slots (slot_at slots p.doc))

  unfoldable pub picks_to_results : List PickDoc → List (Pick F) → Run (List (SearchResult F))
  unfolding count_picks slots_of take_picks
  picks_to_results docs picks = take_picks picks (count_picks picks []) (slots_of docs)

  -- The results of the picks that rank first.
  unfoldable pub ranked_results :
      Floats F → List PickDoc → List (Pick F) → ℕ → Run (List (SearchResult F))
  unfolding rank_picks picks_to_results
  ranked_results f docs picks limit = rank_picks f picks limit >>= picks_to_results docs
