-- ===== src/Resolve/Lockstep.antt =====
-- The index counts the documents that the query's clause matches.
use rqmd.Common.{
  ℕ, suc, ◌+◌, ◌≡◌, refl, sym, ap, ◌∙◌, Bool, true, false, ◌&&◌, ◌||◌, List, [], ◌∷◌, arith, leb,
  ◌==◌, if◌then◌else◌, Bool-cases, inl, inr,
}
use rqmd.Text.{Bytes, bytes_eq}
use rqmd.Text.Equal.{bytes_eq_iff}
use rqmd.Resolve.{
  Document, lowercase, Positions, push_position, positions_of, NeedleIndex, after_slashes,
  push_suffixes, add_key, full_path, add_document, add_documents, new_index, needle_hits,
  count_needle, ends_like, matches_needle,
}
use rqmd.Resolve.Distinct.{has, has-append, holds_at, count_if, count_distinct-count_if}

other_needle :
    (k key needle : Bytes)
    → bytes_eq k key ≡ false
    → bytes_eq k needle ≡ true
    → bytes_eq key needle ≡ false
other_needle k key needle e n = elim (Bool-cases (bytes_eq key needle)) [
  | inl m ↦
      let q : k ≡ key = (bytes_eq_iff k needle).0 n ∙ sym ((bytes_eq_iff key needle).0 m) in
      absurd (let t = (bytes_eq_iff k key).1 q in ground arith)
  | inr m ↦ m
]

has-push_position :
    (j : ℕ) (needle key : Bytes) (i : ℕ) (entries : Positions)
    → has j (positions_of needle (push_position key i entries))
      ≡ (has j (positions_of needle entries) || bytes_eq key needle && i == j)
unfolding push_position positions_of
has-push_position j needle key i [] = ground arith
has-push_position j needle key i ((k, is) ∷ entries) = elim (Bool-cases (bytes_eq k key)) [
  | inl e ↦
      let q : k ≡ key = (bytes_eq_iff k key).0 e in
      ground (arith, has-append j is (i ∷ []), ap (λ r. bytes_eq r needle) q)
  | inr e ↦ elim (Bool-cases (bytes_eq k needle)) [
    | inl n ↦ rw (e, n) (ground (arith, other_needle k key needle e n))
    | inr n ↦ rw (e, n) (has-push_position j needle key i entries)
  ]
]

any_eq : Bytes → List Bytes → Bool
any_eq s [] = false
any_eq s (t ∷ ts) = bytes_eq t s || any_eq s ts

has-push_suffixes :
    (j : ℕ) (needle : Bytes) (ss : List Bytes) (i : ℕ) (entries : Positions)
    → has j (positions_of needle (push_suffixes ss i entries))
      ≡ (has j (positions_of needle entries) || any_eq needle ss && i == j)
unfolding push_suffixes any_eq
has-push_suffixes j needle [] i entries = ground arith
has-push_suffixes j needle (s ∷ ss) i entries = ground (
  arith,
  has-push_suffixes j needle ss i (push_position s i entries),
  has-push_position j needle s i entries,
)

-- Lower case changes no '/'.
lowered_slash : (b : ℕ) → ((if leb b'A' b && leb b b'Z' then b + 32 else b) == b'/') ≡ (b == b'/')
lowered_slash b = ground arith

any_eq-after_slashes :
    (needle s : Bytes)
    → any_eq (lowercase needle) (after_slashes (lowercase s)) ≡ ends_like needle s
unfolding any_eq after_slashes ends_like lowercase
any_eq-after_slashes needle [] = refl
any_eq-after_slashes needle (b ∷ s) = elim (Bool-cases (b == b'/')) [
  | inl e ↦ rw (lowered_slash b, e) (ground (arith, any_eq-after_slashes needle s))
  | inr e ↦ rw (lowered_slash b, e) (any_eq-after_slashes needle s)
]

abbrev hit : ℕ → Bytes → NeedleIndex → Bool
hit j needle index = has j (needle_hits index needle)

abbrev key_matches : Bytes → Bytes → Bool
key_matches needle key = bytes_eq key needle || ends_like needle key

hit-add_key :
    (j : ℕ) (needle : Bytes) (i : ℕ) (key : Bytes) (index : NeedleIndex)
    → hit j needle (add_key i key index) ≡ (hit j needle index || key_matches needle key && i == j)
unfolding needle_hits add_key
hit-add_key j needle i key index =
    let low = lowercase needle in
    ground (
      arith,
      has-append j (positions_of needle (push_position key i index.exact))
          (positions_of low (push_suffixes (after_slashes (lowercase key)) i index.suffix)),
      has-append j (positions_of needle index.exact) (positions_of low index.suffix),
      has-push_position j needle key i index.exact,
      has-push_suffixes j low (after_slashes (lowercase key)) i index.suffix,
      any_eq-after_slashes needle key,
    )

hit-add_document :
    (j : ℕ) (needle : Bytes) (i : ℕ) (doc : Document) (index : NeedleIndex)
    → hit j needle (add_document i doc index)
      ≡ (hit j needle index || matches_needle needle doc && i == j)
unfolding add_document matches_needle
hit-add_document j needle i doc index = ground (
  arith,
  hit-add_key j needle i (full_path doc) (add_key i doc.path index),
  hit-add_key j needle i doc.path index,
)

hit-add_documents :
    (j : ℕ) (needle : Bytes) (i : ℕ) (docs : List Document) (index : NeedleIndex)
    → hit j needle (add_documents i docs index)
      ≡ (hit j needle index || holds_at (matches_needle needle) i docs j)
unfolding add_documents
hit-add_documents j needle i [] index = ground arith
hit-add_documents j needle i (doc ∷ docs) index = ground (
  arith,
  hit-add_documents j needle (suc i) docs (add_document i doc index),
  hit-add_document j needle i doc index,
)

-- For every list of documents and every entry, the index counts as many documents as the query's
-- clause matches, each once, however many of its four arms match.
pub count_needle-count_if :
    (docs : List Document) (needle : Bytes)
    → count_needle (new_index docs) needle ≡ count_if (matches_needle needle) docs
unfolding count_needle new_index
count_needle-count_if docs needle =
    count_distinct-count_if (matches_needle needle) (needle_hits (new_index docs) needle) docs (λ j.
      hit-add_documents j needle 0 docs (record { exact = []; suffix = [] })
      ∙ unfold needle_hits positions_of in refl)
