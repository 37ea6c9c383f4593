-- ===== src/Exclusions/Commas.antt =====
-- The alternatives of a mask.
use rqmd.Common.{
  ℕ, suc, ◌+◌, ◌≡◌, refl, sym, ap, ap₂, subst, subst₂, if◌then◌else◌, ◌∙◌, Bool, true, false, ◌&&◌,
  ◌||◌, List, [], ◌∷◌, arith, ◌==◌, Bool-cases, inl, inr,
}
use rqmd.Text.{Bytes}
use rqmd.Text.Lines.{onto_first, join}
use rqmd.Exclusions.{count, split_at_depth, split_top_level_commas}

-- Whether a comma stands outside every brace.
unfoldable pub has_top_comma : ℕ → ℕ → Bytes → Bool
has_top_comma opened closed [] = false
has_top_comma opened closed (b ∷ s) =
    b == b',' && opened == closed || has_top_comma (count b'{' b opened) (count b'}' b closed) s

-- How often a byte stands in a text.
abbrev pub occurrences : ℕ → Bytes → ℕ
occurrences c [] = 0
occurrences c (b ∷ s) = if b == c then suc (occurrences c s) else occurrences c s

-- Pieces of which the first stands behind so many opened and closed braces. None has a comma outside braces, and each but the last leaves as many braces closed as opened.
abbrev pub AllCut : ℕ → ℕ → List Bytes → Type 0
AllCut opened closed [] = ⊥
AllCut opened closed (p ∷ []) = has_top_comma opened closed p ≡ false
AllCut opened closed (p ∷ q ∷ ps) =
    (has_top_comma opened closed p ≡ false)
    × (opened + occurrences b'{' p ≡ closed + occurrences b'}' p)
    × AllCut 0 0 (q ∷ ps)

count-shift : (brace b n k : ℕ) → count brace b (n + k) ≡ count brace b n + k
count-shift brace b n k = elim (Bool-cases (b == brace)) [
  | inl e ↦ rw e (omega arith)
  | inr e ↦ rw e refl
]

eq_shift : (a b k : ℕ) → (a + k == b + k) ≡ (a == b)
eq_shift a b k = ground arith

-- Only the difference of the counts matters.
has_top_comma-shift :
    (k opened closed : ℕ) (s : Bytes)
    → has_top_comma (opened + k) (closed + k) s ≡ has_top_comma opened closed s
unfolding has_top_comma
has_top_comma-shift k opened closed [] = refl
has_top_comma-shift k opened closed (b ∷ s) =
    rw (eq_shift opened closed k, count-shift b'{' b opened k, count-shift b'}' b closed k)
      (ap (λ r. b == b',' && opened == closed || r)
        (has_top_comma-shift k (count b'{' b opened) (count b'}' b closed) s))

-- The first piece, behind braces that are open already, and the others.
record Pieces (opened closed : ℕ) (s : Bytes) (parts : List Bytes) : Type 0 where
  first : Bytes
  others : List Bytes
  is : parts ≡ first ∷ others
  cut : AllCut opened closed (first ∷ others)
  joined : join (b',' ∷ []) (first ∷ others) ≡ s

join-onto :
    (b : ℕ) (sep l : Bytes) (ls : List Bytes) → join sep ((b ∷ l) ∷ ls) ≡ b ∷ join sep (l ∷ ls)
unfolding join
join-onto b sep l [] = refl
join-onto b sep l (k ∷ ls) = refl

no_brace : (brace b n : ℕ) → (b == brace) ≡ false → count brace b n ≡ n
no_brace brace b n h = rw h refl

-- Behind as many opened braces as closed ones a text counts from 0.
from_zero : (k : ℕ) (s : Bytes) → has_top_comma 0 0 s ≡ has_top_comma k k s
from_zero k s = sym (has_top_comma-shift k 0 0 s) ∙ ap (λ n. has_top_comma n n s) (omega arith)

AllCut-shift : (k : ℕ) (p : Bytes) (ps : List Bytes) → AllCut k k (p ∷ ps) → AllCut 0 0 (p ∷ ps)
AllCut-shift k p [] h = from_zero k p ∙ h
AllCut-shift k p (q ∷ ps) (h, e, r) = (from_zero k p ∙ h, omega (arith, e), r)

-- A comma outside every brace ends a piece.
cut_comma :
    (opened closed b : ℕ) (s : Bytes) (rest : List Bytes)
    → (b == b',' && opened == closed) ≡ true
    → Pieces (count b'{' b opened) (count b'}' b closed) s rest
    → Pieces opened closed (b ∷ s) ([] ∷ rest)
unfolding has_top_comma join
cut_comma opened closed b s rest h r =
    let same : opened ≡ closed = ground arith in
    let o : count b'{' b opened ≡ closed = no_brace b'{' b opened (ground arith) ∙ same in
    let c : count b'}' b closed ≡ closed = no_brace b'}' b closed (ground arith) in
    record {
      first = [];
      others = rest;
      is = refl;
      cut =
          subst (λ ps. AllCut opened closed ([] ∷ ps)) (sym r.is)
            (
              refl,
              omega (arith, same),
              AllCut-shift closed r.first r.others
                  (subst₂ (λ n m. AllCut n m (r.first ∷ r.others)) o c r.cut),
            );
      joined = ap (λ x. join (b',' ∷ []) ([] ∷ x)) r.is ∙ ap₂ ◌∷◌ (ground arith) r.joined;
    }

occurrences-count :
    (brace b n : ℕ) (s : Bytes)
    → n + occurrences brace (b ∷ s) ≡ count brace b n + occurrences brace s
occurrences-count brace b n s = elim (Bool-cases (b == brace)) [
  | inl e ↦ rw e (omega arith)
  | inr e ↦ rw e refl
]

AllCut-onto :
    (opened closed b : ℕ) (p : Bytes) (ps : List Bytes)
    → (b == b',' && opened == closed) ≡ false
    → AllCut (count b'{' b opened) (count b'}' b closed) (p ∷ ps)
    → AllCut opened closed ((b ∷ p) ∷ ps)
unfolding has_top_comma
AllCut-onto opened closed b p [] h k = rw h k
AllCut-onto opened closed b p (q ∷ ps) h (k, e, r) =
    (rw h k, occurrences-count b'{' b opened p ∙ e ∙ sym (occurrences-count b'}' b closed p), r)

keep_byte :
    (opened closed b : ℕ) (s : Bytes) (rest : List Bytes)
    → (b == b',' && opened == closed) ≡ false
    → Pieces (count b'{' b opened) (count b'}' b closed) s rest
    → Pieces opened closed (b ∷ s) (onto_first b rest)
keep_byte opened closed b s rest h r = record {
  first = b ∷ r.first;
  others = r.others;
  is = ap (onto_first b) r.is;
  cut = AllCut-onto opened closed b r.first r.others h r.cut;
  joined = join-onto b (b',' ∷ []) r.first r.others ∙ ap (λ x. b ∷ x) r.joined;
}

split_at_depth-Pieces :
    (opened closed : ℕ) (s : Bytes) → Pieces opened closed s (split_at_depth opened closed s)
unfolding split_at_depth has_top_comma join
split_at_depth-Pieces opened closed [] = record {
  first = [];
  others = [];
  is = refl;
  cut = refl;
  joined = refl;
}
split_at_depth-Pieces opened closed (b ∷ s) =
    let r = split_at_depth-Pieces (count b'{' b opened) (count b'}' b closed) s in
    elim (Bool-cases (b == b',' && opened == closed)) [
      | inl e ↦ rw e (cut_comma opened closed b s _ e r)
      | inr e ↦ rw e (keep_byte opened closed b s _ e r)
    ]

-- The alternatives of a mask are it cut at its commas outside braces, and nowhere else: joined by commas they are the mask, none has a comma outside braces, and each but the last has as many closed braces as opened ones.
pub split_top_level_commas_lem :
    (mask : Bytes)
    → (join (b',' ∷ []) (split_top_level_commas mask) ≡ mask)
      × AllCut 0 0 (split_top_level_commas mask)
unfolding split_top_level_commas
split_top_level_commas_lem mask =
    let r = split_at_depth-Pieces 0 0 mask in
    (ap (join (b',' ∷ [])) r.is ∙ r.joined, subst (AllCut 0 0) (sym r.is) r.cut)
