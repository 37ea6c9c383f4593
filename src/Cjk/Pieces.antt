-- ===== src/Cjk/Pieces.antt =====
-- The pieces of a token cover its text.
use rqmd.Common.{
  ℕ, suc, ◌+◌, ◌-◌, ◌≤◌, ◌<◌, ◌≡◌, refl, sym, ap, subst, ◌∙◌, Bool, true, false, not, List, [], ◌∷◌,
  ◌++◌, arith, ◌==◌, Bool-cases, inl, inr, ◌⊎◌, length, take, drop,
}
use rqmd.Text.{Bytes, Run, ok, ◌>>=◌, slice, is_continuation, boundary_at}
use rqmd.Text.Slices.{slice_ok}
use rqmd.Text.Utf8.{Utf8, boundary_at_iff, boundary_at_end, boundary_at_start}
use rqmd.Cjk.{
  is_cjk, code_point, char_indices, Token, piece, bigrams, flush_run, bool_eq, split_run,
  split_chars, any_cjk, split,
}

-- A piece's text is the token's between its offsets.
pub record IsPiece (source p : Token) (from to : ℕ) : Type 0 where
  pub begins : p.offset_from ≡ source.offset_from + from
  pub ends : p.offset_to ≡ source.offset_from + to
  pub is : slice source.text from to ≡ ok p.text

-- Pieces that cover the text from one offset to another: each begins no further on than the
-- text is covered, and covers more.
pub data Span (source : Token) : ℕ → List Token → ℕ → Type 0 where
  stop : {r : ℕ} → Span source r [] r
  more :
      {r e : ℕ} (p : Token) {ps : List Token} (from to : ℕ)
      → IsPiece source p from to
      → from ≤ r
      → r < to
      → Span source to ps e
      → Span source r (p ∷ ps) e

Span-append :
    {source : Token} {r m e : ℕ} {ps qs : List Token}
    → Span source r ps m
    → Span source m qs e
    → Span source r (ps ++ qs) e
Span-append stop k = k
Span-append (more p from to i h l s) k = more p from to i h l (Span-append s k)

first_byte : (b : ℕ) (s : Bytes) → Utf8 (b ∷ s) → is_continuation b ≡ false
first_byte b s u = let h = boundary_at_start u in unfold boundary_at in ground arith

module _ (token : Token) (u : Utf8 token.text) where
  abbrev Spans : Run (List Token) → ℕ → ℕ → Type 0
  Spans run r e = (ps : List Token) × (run ≡ ok ps) × Span token r ps e

  abbrev IsBoundary : ℕ → Type 0
  IsBoundary i = boundary_at token.text i ≡ true

  -- Rising boundaries below `end`.
  abbrev Rising : ℕ → List ℕ → Type 0
  Rising end [] = Unit
  Rising end (b ∷ []) = IsBoundary b × (b < end)
  Rising end (b ∷ c ∷ bs) = IsBoundary b × (b < c) × Rising end (c ∷ bs)

  Rising-weaken : (e e' : ℕ) (bs : List ℕ) → e ≤ e' → Rising e bs → Rising e' bs
  Rising-weaken e e' [] h r = tt
  Rising-weaken e e' (b ∷ []) h (k, l) = (k, omega arith)
  Rising-weaken e e' (b ∷ c ∷ bs) h (k, l, r) = (k, l, Rising-weaken e e' (c ∷ bs) h r)

  Rising-push :
      (lo i : ℕ) (bs : List ℕ)
      → lo ≤ i
      → IsBoundary i
      → Rising lo bs
      → Rising (suc i) (bs ++ i ∷ [])
  Rising-push lo i [] h k r = (k, omega arith)
  Rising-push lo i (b ∷ []) h k (n, l) = (n, omega arith, (k, omega arith))
  Rising-push lo i (b ∷ c ∷ bs) h k (n, l, r) = (n, l, Rising-push lo i (c ∷ bs) h k r)

  Rising-head : (e b : ℕ) (bs : List ℕ) → Rising e (b ∷ bs) → IsBoundary b
  Rising-head e b [] (n, l) = n
  Rising-head e b (c ∷ bs) (n, l, r) = n

  Rising-last : (e b : ℕ) (bs : List ℕ) → Rising e (b ∷ bs) → b < e
  Rising-last e b [] (n, l) = l
  Rising-last e b (c ∷ bs) (n, l, r) = omega (arith, Rising-last e c bs r)

  abbrev piece_of : ℕ → ℕ → Token
  piece_of from to = record {
    offset_from = token.offset_from + from;
    offset_to = token.offset_from + to;
    position = 0;
    text = take (to - from) (drop from token.text);
    position_length = 1;
  }

  piece_ok :
      (from to : ℕ)
      → from ≤ to
      → to ≤ length token.text
      → IsBoundary from
      → IsBoundary to
      → (p : Token) × (piece token from to ≡ ok p) × IsPiece token p from to
  unfolding piece
  piece_ok from to h k b c =
      let e =
        slice_ok token.text from to h k (boundary_at_iff from u ∙ b) (boundary_at_iff to u ∙ c) in
      (piece_of from to, rw e refl, record { begins = refl; ends = refl; is = e })

  bigrams-Spans :
      (end r b c : ℕ) (bs : List ℕ)
      → IsBoundary end
      → end ≤ length token.text
      → Rising end (b ∷ c ∷ bs)
      → b ≤ r
      → r ≤ c
      → Spans (bigrams token end (b ∷ c ∷ bs)) r end
  unfolding bigrams
  bigrams-Spans end r b c [] i h (n, l, (n', l')) lo hi =
      let (p, e, q) = piece_ok b end (omega arith) h n i in
      (p ∷ [], rw e refl, more p b end q lo (omega arith) stop)
  bigrams-Spans end r b c (d ∷ bs) i h (n, l, (n', l', rs)) lo hi =
      let k : d < end = Rising-last end d bs rs in
      let (p, e, q) = piece_ok b d (omega arith) (omega arith) n (Rising-head end d bs rs) in
      let (ps, es, qs) = bigrams-Spans end d c d bs i h (n', l', rs) (omega arith) (omega arith) in
      (p ∷ ps, rw (e, es) refl, more p b d q lo (omega arith) qs)

  whole :
      (start end : ℕ)
      → IsBoundary end
      → end ≤ length token.text
      → IsBoundary start
      → start < end
      → Spans (do p ← piece token start end; ok (p ∷ [])) start end
  whole start end i h n l =
      let (p, e, q) = piece_ok start end (omega arith) h n i in
      (p ∷ [], rw e refl, more p start end q (omega arith) l stop)

  flush_run-Spans :
      (start end : ℕ) (was : Bool) (bs : List ℕ)
      → IsBoundary end
      → end ≤ length token.text
      → Rising end (start ∷ bs)
      → Spans (flush_run token start end was (start ∷ bs)) start end
  unfolding flush_run
  flush_run-Spans start end false bs i h r =
      whole start end i h (Rising-head end start bs r) (Rising-last end start bs r)
  flush_run-Spans start end true [] i h (n, l) = whole start end i h n l
  flush_run-Spans start end true (c ∷ bs) i h (n, l, r) =
      let many : (length (start ∷ c ∷ bs) == 1) ≡ false = ground arith in
      rw many (bigrams-Spans end start start c bs i h (n, l, r) (omega arith) (omega arith))

  -- Characters from an offset on.
  abbrev Chars : ℕ → List (ℕ × ℕ) → Type 0
  Chars lo [] = lo ≤ length token.text
  Chars lo ((i, c) ∷ cs) = (lo ≤ i) × IsBoundary i × Chars (suc i) cs

  Chars-le : (lo : ℕ) (cs : List (ℕ × ℕ)) → Chars (suc lo) cs → lo ≤ length token.text
  Chars-le lo [] h = omega arith
  Chars-le lo ((i, c) ∷ cs) (l, n, h) = omega (arith, Chars-le i cs h)

  split_run-Spans :
      (lo start : ℕ) (was : Bool) (bs : List ℕ) (cs : List (ℕ × ℕ))
      → Chars lo cs
      → Rising lo (start ∷ bs)
      → Spans (split_run token cs start was (start ∷ bs)) start (length token.text)
  unfolding split_run
  split_run-Spans lo start was bs [] h r =
      flush_run-Spans start (length token.text) was bs (boundary_at_end token.text) (omega arith)
        (Rising-weaken lo (length token.text) (start ∷ bs) h r)
  split_run-Spans lo start was bs ((i, c) ∷ cs) (l, n, h) r =
      elim (Bool-cases (bool_eq (is_cjk c) was)) [
        | inl e ↦ rw e (
            split_run-Spans (suc i) start was (bs ++ i ∷ []) cs h
              (Rising-push lo i (start ∷ bs) l n r))
        | inr e ↦ rw e (
            let (ps, es, ss) =
              flush_run-Spans start i was bs n (Chars-le i cs h)
                (Rising-weaken lo i (start ∷ bs) l r) in
            let (qs, et, ts) = split_run-Spans (suc i) i (is_cjk c) [] cs h (n, omega arith) in
            (ps ++ qs, rw (es, et) refl, Span-append ss ts))
      ]

  Chars-weaken : (lo lo' : ℕ) (cs : List (ℕ × ℕ)) → lo ≤ lo' → Chars lo' cs → Chars lo cs
  Chars-weaken lo lo' [] h k = omega arith
  Chars-weaken lo lo' ((i, c) ∷ cs) h (k, n, r) = (omega arith, n, r)

  char_indices-Chars :
      (i : ℕ) (s : Bytes)
      → ((j : ℕ) → boundary_at s j ≡ boundary_at token.text (i + j))
      → i + length s ≡ length token.text
      → Chars i (char_indices i s)
  unfolding char_indices boundary_at
  char_indices-Chars i [] h e = omega arith
  char_indices-Chars i (b ∷ s) h e =
      let rest =
        char_indices-Chars (suc i) s (λ j. step j ∙ ap (boundary_at token.text) (omega arith))
          (omega (arith, e)) in
      elim (Bool-cases (is_continuation b)) [
        | inl c ↦ rw c (Chars-weaken i (suc i) (char_indices (suc i) s) (omega arith) rest)
        | inr c ↦ rw c (omega arith, here c, rest)
      ]
    where
      step : (j : ℕ) → boundary_at s j ≡ boundary_at token.text (i + suc j)
      step j = h (suc j)

      here : (is_continuation b ≡ false) → IsBoundary i
      here c =
          ap (boundary_at token.text) (omega arith) ∙ sym (h 0) ∙ unfold boundary_at in ap not c

  -- The first character begins at 0.
  split_chars-Spans :
      (s : Bytes)
      → s ≡ token.text
      → any_cjk (char_indices 0 s) ≡ true
      → Spans (split_chars token (char_indices 0 s)) 0 (length token.text)
  unfolding split_chars char_indices any_cjk boundary_at
  split_chars-Spans [] e h = absurd (cc)
  split_chars-Spans (b ∷ s) e h =
      let first : is_continuation b ≡ false = first_byte b s (subst Utf8 (sym e) u) in
      let cs =
        char_indices-Chars 1 s
          (λ j. ap (λ t. boundary_at t (suc j)) e ∙ ap (boundary_at token.text) (omega arith))
          (omega (arith, ap length e)) in
      rw first (
        split_run-Spans 1 0 (is_cjk (code_point b s)) [] (char_indices 1 s) cs
          (boundary_at_start u, omega arith))

-- A token of valid UTF-8 without a CJK character is passed on as it is. Of one with a CJK character
-- the pieces carry the text at their offsets, slicing never panics, and in their order they cover
-- the token's text from end to end.
pub split_lem :
    (token : Token)
    → Utf8 token.text
    → ((any_cjk (char_indices 0 token.text) ≡ false) × (split token ≡ ok (token ∷ [])))
      ⊎ ((any_cjk (char_indices 0 token.text) ≡ true)
          × ((ps : List Token) × (split token ≡ ok ps) × Span token 0 ps (length token.text)))
unfolding split
split_lem token u = elim (Bool-cases (any_cjk (char_indices 0 token.text))) [
  | inl e ↦ inr (e, rw e (split_chars-Spans token u token.text refl e))
  | inr e ↦ inl (e, rw e refl)
]
