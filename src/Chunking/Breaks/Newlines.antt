-- ===== src/Chunking/Breaks/Newlines.antt =====
-- The break points are the newlines outside the fences.
use rqmd.Common.{
  ℕ, zero, suc, ◌+◌, ◌-◌, ◌≤◌, ◌≡◌, ◌≢◌, ◌↔◌, refl, sym, ap, ◌∙◌, Bool, true, false, Option, none,
  some, List, [], ◌∷◌, arith, ◌==◌, if◌then◌else◌, Bool-cases, Option-cases, get_elem?, take, ◌++◌,
  inl, inr,
}
use rqmd.Text.{Bytes, newline}
use rqmd.Chunking.{CodeFenceRegion}
use rqmd.Chunking.Patterns.{Pattern, line, find_from, find_iter, match_len, break_patterns}
use rqmd.Chunking.Breaks.{inside_fence, scan_break_points}
use rqmd.Chunking.Breaks.Scan.{score_at, starts_at, raise, highest, scan_break_points_lem}

-- Whether the byte at an index is a newline.
abbrev pub newline_at : Bytes → ℕ → Bool
newline_at [] p = false
newline_at (b ∷ s) zero = b == newline
newline_at (b ∷ s) (suc p) = newline_at s p

pub get_elem?-newline_at :
    (t : Bytes) (p : ℕ) → newline_at t p ≡ true → get_elem? t p ≡ some newline
get_elem?-newline_at [] p h = cc
get_elem?-newline_at (b ∷ s) zero h = ground arith
get_elem?-newline_at (b ∷ s) (suc p) h = get_elem?-newline_at s p h

behind :
    (off q b : ℕ) (s : Bytes)
    → (off + 1 ≤ q) × (newline_at s (q - (off + 1)) ≡ true)
    → (off ≤ q) × (newline_at (b ∷ s) (q - off) ≡ true)
behind off q b s (le, h) =
    let e : q - off ≡ suc (q - (off + 1)) = omega arith in (omega arith, rw e h)

find_from-none :
    (m : Bytes → Option ℕ) (off b : ℕ) (s : Bytes)
    → m (b ∷ s) ≡ none
    → find_from m 0 off (b ∷ s) ≡ find_from m 0 (off + 1) s
unfolding find_from
find_from-none m off b s e = rw (e, find_from)

find_from-some :
    (m : Bytes → Option ℕ) (off b n : ℕ) (s : Bytes)
    → m (b ∷ s) ≡ some n
    → find_from m 0 off (b ∷ s)
      ≡ record { start = off; end = off + n } ∷ find_from m (n - 1) (off + 1) s
unfolding find_from
find_from-some m off b n s e = rw (e, find_from)

module _ (digit_len : Bytes → ℕ) where
  match_len-newline :
      (pattern' : Pattern) (b n : ℕ) (s : Bytes)
      → match_len digit_len pattern' (b ∷ s) ≡ some n
      → (b == newline) ≡ true
  unfolding match_len
  match_len-newline pattern' b n s h = ground arith

  -- The found start, seen from the text that is left to search.
  starts_at-newline :
      (pattern' : Pattern) (q k off : ℕ) (t : Bytes)
      → starts_at q (find_from (match_len digit_len pattern') k off t) ≡ true
      → (off ≤ q) × (newline_at t (q - off) ≡ true)
  unfolding find_from starts_at
  starts_at-newline pattern' q k off [] h = cc
  starts_at-newline pattern' q (suc k) off (b ∷ s) h =
      behind off q b s (starts_at-newline pattern' q k (off + 1) s h)
  starts_at-newline pattern' q zero off (b ∷ s) h =
      elim (Option-cases (match_len digit_len pattern' (b ∷ s))) [
        | inl e ↦
            behind off q b s
              (starts_at-newline pattern' q 0 (off + 1) s (rw (find_from-none _ off b s e) at h))
        | inr (n, e) ↦
            first n e (rw (find_from-some _ off b n s e) at h)
              (λ h'. behind off q b s (starts_at-newline pattern' q (n - 1) (off + 1) s h'))
      ]
    where
      first :
          (n : ℕ)
          → match_len digit_len pattern' (b ∷ s) ≡ some n
          → (if off == q
              then true
              else starts_at q (find_from (match_len digit_len pattern') (n - 1) (off + 1) s))
            ≡ true
          → (starts_at q (find_from (match_len digit_len pattern') (n - 1) (off + 1) s) ≡ true
              → (off ≤ q) × (newline_at (b ∷ s) (q - off) ≡ true))
          → (off ≤ q) × (newline_at (b ∷ s) (q - off) ≡ true)
      first n e h' later = elim (Bool-cases (off == q)) [
        | inl same ↦
            let z : q - off ≡ 0 = ground arith in
            (ground arith, rw z (match_len-newline pattern' b n s e))
        | inr other ↦ later (rw other at h')
      ]

  match_len-line :
      (b : ℕ) (s : Bytes)
      → match_len digit_len line (b ∷ s) ≡ (if b == newline then some 1 else none)
  unfolding match_len
  match_len-line b s = refl

  starts_at-line :
      (q p off : ℕ) (t : Bytes)
      → off + p ≡ q
      → newline_at t p ≡ true
      → starts_at q (find_from (match_len digit_len line) 0 off t) ≡ true
  unfolding starts_at
  starts_at-line q p off [] e h = cc
  starts_at-line q zero off (b ∷ s) e h =
      rw (find_from-some _ off b 1 s (match_len-line b s ∙ rw h)) (ground arith)
  starts_at-line q (suc p) off (b ∷ s) e h = elim (Bool-cases (b == newline)) [
    | inl n ↦
        rw (find_from-some _ off b 1 s (match_len-line b s ∙ rw n)) (elim (Bool-cases (off == q)) [
          | inl same ↦ rw same
          | inr other ↦ rw other (starts_at-line q p (off + 1) s (omega arith) h)
        ])
    | inr n ↦
        rw (find_from-none _ off b s (match_len-line b s ∙ rw n))
          (starts_at-line q p (off + 1) s (omega arith) h)
  ]

  starts_at-find_iter :
      (pattern' : Pattern) (p : ℕ) (t : Bytes)
      → newline_at t p ≡ false
      → starts_at p (find_iter (match_len digit_len pattern') t) ≡ false
  unfolding find_iter
  starts_at-find_iter pattern' p t no_line =
      elim (Bool-cases (starts_at p (find_from (match_len digit_len pattern') 0 0 t))) [
        | inl h ↦
            let e : p - 0 ≡ p = omega arith in
            cc ((starts_at-newline pattern' p 0 0 t h).1, ap (newline_at t) e)
        | inr h ↦ h
      ]

  highest-none :
      (t : Bytes) (fences : List CodeFenceRegion) (p : ℕ) (patterns : List (Pattern × ℕ))
      → newline_at t p ≡ false
      → highest digit_len t fences p none patterns ≡ none
  highest-none t fences p [] h = refl
  highest-none t fences p ((q, s) ∷ patterns) h =
      rw (starts_at-find_iter q p t h) (highest-none t fences p patterns h)

raise-ne-none : (o : Option ℕ) (s : ℕ) → raise o s ≢ none
raise-ne-none none s = λ h. cc
raise-ne-none (some a) s = λ h. ground arith

module _ (digit_len : Bytes → ℕ) (t : Bytes) (fences : List CodeFenceRegion) where
  line_starts :
      (p : ℕ) → newline_at t p ≡ true → starts_at p (find_iter (match_len digit_len line) t) ≡ true
  unfolding find_iter
  line_starts p h = starts_at-line digit_len p p 0 t (omega arith) h

  -- Whatever the patterns before, `line` as the last one leaves an entry.
  line_last :
      (p : ℕ) (before : List (Pattern × ℕ)) (o : Option ℕ)
      → newline_at t p ≡ true
      → highest digit_len t fences p o (before ++ (line, 1) ∷ []) ≢ none
  line_last p [] o h = rw (line_starts p h) (raise-ne-none o 1)
  line_last p ((q, s) ∷ before) o h =
      line_last p before
        (if starts_at p (find_iter (match_len digit_len q) t) then raise o s else o) h

  highest-ne-none :
      (p : ℕ) → newline_at t p ≡ true → highest digit_len t fences p none break_patterns ≢ none
  highest-ne-none p h = line_last p (take 11 break_patterns) none h

  -- The break points of a text are its newlines outside the fences, no more and no fewer.
  pub scan_break_points-newlines :
      (p : ℕ)
      → (score_at p (scan_break_points digit_len t fences) ≢ none)
        ↔ ((newline_at t p ≡ true) × (inside_fence p fences ≡ false))
  scan_break_points-newlines p =
      let e = (scan_break_points_lem digit_len t fences).1 p in
      elim (Bool-cases (inside_fence p fences)) [
        | inl inside ↦ (λ h. absurd (h (e ∙ rw inside)), λ h. cc)
        | inr outside ↦ elim (Bool-cases (newline_at t p)) [
          | inl n ↦ (λ h. (n, outside), λ h z. highest-ne-none p n (sym (e ∙ rw outside) ∙ z))
          | inr n ↦ (
            λ h. absurd (h (e ∙ rw outside (highest-none digit_len t fences p break_patterns n))),
            λ h. cc,
          )
        ]
      ]
