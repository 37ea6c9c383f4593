-- ===== src/Frontmatter/Closing.antt =====
-- Lines of a text by their offsets.
use rqmd.Common.{
  ltb, ltb→lt, Bool, false, true, ◌⊎◌, inl, inr, ℕ, zero, suc, ◌+◌, ◌-◌, ◌≤◌, ◌<◌, ◌≡◌, refl, sym,
  ap, ◌∙◌, ◌⊎◌, inl, inr, true, Bool-cases, Option, none, some, Option-cases, [], ◌∷◌, arith, ◌==◌,
  ==_iff, length, get_elem?, take, drop, get_elem?-drop,
}
use rqmd.Text.{Bytes, bytes_eq, codes, newline, boundary_at, is_continuation}
use rqmd.Frontmatter.{find_byte, trim_end_returns}

pub some_eq : {a c : ℕ} → some a ≡ some c → a ≡ c
some_eq k = cc

pub find_byte-newline :
    (s : Bytes) (i : ℕ) → find_byte newline s ≡ some i → get_elem? s i ≡ some newline
unfolding find_byte
find_byte-newline [] i h = absurd (cc)
find_byte-newline (b ∷ s) i h = elim (Bool-cases (b == newline)) [
  | inl e ↦
      let q : 0 ≡ i = some_eq (rw e at h) in
      ap (get_elem? (b ∷ s)) (sym q) ∙ ap some ((==_iff b newline).0 e)
  | inr e ↦ elim (Option-cases (find_byte newline s)) [
    | inl f ↦ absurd (let n = rw (e, f) at h in cc)
    | inr (j, f) ↦
        let q : suc j ≡ i = some_eq (rw (e, f) at h) in
        ap (get_elem? (b ∷ s)) (sym q) ∙ find_byte-newline s j f
  ]
]

pub newline_boundary : (t : Bytes) (i : ℕ) → get_elem? t i ≡ some newline → boundary_at t i ≡ true
unfolding boundary_at is_continuation
newline_boundary [] i h = absurd (cc)
newline_boundary (b ∷ t) zero h = ground arith
newline_boundary (b ∷ t) (suc i) h = newline_boundary t i h

pub take_all_of : (s : Bytes) (n : ℕ) → length s ≤ n → take n s ≡ s
take_all_of [] zero h = refl
take_all_of [] (suc n) h = refl
take_all_of (x ∷ s) zero h = absurd (omega arith)
take_all_of (x ∷ s) (suc n) h = ap (λ r. x ∷ r) (take_all_of s n (omega arith))

-- The line that a text begins with.
abbrev first_line : Option ℕ → Bytes → Bytes
first_line none s = s
first_line (some i) s = take i s

-- Whether the line from an offset on closes a fence.
abbrev pub closes_at : Bytes → ℕ → Bool
closes_at raw p =
    bytes_eq (trim_end_returns (first_line (find_byte newline (drop p raw)) (drop p raw)))
      (codes "---")

-- Where the lines of a block begin that begins at `from`.
abbrev pub IsStart : Bytes → ℕ → ℕ → Type 0
IsStart raw from p = (p ≡ from) ⊎ ((q : ℕ) × (p ≡ suc q) × (get_elem? raw q ≡ some newline))

-- No line of the block that begins below an offset closes it.
abbrev pub NoFence : Bytes → ℕ → ℕ → Type 0
NoFence raw from to = (p : ℕ) → from ≤ p → p < to → IsStart raw from p → closes_at raw p ≡ false

find_byte_first :
    (s : Bytes) (j : ℕ)
    → get_elem? s j ≡ some newline
    → (i : ℕ) × (find_byte newline s ≡ some i) × (i ≤ j)
unfolding find_byte
find_byte_first [] j h = absurd (cc)
find_byte_first (b ∷ s) zero h =
    let e : (b == newline) ≡ true = (==_iff b newline).1 (some_eq h) in (0, rw e refl, omega arith)
find_byte_first (b ∷ s) (suc j) h = elim (Bool-cases (b == newline)) [
  | inl e ↦ (0, rw e refl, omega arith)
  | inr e ↦ let (i, f, l) = find_byte_first s j h in (suc i, rw (e, f) refl, omega arith)
]

-- No line begins within a line.
no_newline_before :
    (raw : Bytes) (pos q i : ℕ)
    → find_byte newline (drop pos raw) ≡ some i
    → pos ≤ q
    → get_elem? raw q ≡ some newline
    → pos + i ≤ q
no_newline_before raw pos q i f h k =
    let (j, g, l) =
      find_byte_first (drop pos raw) (q - pos)
        (get_elem?-drop pos (q - pos) q raw (omega arith) ∙ k) in
    omega (arith, some_eq (sym f ∙ g))

pub NoFence-line :
    (raw : Bytes) (from pos i : ℕ)
    → from ≤ pos
    → find_byte newline (drop pos raw) ≡ some i
    → closes_at raw pos ≡ false
    → NoFence raw from pos
    → NoFence raw from (suc (pos + i))
NoFence-line raw from pos i h f c n p l k st = elim (Bool-cases (ltb p pos)) [
  | inl e ↦ n p l (ltb→lt p pos e) st
  | inr e ↦ elim (Bool-cases (p == pos)) [
    | inl d ↦ ap (closes_at raw) ((==_iff p pos).0 d) ∙ c
    | inr d ↦
        let lt : pos < p = ground arith in
        elim st [
          | inl q ↦ absurd (omega arith)
          | inr (q, r, g) ↦ absurd (omega (arith, no_newline_before raw pos q i f (omega arith) g))
        ]
  ]
]

pub NoFence-last :
    (raw : Bytes) (from pos to : ℕ)
    → from ≤ pos
    → find_byte newline (drop pos raw) ≡ none
    → closes_at raw pos ≡ false
    → NoFence raw from pos
    → NoFence raw from to
NoFence-last raw from pos to h f c n p l k st = elim (Bool-cases (ltb p pos)) [
  | inl e ↦ n p l (ltb→lt p pos e) st
  | inr e ↦ elim (Bool-cases (p == pos)) [
    | inl d ↦ ap (closes_at raw) ((==_iff p pos).0 d) ∙ c
    | inr d ↦
        let lt : pos < p = ground arith in
        elim st [
          | inl q ↦ absurd (omega arith)
          | inr (q, r, g) ↦
              let (j, x, y) =
                find_byte_first (drop pos raw) (q - pos)
                  (get_elem?-drop pos (q - pos) q raw (omega arith) ∙ g) in
              absurd (let z = sym f ∙ x in cc)
        ]
  ]
]
