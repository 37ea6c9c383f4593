-- ===== src/Text/Decimal.antt =====
-- Numbers in decimal: `format!("{}", n)` and `str::parse` of an unsigned integer.
use rqmd.Common.{
  ℕ, zero, suc, ◌+◌, ◌-◌, ◌*◌, ◌/◌, ◌%◌, ◌^◌, ◌≤◌, ◌<◌, ◌≡◌, refl, sym, ap, subst, ◌∙◌, ◌&&◌, Bool,
  true, false, Option, none, some, [], ◌∷◌, ◌++◌, append_assoc, append-nil, arith, ltb, leb, ◌==◌,
  if◌then◌else◌, Bool-cases, inl, inr, ltb→lt,
}
use native.Mathlib.Numerals.{unary_clauses}
use rqmd.Text.{Bytes, trim, trim_start, trim_end}
use rqmd.Text.Typed.{IsGraphic, AllGraphic, IsTrimmed, IsTrimmed-append, trim-IsTrimmed}

unfoldable decimal_on : ℕ → ℕ → Bytes
decimal_on zero n = []
decimal_on (suc k) n = (if ltb n 10 then [] else decimal_on k (n / 10)) ++ (48 + n % 10) ∷ []

-- `n.to_string()` of an unsigned integer; 20 digits are enough for a u64.
unfoldable pub decimal : ℕ → Bytes
unfolding decimal_on
decimal n = decimal_on 20 n

abbrev pub is_digit : ℕ → Bool
is_digit b = leb 48 b && leb b 57

-- Digit after digit, with the checks on overflow.
unfoldable parse_digits : ℕ → ℕ → Bytes → Option ℕ
parse_digits limit acc [] = some acc
parse_digits limit acc (b ∷ s) =
    let rest = parse_digits limit (acc * 10 + (b - 48)) s in
    if is_digit b && leb (acc * 10 + (b - 48)) limit then rest else none

-- `s.parse()` for an unsigned type with the greatest value `limit`
unfoldable pub parse_uint : ℕ → Bytes → Option ℕ
unfolding parse_digits
parse_uint limit [] = none
parse_uint limit (b ∷ []) = if b == b'+' then none else parse_digits limit 0 (b ∷ [])
parse_uint limit (b ∷ c ∷ s) =
    if b == b'+' then parse_digits limit 0 (c ∷ s) else parse_digits limit 0 (b ∷ c ∷ s)

parse_digits-digit :
    (limit acc d : ℕ) (rest : Bytes)
    → d < 10
    → acc * 10 + d ≤ limit
    → parse_digits limit acc ((48 + d) ∷ rest) ≡ parse_digits limit (acc * 10 + d) rest
unfolding parse_digits
parse_digits-digit limit acc d rest h l = ground arith

decimal_on-small : (k n : ℕ) → ltb n 10 ≡ true → decimal_on (suc k) n ≡ (48 + n % 10) ∷ []
unfolding decimal_on
decimal_on-small k n h = rw h refl

decimal_on-big :
    (k n : ℕ)
    → ltb n 10 ≡ false
    → decimal_on (suc k) n ≡ decimal_on k (n / 10) ++ (48 + n % 10) ∷ []
unfolding decimal_on
decimal_on-big k n h = rw h refl

tenth : (p n : ℕ) → n < p * 10 → n / 10 < p
tenth p n h = omega arith

below_power : (k n : ℕ) → n < 10 ^ suc k → n / 10 < 10 ^ k
below_power k n h = tenth (10 ^ k) n (simp unary_clauses at h)

parse_digits-decimal_on :
    (limit k n : ℕ) (rest : Bytes)
    → n < 10 ^ k
    → n ≤ limit
    → parse_digits limit 0 (decimal_on k n ++ rest) ≡ parse_digits limit n rest
unfolding parse_digits decimal_on
parse_digits-decimal_on limit zero n rest h l = ap (λ m. parse_digits limit m rest) (omega arith)
parse_digits-decimal_on limit (suc k) n rest h l =
    elim (Bool-cases (ltb n 10))
      as (λ x. parse_digits limit 0 (decimal_on (suc k) n ++ rest) ≡ parse_digits limit n rest) [
        | inl small ↦
            ap (λ r. parse_digits limit 0 (r ++ rest)) (decimal_on-small k n small)
            ∙ parse_digits-digit limit 0 (n % 10) rest (omega arith)
                (omega (arith, ltb→lt n 10 small))
            ∙ ap (λ m. parse_digits limit m rest) (omega (arith, ltb→lt n 10 small))
        | inr big ↦
            ap (λ r. parse_digits limit 0 (r ++ rest)) (decimal_on-big k n big)
            ∙ ap (parse_digits limit 0) (append_assoc (decimal_on k (n / 10)) _ rest)
            ∙ parse_digits-decimal_on limit k (n / 10) ((48 + n % 10) ∷ rest) (below_power k n h)
                (omega arith)
            ∙ parse_digits-digit limit (n / 10) (n % 10) rest (omega arith) (omega arith)
            ∙ ap (λ m. parse_digits limit m rest) (omega arith)
      ]

digit-IsGraphic : (d : ℕ) → d < 10 → IsGraphic (48 + d)
digit-IsGraphic d h = (ground arith, omega arith)

AllGraphic-append : (p s : Bytes) → AllGraphic p → AllGraphic s → AllGraphic (p ++ s)
AllGraphic-append [] s h k = k
AllGraphic-append (a ∷ p) s (g, h) k = (g, AllGraphic-append p s h k)

decimal_on-AllGraphic : (k n : ℕ) → AllGraphic (decimal_on k n)
unfolding decimal_on
decimal_on-AllGraphic zero n = tt
decimal_on-AllGraphic (suc k) n = elim (Bool-cases (ltb n 10)) [
  | inl small ↦ rw small (digit-IsGraphic (n % 10) (omega arith), tt)
  | inr big ↦ rw big (
      AllGraphic-append (decimal_on k (n / 10)) _ (decimal_on-AllGraphic k (n / 10))
        (digit-IsGraphic (n % 10) (omega arith), tt))
]

-- The text of a number begins with a digit.
decimal_on-head :
    (k n : ℕ) → (b : ℕ) × (s : Bytes) × (decimal_on (suc k) n ≡ b ∷ s) × (is_digit b ≡ true)
unfolding decimal_on
decimal_on-head zero n = elim (Bool-cases (ltb n 10)) [
  | inl small ↦ (48 + n % 10, [], rw small refl, ground arith)
  | inr big ↦ (48 + n % 10, [], rw big refl, ground arith)
]
decimal_on-head (suc k) n = elim (Bool-cases (ltb n 10)) [
  | inl small ↦ (48 + n % 10, [], rw small refl, ground arith)
  | inr big ↦
      let (b, s, e, d) = decimal_on-head k (n / 10) in
      (b, s ++ (48 + n % 10) ∷ [], rw big (ap (λ r. r ++ (48 + n % 10) ∷ []) e), d)
]

parse_uint-digit :
    (limit b : ℕ) (s : Bytes)
    → is_digit b ≡ true
    → parse_uint limit (b ∷ s) ≡ parse_digits limit 0 (b ∷ s)
unfolding parse_uint
parse_uint-digit limit b [] h = ground arith
parse_uint-digit limit b (c ∷ s) h = ground arith

parse_uint-decimal_on :
    (limit k n : ℕ) → n < 10 ^ suc k → n ≤ limit → parse_uint limit (decimal_on (suc k) n) ≡ some n
unfolding parse_digits
parse_uint-decimal_on limit k n h l =
    let (b, s, e, d) = decimal_on-head k n in
    ap (parse_uint limit) e
    ∙ parse_uint-digit limit b s d
    ∙ ap (parse_digits limit 0) (sym (append-nil (b ∷ s)) ∙ ap (λ r. r ++ []) (sym e))
    ∙ parse_digits-decimal_on limit (suc k) n [] h l

-- A number is read back as it was written.
pub parse_uint-decimal :
    (limit n : ℕ) → n < 10 ^ 20 → n ≤ limit → parse_uint limit (decimal n) ≡ some n
unfolding decimal
parse_uint-decimal limit n = parse_uint-decimal_on limit 19 n

decimal_on-IsTrimmed : (k n : ℕ) → IsTrimmed (decimal_on (suc k) n)
unfolding trim_start trim_end
decimal_on-IsTrimmed k n =
    let (b, s, e, d) = decimal_on-head k n in
    let g = subst AllGraphic e (decimal_on-AllGraphic (suc k) n) in
    subst IsTrimmed (ap (λ r. b ∷ r) (append-nil s) ∙ sym e)
      (IsTrimmed-append b s [] g (refl, refl))

pub trim-decimal : (n : ℕ) → trim (decimal n) ≡ decimal n
unfolding decimal
trim-decimal n = trim-IsTrimmed (decimal_on 20 n) (decimal_on-IsTrimmed 19 n)
