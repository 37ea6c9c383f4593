-- ===== src/Text/Utf8.antt =====
-- What `str` guarantees of its bytes, and how near the character boundaries lie.
use rqmd.Common.{
  ℕ, zero, suc, ◌+◌, ◌≤◌, ◌<◌, ◌≡◌, refl, sym, true, some, [], ◌∷◌, arith, length, get_elem?,
}
use rqmd.Text.{Bytes, newline, boundary_at, is_char_boundary}

abbrev IsTail : ℕ → Type 0
IsTail b = (128 ≤ b) × (b < 192)

-- Sequences of one to four bytes. (The second byte of some sequences is narrower still in UTF-8.)
pub data Utf8 : Bytes → Type 0 where
  done : Utf8 []
  one : (a : ℕ) {s : Bytes} → a < 128 → Utf8 s → Utf8 (a ∷ s)
  two : (a b : ℕ) {s : Bytes} → (194 ≤ a) × (a < 224) → IsTail b → Utf8 s → Utf8 (a ∷ b ∷ s)
  three :
      (a b c : ℕ) {s : Bytes}
      → (224 ≤ a) × (a < 240)
      → IsTail b
      → IsTail c
      → Utf8 s
      → Utf8 (a ∷ b ∷ c ∷ s)
  four :
      (a b c d : ℕ) {s : Bytes}
      → (240 ≤ a) × (a < 245)
      → IsTail b
      → IsTail c
      → IsTail d
      → Utf8 s
      → Utf8 (a ∷ b ∷ c ∷ d ∷ s)

pub boundary_at_start : {t : Bytes} → Utf8 t → boundary_at t 0 ≡ true
unfolding boundary_at
boundary_at_start done = refl
boundary_at_start (one a h r) = ground arith
boundary_at_start (two a b h hb r) = ground arith
boundary_at_start (three a b c h hb hc r) = ground arith
boundary_at_start (four a b c d h hb hc hd r) = ground arith

pub boundary_at_iff : {t : Bytes} (i : ℕ) → Utf8 t → is_char_boundary t i ≡ boundary_at t i
unfolding is_char_boundary
boundary_at_iff zero u = sym (boundary_at_start u)
boundary_at_iff (suc i) u = refl

-- A boundary lies at most three bytes before any index.
pub record Before (t : Bytes) (i : ℕ) : Type 0 where
  pub at : ℕ
  pub le : at ≤ i
  pub near : i ≤ at + 3
  pub is_boundary : boundary_at t at ≡ true

-- A boundary lies at most three bytes behind any index.
pub record After (t : Bytes) (i : ℕ) : Type 0 where
  pub at : ℕ
  pub le : i ≤ at
  pub near : at ≤ i + 3
  pub is_boundary : boundary_at t at ≡ true

here-Before : {t : Bytes} (i : ℕ) → Utf8 t → i ≤ 3 → Before t i
here-Before i u h = record { at = 0; le = omega arith; near = h; is_boundary = boundary_at_start u }

shift-Before : (a : ℕ) {t : Bytes} {i : ℕ} → Before t i → Before (a ∷ t) (suc i)
unfolding boundary_at
shift-Before a b = record {
  at = suc b.at;
  le = omega arith;
  near = omega arith;
  is_boundary = b.is_boundary;
}

shift-After : (a : ℕ) {t : Bytes} {i : ℕ} → After t i → After (a ∷ t) (suc i)
unfolding boundary_at
shift-After a b = record {
  at = suc b.at;
  le = omega arith;
  near = omega arith;
  is_boundary = b.is_boundary;
}

pub boundary-Before : {t : Bytes} (i : ℕ) → Utf8 t → i ≤ length t → Before t i
boundary-Before zero u h = here-Before 0 u (omega arith)
boundary-Before (suc i) done h = absurd (omega arith)
boundary-Before (suc i) (one a p r) h = shift-Before a (boundary-Before i r (omega arith))
boundary-Before (suc zero) (two a b p q r) h = here-Before 1 (two a b p q r) (omega arith)
boundary-Before (suc (suc i)) (two a b p q r) h =
    shift-Before a (shift-Before b (boundary-Before i r (omega arith)))
boundary-Before (suc zero) (three a b c p q q' r) h =
    here-Before 1 (three a b c p q q' r) (omega arith)
boundary-Before (suc (suc zero)) (three a b c p q q' r) h =
    here-Before 2 (three a b c p q q' r) (omega arith)
boundary-Before (suc (suc (suc i))) (three a b c p q q' r) h =
    shift-Before a (shift-Before b (shift-Before c (boundary-Before i r (omega arith))))
boundary-Before (suc zero) (four a b c d p q q' q'' r) h =
    here-Before 1 (four a b c d p q q' q'' r) (omega arith)
boundary-Before (suc (suc zero)) (four a b c d p q q' q'' r) h =
    here-Before 2 (four a b c d p q q' q'' r) (omega arith)
boundary-Before (suc (suc (suc zero))) (four a b c d p q q' q'' r) h =
    here-Before 3 (four a b c d p q q' q'' r) (omega arith)
boundary-Before (suc (suc (suc (suc i)))) (four a b c d p q q' q'' r) h =
    shift-Before a
      (shift-Before b (shift-Before c (shift-Before d (boundary-Before i r (omega arith)))))

here-After : {t : Bytes} (i : ℕ) → boundary_at t i ≡ true → After t i
here-After i h = record { at = i; le = omega arith; near = omega arith; is_boundary = h }

-- The boundary behind a character, seen from a byte of it at most three bytes before.
next-After : (i k : ℕ) {t : Bytes} → i ≤ k → k ≤ i + 3 → boundary_at t k ≡ true → After t i
next-After i k h n e = record { at = k; le = h; near = n; is_boundary = e }

pub boundary-After : {t : Bytes} (i : ℕ) → Utf8 t → i ≤ length t → After t i
unfolding boundary_at
boundary-After zero u h = here-After 0 (boundary_at_start u)
boundary-After (suc i) done h = absurd (omega arith)
boundary-After (suc i) (one a p r) h = shift-After a (boundary-After i r (omega arith))
boundary-After (suc zero) (two a b p q r) h =
    next-After 1 2 (omega arith) (omega arith) (boundary_at_start r)
boundary-After (suc (suc i)) (two a b p q r) h =
    shift-After a (shift-After b (boundary-After i r (omega arith)))
boundary-After (suc zero) (three a b c p q q' r) h =
    next-After 1 3 (omega arith) (omega arith) (boundary_at_start r)
boundary-After (suc (suc zero)) (three a b c p q q' r) h =
    next-After 2 3 (omega arith) (omega arith) (boundary_at_start r)
boundary-After (suc (suc (suc i))) (three a b c p q q' r) h =
    shift-After a (shift-After b (shift-After c (boundary-After i r (omega arith))))
boundary-After (suc zero) (four a b c d p q q' q'' r) h =
    next-After 1 4 (omega arith) (omega arith) (boundary_at_start r)
boundary-After (suc (suc zero)) (four a b c d p q q' q'' r) h =
    next-After 2 4 (omega arith) (omega arith) (boundary_at_start r)
boundary-After (suc (suc (suc zero))) (four a b c d p q q' q'' r) h =
    next-After 3 4 (omega arith) (omega arith) (boundary_at_start r)
boundary-After (suc (suc (suc (suc i)))) (four a b c d p q q' q'' r) h =
    shift-After a (shift-After b (shift-After c (shift-After d (boundary-After i r (omega arith)))))

pub boundary_at_end : (t : Bytes) → boundary_at t (length t) ≡ true
unfolding boundary_at
boundary_at_end [] = refl
boundary_at_end (a ∷ t) = boundary_at_end t

-- A character begins, or the text ends, behind a newline.
pub boundary_behind_newline :
    {t : Bytes} (i : ℕ) → Utf8 t → get_elem? t i ≡ some newline → boundary_at t (suc i) ≡ true
unfolding boundary_at
boundary_behind_newline i done h = ground arith
boundary_behind_newline zero (one a p r) h = boundary_at_start r
boundary_behind_newline (suc i) (one a p r) h = boundary_behind_newline i r h
boundary_behind_newline zero (two a b p q r) h = ground arith
boundary_behind_newline (suc zero) (two a b p q r) h = ground arith
boundary_behind_newline (suc (suc i)) (two a b p q r) h = boundary_behind_newline i r h
boundary_behind_newline zero (three a b c p q q' r) h = ground arith
boundary_behind_newline (suc zero) (three a b c p q q' r) h = ground arith
boundary_behind_newline (suc (suc zero)) (three a b c p q q' r) h = ground arith
boundary_behind_newline (suc (suc (suc i))) (three a b c p q q' r) h = boundary_behind_newline i r h
boundary_behind_newline zero (four a b c d p q q' q'' r) h = ground arith
boundary_behind_newline (suc zero) (four a b c d p q q' q'' r) h = ground arith
boundary_behind_newline (suc (suc zero)) (four a b c d p q q' q'' r) h = ground arith
boundary_behind_newline (suc (suc (suc zero))) (four a b c d p q q' q'' r) h = ground arith
boundary_behind_newline (suc (suc (suc (suc i)))) (four a b c d p q q' q'' r) h =
    boundary_behind_newline i r h
