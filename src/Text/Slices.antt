-- ===== src/Text/Slices.antt =====
-- When a slice of a text does not panic, and what it holds.
use rqmd.Common.{
  ℕ, ◌-◌, ◌≤◌, ◌≡◌, sym, ◌&&◌, true, arith, leb, length, take, drop, length-take, length-drop,
  le→leb, Bool-cases, inl, inr,
}
use rqmd.Text.{Bytes, ok, panic, slice, is_char_boundary}

pub slice_ok :
    (t : Bytes) (from to : ℕ)
    → from ≤ to
    → to ≤ length t
    → is_char_boundary t from ≡ true
    → is_char_boundary t to ≡ true
    → slice t from to ≡ ok (take (to - from) (drop from t))
unfolding slice
slice_ok t from to h k b b' = rw (le→leb from to h, le→leb to (length t) k, b, b')

pub length-slice :
    (t : Bytes) (from to : ℕ)
    → from ≤ to
    → to ≤ length t
    → length (take (to - from) (drop from t)) ≡ to - from
length-slice t from to h k =
    omega (arith, length-take (to - from) (drop from t), length-drop from t)

-- What a slice that does not panic says.
pub record Sliced (t : Bytes) (from to : ℕ) (s : Bytes) : Type 0 where
  pub le : from ≤ to
  pub le_len : to ≤ length t
  pub from_boundary : is_char_boundary t from ≡ true
  pub to_boundary : is_char_boundary t to ≡ true
  pub is : s ≡ take (to - from) (drop from t)

ok-injective : (a b : Bytes) → ok a ≡ ok b → a ≡ b
ok-injective a b h = cc

panic≢ok : (s : Bytes) → panic ≡ ok s → ⊥
panic≢ok s h = cc

pub slice_inv : (t : Bytes) (from to : ℕ) (s : Bytes) → slice t from to ≡ ok s → Sliced t from to s
unfolding slice
slice_inv t from to s h =
    elim (Bool-cases
      (leb from to && leb to (length t) && is_char_boundary t from && is_char_boundary t to)) [
        | inl good ↦ record {
          le = ground arith;
          le_len = ground arith;
          from_boundary = ground arith;
          to_boundary = ground arith;
          is = sym (ok-injective _ _ (rw good at h));
        }
        | inr bad ↦ absurd (panic≢ok s (rw bad at h))
      ]
