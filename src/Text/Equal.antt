-- ===== src/Text/Equal.antt =====
-- `bytes_eq` decides equality.
use rqmd.Common.{
  ◌≡◌, ◌↔◌, refl, sym, ap₂, ◌∙◌, true, false, ◌&&◌, [], ◌∷◌, arith, Bool-cases, inl, inr,
}
use rqmd.Text.{Bytes, bytes_eq}

bytes_eq_sound : (a b : Bytes) → bytes_eq a b ≡ true → a ≡ b
unfolding bytes_eq
bytes_eq_sound [] [] h = refl
bytes_eq_sound [] (y ∷ b) h = cc
bytes_eq_sound (x ∷ a) [] h = cc
bytes_eq_sound (x ∷ a) (y ∷ b) h = ap₂ ◌∷◌ (ground arith) (bytes_eq_sound a b (ground arith))

pub bytes_eq_refl : (a : Bytes) → bytes_eq a a ≡ true
unfolding bytes_eq
bytes_eq_refl [] = refl
bytes_eq_refl (x ∷ a) = ground (arith, bytes_eq_refl a)

pub bytes_eq_iff : (a b : Bytes) → (bytes_eq a b ≡ true) ↔ (a ≡ b)
bytes_eq_iff a b = (bytes_eq_sound a b, λ e. rw e (bytes_eq_refl b))

pub bytes_eq_sym : (s t : Bytes) → bytes_eq s t ≡ bytes_eq t s
bytes_eq_sym s t = elim (Bool-cases (bytes_eq s t)) [
  | inl e ↦ e ∙ sym ((bytes_eq_iff t s).1 (sym ((bytes_eq_iff s t).0 e)))
  | inr e ↦ elim (Bool-cases (bytes_eq t s)) [
    | inl k ↦ absurd (let q = (bytes_eq_iff s t).1 (sym ((bytes_eq_iff t s).0 k)) in cc)
    | inr k ↦ e ∙ sym k
  ]
]

-- A text that equals one of two different texts does not equal the other.
pub bytes_eq_different :
    (s t p : Bytes) → bytes_eq s t ≡ false → (bytes_eq s p && bytes_eq t p) ≡ false
bytes_eq_different s t p h = elim (Bool-cases (bytes_eq s p && bytes_eq t p)) [
  | inl e ↦
      let q : s ≡ t =
        (bytes_eq_iff s p).0 (ground arith) ∙ sym ((bytes_eq_iff t p).0 (ground arith)) in
      absurd (let k = (bytes_eq_iff s t).1 q in ground arith)
  | inr e ↦ e
]
