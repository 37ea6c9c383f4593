-- ===== src/Chunking/Snap.antt =====
-- chunking.rs, the char-boundary helpers.
use rqmd.Common.{
  ℕ, zero, suc, ◌+◌, ◌≤◌, ◌<◌, min, ◌≡◌, refl, sym, ◌∙◌, Bool, true, false, not, ◌&&◌, [], ◌∷◌, inl,
  inr, ap, arith, ltb, if◌then◌else◌, Bool-cases, length,
}
use native.Mathlib.Decide.{dec_le}
use rqmd.Text.{Bytes, is_char_boundary}
use rqmd.Text.Utf8.{Utf8, boundary-Before, boundary-After, boundary_at_iff, boundary_at_end}

-- The `while` loop, with the bytes that are left for fuel.
forward_from : ℕ → Bytes → ℕ → ℕ
forward_from zero t p = p
forward_from (suc f) t p =
    let rest = forward_from f t (p + 1) in
    if ltb p (length t) && not (is_char_boundary t p) then rest else p

unfoldable pub snap_char_boundary_forward : Bytes → ℕ → ℕ
unfolding forward_from
snap_char_boundary_forward t pos = forward_from (length t) t (min pos (length t))

backward_from : Bytes → ℕ → ℕ
backward_from t zero = zero
backward_from t (suc p) = elim (is_char_boundary t (suc p)) [
  | true ↦ suc p
  | false ↦ backward_from t p
]

unfoldable pub snap_char_boundary_backward : Bytes → ℕ → ℕ
unfolding backward_from
snap_char_boundary_backward t pos = backward_from t (min pos (length t))

-- `p` is the first character boundary at or behind `i`.
pub record IsNext (t : Bytes) (i p : ℕ) : Type 0 where
  pub ge : i ≤ p
  pub le : p ≤ length t
  pub is_boundary : is_char_boundary t p ≡ true
  pub gap : (q : ℕ) → i ≤ q → q < p → is_char_boundary t q ≡ false

-- `p` is the last character boundary at or before `i`.
pub record IsPrevious (t : Bytes) (i p : ℕ) : Type 0 where
  pub le : p ≤ i
  pub is_boundary : is_char_boundary t p ≡ true
  pub gap : (q : ℕ) → p < q → q ≤ i → is_char_boundary t q ≡ false

pub is_char_boundary_end : (t : Bytes) → is_char_boundary t (length t) ≡ true
unfolding is_char_boundary
is_char_boundary_end [] = refl
is_char_boundary_end (b ∷ t) = boundary_at_end (b ∷ t)

IsNext-here : {t : Bytes} (p : ℕ) → p ≤ length t → is_char_boundary t p ≡ true → IsNext t p p
IsNext-here p h b = record {
  ge = omega arith;
  le = h;
  is_boundary = b;
  gap = λ q l r. absurd (omega arith);
}

IsNext-step :
    {t : Bytes} (i p : ℕ) → is_char_boundary t i ≡ false → IsNext t (i + 1) p → IsNext t i p
IsNext-step {t} i p b n = record {
  ge = omega (arith, n.ge);
  le = n.le;
  is_boundary = n.is_boundary;
  gap = λ q l r. elim (dec_le (i + 1) q) [
    | yes more ↦ n.gap q more r
    | no same ↦ let e : q ≡ i = omega arith in rw e b
  ];
}

forward_from_lem :
    (f : ℕ) (t : Bytes) (p : ℕ) → p ≤ length t → length t ≤ p + f → IsNext t p (forward_from f t p)
unfolding forward_from
forward_from_lem zero t p h e =
    let q : p ≡ length t = omega arith in
    IsNext-here p h (ap (is_char_boundary t) q ∙ is_char_boundary_end t)
forward_from_lem (suc f) t p h e = elim (Bool-cases (is_char_boundary t p)) [
  | inl b ↦ elim (Bool-cases (ltb p (length t))) [
    | inl less ↦ rw (less, b) (IsNext-here p h b)
    | inr full ↦ rw full (IsNext-here p h b)
  ]
  | inr b ↦ elim (Bool-cases (ltb p (length t))) [
    | inl less ↦
        rw (less, b) (IsNext-step p _ b (forward_from_lem f t (p + 1) (ground arith) (omega arith)))
    | inr full ↦
        let q : p ≡ length t = ground arith in
        rw full (IsNext-here p h (ap (is_char_boundary t) q ∙ is_char_boundary_end t))
  ]
]

backward_from_lem : (t : Bytes) (p : ℕ) → IsPrevious t p (backward_from t p)
unfolding backward_from is_char_boundary
backward_from_lem t zero = record {
  le = omega arith;
  is_boundary = refl;
  gap = λ q l r. absurd (omega arith);
}
backward_from_lem t (suc p) = elim (Bool-cases (is_char_boundary t (suc p))) [
  | inl b ↦
      rw (b, backward_from)
        (record { le = omega arith; is_boundary = b; gap = λ q l r. absurd (omega arith) })
  | inr b ↦ rw (b, backward_from) (step (backward_from_lem t p) b)
]
  where
    step :
        {p q : ℕ} → IsPrevious t p q → is_char_boundary t (suc p) ≡ false → IsPrevious t (suc p) q
    step {p} {q} h b = record {
      le = omega (arith, h.le);
      is_boundary = h.is_boundary;
      gap = λ j l r. elim (dec_le j p) [
        | yes less ↦ h.gap j l less
        | no same ↦ let e : j ≡ suc p = omega arith in rw e b
      ];
    }

-- Snapping forward gives the first character boundary at or behind the position, or the text's
-- end for a position behind it.
pub snap_char_boundary_forward_lem :
    (t : Bytes) (pos : ℕ) → IsNext t (min pos (length t)) (snap_char_boundary_forward t pos)
unfolding snap_char_boundary_forward
snap_char_boundary_forward_lem t pos =
    forward_from_lem (length t) t (min pos (length t)) (omega arith) (omega arith)

-- Snapping backward gives the last character boundary at or before the position.
pub snap_char_boundary_backward_lem :
    (t : Bytes) (pos : ℕ) → IsPrevious t (min pos (length t)) (snap_char_boundary_backward t pos)
unfolding snap_char_boundary_backward
snap_char_boundary_backward_lem t pos = backward_from_lem t (min pos (length t))

-- Snapping forward gives the first character boundary at or behind the position, or behind the text's end the text's end; snapping backward gives the last character boundary at or before the position.
pub snap_char_boundary_forward-snap_char_boundary_backward :
    (t : Bytes) (pos : ℕ)
    → IsNext t (min pos (length t)) (snap_char_boundary_forward t pos)
      × IsPrevious t (min pos (length t)) (snap_char_boundary_backward t pos)
snap_char_boundary_forward-snap_char_boundary_backward t pos =
    (snap_char_boundary_forward_lem t pos, snap_char_boundary_backward_lem t pos)

true≢false : ◌≡◌ {A = Bool} true false → ⊥
true≢false h = cc

-- In a text snapping moves a position by at most three bytes.
pub snap_forward-near :
    {t : Bytes} (pos : ℕ) → Utf8 t → pos ≤ length t → snap_char_boundary_forward t pos ≤ pos + 3
snap_forward-near {t} pos u h =
    let n = snap_char_boundary_forward_lem t pos in
    let a = boundary-After pos u h in
    elim (dec_le (snap_char_boundary_forward t pos) (pos + 3)) [
      | yes near ↦ near
      | no far ↦ absurd (
          true≢false (
            sym a.is_boundary
            ∙ sym (boundary_at_iff a.at u)
            ∙ n.gap a.at (omega (arith, a.le)) (omega (arith, a.near))))
    ]

pub snap_backward-near :
    {t : Bytes} (pos : ℕ) → Utf8 t → pos ≤ length t → pos ≤ snap_char_boundary_backward t pos + 3
snap_backward-near {t} pos u h =
    let n = snap_char_boundary_backward_lem t pos in
    let a = boundary-Before pos u h in
    elim (dec_le pos (snap_char_boundary_backward t pos + 3)) [
      | yes near ↦ near
      | no far ↦ absurd (
          true≢false (
            sym a.is_boundary
            ∙ sym (boundary_at_iff a.at u)
            ∙ n.gap a.at (omega (arith, a.near)) (omega (arith, a.le))))
    ]
