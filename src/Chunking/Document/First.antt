-- ===== src/Chunking/Document/First.antt =====
-- `first_chunk` is a prefix of the document that ends on a character boundary near the target size.
use rqmd.Common.{
  ℕ, ◌≤◌, ◌<◌, min, ◌≡◌, refl, sym, ◌∙◌, ap, arith, leb, leb→lt, Bool-cases, inl, inr, length, take,
  true, take_all,
}
use rqmd.Text.{Bytes, ok, slice, is_char_boundary}
use rqmd.Text.Utf8.{Utf8}
use rqmd.Text.Slices.{slice_ok}
use rqmd.Chunking.Snap.{
  snap_char_boundary_forward, snap_char_boundary_forward_lem, is_char_boundary_end,
}
use rqmd.Chunking.Breaks.{scan_code_fences, scan_break_points}
use rqmd.Chunking.Windows.Cover.{break_at_bounds, snapped_end, start_is_boundary}
use rqmd.Chunking.Document.{first_chunk, first_break}

-- The whole text if it is short, and otherwise a prefix of 3200 to 4002 bytes.
pub record IsOpening (digit_len : Bytes → ℕ) (t : Bytes) : Type 0 where
  pub end : ℕ
  pub runs : first_chunk digit_len t ≡ ok (take end t)
  pub fits : end ≤ length t
  pub is_boundary : is_char_boundary t end ≡ true
  pub short : length t ≤ 3600 → end ≡ length t
  pub long : 3600 < length t → (3200 ≤ end) × (end ≤ 4002)

first_break_bounds :
    (digit_len : Bytes → ℕ) (t prefix : Bytes)
    → 3600 < length t
    → (3200 ≤ first_break digit_len prefix (min 4000 (length t)))
      × (first_break digit_len prefix (min 4000 (length t)) < 4000)
unfolding first_break
first_break_bounds digit_len t prefix h =
    let b =
      break_at_bounds (scan_break_points digit_len prefix (scan_code_fences prefix)) 3200
        (min 4000 (length t)) 3600 (omega arith) (omega arith) in
    (b.0, omega (arith, b.1))

prefix_ok :
    (t : Bytes) (end : ℕ)
    → end ≤ length t
    → is_char_boundary t end ≡ true
    → slice t 0 end ≡ ok (take end t)
prefix_ok t end h b =
    slice_ok t 0 end (omega arith) h (start_is_boundary t) b ∙ ap (λ n. ok (take n t)) (omega arith)

-- For every text the function does not panic. A text of at most 3600 bytes is returned whole, and
-- of a longer one a prefix of 3200 to 4002 bytes that ends on a character boundary.
pub first_chunk-IsOpening : (digit_len : Bytes → ℕ) (t : Bytes) → Utf8 t → IsOpening digit_len t
unfolding first_chunk
first_chunk-IsOpening digit_len t u = elim (Bool-cases (leb (length t) 3600)) [
  | inl small ↦ record {
    end = length t;
    runs = rw small (ap ok (sym (take_all (length t) t (omega arith))));
    fits = omega arith;
    is_boundary = is_char_boundary_end t;
    short = λ _. refl;
    long = λ h. absurd (ground arith);
  }
  | inr large ↦
      let h = leb→lt (length t) 3600 large in
      let scan_end = snap_char_boundary_forward t (min 4000 (length t)) in
      let n = snap_char_boundary_forward_lem t (min 4000 (length t)) in
      let b = first_break_bounds digit_len t (take scan_end t) h in
      let at = first_break digit_len (take scan_end t) (min 4000 (length t)) in
      let e = snapped_end t u 0 at (omega (arith, b.0)) (omega (arith, b.1)) (omega arith) in
      record {
        end = snap_char_boundary_forward t (min at (length t));
        runs = rw (large, prefix_ok t scan_end n.le n.is_boundary, prefix_ok t _ e.2 e.3);
        fits = e.2;
        is_boundary = e.3;
        short = λ s. absurd (omega arith);
        long = λ _. (omega (arith, e.0), omega (arith, e.1));
      }
]
