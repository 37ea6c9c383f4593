-- ===== src/Chunking/Windows/Cover.antt =====
-- The chunks of a text cover it from end to end, in order, each with the text at its position.
use native.Mathlib.Decide.{dec_lt}
use mathlib.Core.Option
use rqmd.Common.{
  ℕ, zero, suc, ◌+◌, ◌-◌, ◌≤◌, ◌<◌, min, ◌≡◌, refl, ap, ◌∙◌, inl, inr, true, false, Option, none,
  some, List, [], ◌∷◌, arith, leb, ◌==◌, Bool-cases, length, take, drop, take_all, leb→le, lt→ltb,
}
use rqmd.Text.{Bytes, Run, ok, slice, is_char_boundary}
use rqmd.Text.Utf8.{Utf8}
use rqmd.Text.Slices.{slice_ok, length-slice}
use rqmd.Chunking.{Chunk, BreakPoint}
use rqmd.Chunking.Snap.{
  snap_char_boundary_forward, snap_char_boundary_backward, snap_char_boundary_forward_lem,
  snap_char_boundary_backward_lem, snap_forward-near, snap_backward-near, is_char_boundary_end,
}
use rqmd.Chunking.Breaks.{best_break_in_window}
use rqmd.Chunking.Breaks.Window.{IsBest, best_break_in_window-IsBest}
use rqmd.Chunking.Windows.{ideal_end, chunk_end, next_start, chunk_loop, chunk_from_break_points}

abbrev pub end_of : Chunk → ℕ
end_of c = c.pos + length c.text

-- A chunk holds the text at its position.
abbrev pub IsAt : Bytes → Chunk → Type 0
IsAt t c = (slice t c.pos (end_of c) ≡ ok c.text)

-- How the next chunk follows one that the loop cut: `c` has 3200 to 4002 bytes, and `d` begins 540
-- to 543 bytes before the end of `c`.
pub record Follows (c d : Chunk) : Type 0 where
  pub long : 3200 ≤ length c.text
  pub short : length c.text ≤ 4002
  pub overlap : d.pos + 540 ≤ end_of c
  pub near : end_of c ≤ d.pos + 543

-- From `start` on.
abbrev pub Covers : Bytes → ℕ → List Chunk → Type 0
Covers t start [] = ⊥
Covers t start (c ∷ []) =
    (c.pos ≡ start) × IsAt t c × (end_of c ≡ length t) × (length c.text ≤ 3600)
Covers t start (c ∷ d ∷ chunks) =
    (c.pos ≡ start) × IsAt t c × Follows c d × Covers t d.pos (d ∷ chunks)

-- A break lies in its window, and so does the fallback.
pub break_at_bounds :
    (points : List BreakPoint) (from to ideal : ℕ)
    → from ≤ ideal
    → ideal < to
    → (from ≤ Option.get_or (best_break_in_window points from to) ideal)
      × (Option.get_or (best_break_in_window points from to) ideal < to)
break_at_bounds points from to ideal h k =
    go (best_break_in_window points from to) (best_break_in_window-IsBest from to points)
  where
    go :
        (r : Option ℕ)
        → IsBest from to points r
        → (from ≤ Option.get_or r ideal) × (Option.get_or r ideal < to)
    go none b = (h, k)
    go (some p) (b, e, _, i, _) = omega arith

module _ (t : Bytes) (u : Utf8 t) where
  pub snapped_end :
      (start at : ℕ)
      → start + 3200 ≤ at
      → at < start + 4000
      → start + 3600 < length t
      → (start + 3200 ≤ snap_char_boundary_forward t (min at (length t)))
        × (snap_char_boundary_forward t (min at (length t)) ≤ start + 4002)
        × (snap_char_boundary_forward t (min at (length t)) ≤ length t)
        × (is_char_boundary t (snap_char_boundary_forward t (min at (length t))) ≡ true)
  snapped_end start at h k l =
      let n = snap_char_boundary_forward_lem t (min at (length t)) in
      let near = snap_forward-near (min at (length t)) u (omega arith) in
      (omega (arith, n.ge), omega (arith, near), n.le, n.is_boundary)

  -- Where a chunk that does not reach the end is cut.
  chunk_end_lem :
      (points : List BreakPoint) (start : ℕ)
      → start + 3600 < length t
      → (start + 3200 ≤ chunk_end t points start)
        × (chunk_end t points start ≤ start + 4002)
        × (chunk_end t points start ≤ length t)
        × (is_char_boundary t (chunk_end t points start) ≡ true)
  unfolding chunk_end
  chunk_end_lem points start h =
      let b =
        break_at_bounds points (ideal_end t start - 400) (min (ideal_end t start + 400) (length t))
          (ideal_end t start) (omega arith) (omega arith) in
      snapped_end start _ (omega (arith, b.0)) (omega (arith, b.1)) h

  next_start_lem :
      (end : ℕ)
      → 3200 ≤ end
      → end ≤ length t
      → (next_start t end + 540 ≤ end)
        × (end ≤ next_start t end + 543)
        × (is_char_boundary t (next_start t end) ≡ true)
  unfolding next_start
  next_start_lem end h k =
      let n = snap_char_boundary_backward_lem t (end - 540) in
      let near = snap_backward-near (end - 540) u (omega arith) in
      let early : leb end (snap_char_boundary_backward t (end - 540)) ≡ false =
        ground (arith, n.le) in
      rw early (omega (arith, n.le), omega (arith, near), n.is_boundary)

pub start_is_boundary : (t : Bytes) → is_char_boundary t 0 ≡ true
unfolding is_char_boundary
start_is_boundary t = refl

-- The chunk that a slice makes.
abbrev cut : Bytes → ℕ → ℕ → Chunk
cut t from to = record { text = take (to - from) (drop from t); pos = from }

cut-IsAt :
    (t : Bytes) (from to : ℕ)
    → from ≤ to
    → to ≤ length t
    → is_char_boundary t from ≡ true
    → is_char_boundary t to ≡ true
    → IsAt t (cut t from to)
cut-IsAt t from to h k b b' =
    let e : from + length (take (to - from) (drop from t)) ≡ to =
      omega (arith, length-slice t from to h k) in
    ap (slice t from) e ∙ slice_ok t from to h k b b'

-- The chunks of a run that ended well.
pub record Covered (t : Bytes) (start : ℕ) (r : Run (List Chunk)) : Type 0 where
  pub chunks : List Chunk
  pub runs : r ≡ ok chunks
  pub covers : Covers t start chunks

Covers-cons :
    (t : Bytes) (start end next : ℕ) (chunks : List Chunk)
    → start ≤ end
    → IsAt t (cut t start end)
    → length (take (end - start) (drop start t)) ≡ end - start
    → (start + 3200 ≤ end) × (end ≤ start + 4002)
    → (next + 540 ≤ end) × (end ≤ next + 543)
    → Covers t next chunks
    → Covers t start (cut t start end ∷ chunks)
Covers-cons t start end next [] le at l size step c = absurd c
Covers-cons t start end next (d ∷ []) le at l size step (p, c, w, z) = (
  refl,
  at,
  record { long = omega arith; short = omega arith; overlap = omega arith; near = omega arith },
  (refl, c, w, z),
)
Covers-cons t start end next (d ∷ e ∷ chunks) le at l size step (p, c, f, r) = (
  refl,
  at,
  record { long = omega arith; short = omega arith; overlap = omega arith; near = omega arith },
  (refl, c, f, r),
)

module _ (t : Bytes) (points : List BreakPoint) (u : Utf8 t) where
  -- A round that does not reach the end of the text, given the rounds behind it.
  Covered-round :
      (fuel start : ℕ)
      → start + 3600 < length t
      → is_char_boundary t start ≡ true
      → Covered t
          (next_start t (chunk_end t points start))
          (chunk_loop fuel t points (next_start t (chunk_end t points start)))
      → Covered t start (chunk_loop (suc fuel) t points start)
  unfolding chunk_loop
  Covered-round fuel start h b rest =
      let end = chunk_end t points start in
      let e = chunk_end_lem t u points start h in
      let n = next_start_lem t u end (omega (arith, e.0)) e.2 in
      let le : start ≤ end = omega (arith, e.0) in
      let open_end : (ideal_end t start == length t) ≡ false = ground arith in
      record {
        chunks = cut t start end ∷ rest.chunks;
        runs = rw (
          lt→ltb start (length t) (omega arith),
          open_end,
          slice_ok t start end le e.2 b e.3,
          rest.runs,
        );
        covers =
            Covers-cons t start end (next_start t end) rest.chunks le
              (cut-IsAt t start end le e.2 b e.3) (length-slice t start end le e.2) (e.0, e.1)
              (n.0, n.1) rest.covers;
      }

  -- The last round.
  Covered-last :
      (fuel start : ℕ)
      → start < length t
      → length t ≤ start + 3600
      → is_char_boundary t start ≡ true
      → Covered t start (chunk_loop (suc fuel) t points start)
  unfolding chunk_loop
  Covered-last fuel start h k b =
      let at_end : (ideal_end t start == length t) ≡ true = ground arith in
      let whole =
        slice_ok t start (length t) (omega arith) (omega arith) b (is_char_boundary_end t) in
      let size = length-slice t start (length t) (omega arith) (omega arith) in
      record {
        chunks = cut t start (length t) ∷ [];
        runs = rw (lt→ltb start (length t) h, at_end, whole);
        covers = (
          refl,
          cut-IsAt t start (length t) (omega arith) (omega arith) b (is_char_boundary_end t),
          omega (arith, size),
          omega (arith, size),
        );
      }

  chunk_loop-Covered :
      (fuel start : ℕ)
      → start < length t
      → length t ≤ start + fuel
      → is_char_boundary t start ≡ true
      → Covered t start (chunk_loop fuel t points start)
  chunk_loop-Covered zero start h f b = absurd (omega arith)
  chunk_loop-Covered (suc fuel) start h f b = elim (dec_lt (start + 3600) (length t)) [
    | yes more ↦ Covered-round fuel start more b (
        let end = chunk_end t points start in
        let e = chunk_end_lem t u points start more in
        let n = next_start_lem t u end (omega (arith, e.0)) e.2 in
        chunk_loop-Covered fuel (next_start t end) (omega (arith, n.0, e.2))
          (omega (arith, n.1, e.0)) n.2)
    | no last ↦ Covered-last fuel start h (omega arith) b
  ]

  -- A text that is no longer than one chunk.
  pub whole-Covers : length t ≤ 3600 → Covers t 0 (record { text = t; pos = 0 } ∷ [])
  whole-Covers h = (
    refl,
    slice_ok t 0 (0 + length t) (omega arith) (omega arith) (start_is_boundary t) (
          ap (is_char_boundary t) {x = 0 + length t} {y = length t} (omega arith)
          ∙ is_char_boundary_end t)
        ∙ ap ok (take_all (0 + length t - 0) t (omega arith)),
    omega arith,
    h,
  )

  -- For every text, whatever the break points, cutting it ends without a slice out of range or off
  -- a character boundary and without running out of rounds. Its chunks hold the text at their
  -- positions, the first begins at 0 and the last ends at the end of the text, every chunk but the
  -- last has 3200 to 4002 bytes and the last at most 3600, and each chunk begins 540 to 543 bytes
  -- before the end of the one before.
  pub chunk_from_break_points-Covered : Covered t 0 (chunk_from_break_points t points)
  unfolding chunk_from_break_points
  chunk_from_break_points-Covered = elim (Bool-cases (leb (length t) 3600)) [
    | inl small ↦
        rw small (record { chunks = _; runs = refl; covers = whole-Covers (leb→le _ _ small) })
    | inr large ↦
        rw large
          (chunk_loop-Covered (length t) 0 (ground arith) (omega arith) (start_is_boundary t))
  ]
