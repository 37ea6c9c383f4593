-- ===== src/Chunking/Windows.antt =====
-- chunking.rs: `chunk_from_break_points`, the loop that cuts a text at its break points.
pub mod Cover
pub mod Whole
use mathlib.Core.Option
use rqmd.Common.{
  ℕ, zero, suc, ◌+◌, ◌-◌, ◌/◌, min, List, [], ◌∷◌, ltb, leb, ◌==◌, if◌then◌else◌, length,
}
use rqmd.Text.{Bytes, Run, ok, out_of_fuel, ◌>>=◌, slice}
use rqmd.Chunking.{Chunk, BreakPoint, chunk_size_chars, chunk_overlap_chars, chunk_window_chars}
use rqmd.Chunking.Snap.{snap_char_boundary_forward, snap_char_boundary_backward}
use rqmd.Chunking.Breaks.{best_break_in_window}

abbrev pub ideal_end : Bytes → ℕ → ℕ
ideal_end t start = min (start + chunk_size_chars) (length t)

-- The body of the loop up to `end`, for a chunk that does not reach the end of the text.
chunk_end : Bytes → List BreakPoint → ℕ → ℕ
chunk_end t points start =
    let ideal = ideal_end t start in
    let window_start = ideal - chunk_window_chars / 2 in
    let window_end = min (ideal + chunk_window_chars / 2) (length t) in
    let break_at = Option.get_or (best_break_in_window points window_start window_end) ideal in
    snap_char_boundary_forward t (min break_at (length t))

-- The rest of the body: the next `start`.
next_start : Bytes → ℕ → ℕ
next_start t end =
    let start = snap_char_boundary_backward t (end - chunk_overlap_chars) in
    if leb end start then end else start

-- The `while` loop. Every round begins further on, so the bytes of the text are fuel enough.
chunk_loop : ℕ → Bytes → List BreakPoint → ℕ → Run (List Chunk)
chunk_loop zero t points start = if ltb start (length t) then out_of_fuel else ok []
chunk_loop (suc fuel) t points start =
    if ltb start (length t)
    then (if ideal_end t start == length t
        then (do text ← slice t start (length t); ok (record { text = text; pos = start } ∷ []))
        else do
          let end = chunk_end t points start
          text ← slice t start end
          chunks ← chunk_loop fuel t points (next_start t end)
          ok (record { text = text; pos = start } ∷ chunks))
    else ok []

unfoldable pub chunk_from_break_points : Bytes → List BreakPoint → Run (List Chunk)
unfolding chunk_end next_start chunk_loop snap_char_boundary_forward snap_char_boundary_backward
    best_break_in_window slice
chunk_from_break_points t points =
    if leb (length t) chunk_size_chars
    then ok (record { text = t; pos = 0 } ∷ [])
    else chunk_loop (length t) t points 0
