-- ===== src/Chunking/Document.antt =====
-- chunking.rs: `chunk_document` and `first_chunk`.
pub mod Chunks
pub mod First
use mathlib.Core.Option
use rqmd.Common.{ℕ, ◌+◌, ◌-◌, ◌/◌, min, List, [], ◌∷◌, leb, if◌then◌else◌, length}
use rqmd.Text.{Bytes, Run, ok, ◌>>=◌, slice}
use rqmd.Chunking.{Chunk, chunk_size_chars, chunk_window_chars}
use rqmd.Chunking.Snap.{snap_char_boundary_forward}
use rqmd.Chunking.Breaks.{scan_code_fences, scan_break_points, best_break_in_window}
use rqmd.Chunking.Windows.{chunk_from_break_points}
use rqmd.Chunking.Tables.{scan_tables, carry_table_headers}

module _ (digit_len : Bytes → ℕ) where
  unfoldable pub chunk_document : Bytes → Run (List Chunk)
  chunk_document t =
      if leb (length t) chunk_size_chars then ok (record { text = t; pos = 0 } ∷ []) else do
        let fences = scan_code_fences t
        chunks ← chunk_from_break_points t (scan_break_points digit_len t fences)
        carry_table_headers t chunks (scan_tables t fences)

  -- The break search over the prefix `text[..scan_end]`.
  unfoldable pub first_break : Bytes → ℕ → ℕ
  first_break prefix window_end =
      Option.get_or
        (best_break_in_window (scan_break_points digit_len prefix (scan_code_fences prefix))
          (chunk_size_chars - chunk_window_chars / 2) window_end)
        chunk_size_chars

  unfoldable pub first_chunk : Bytes → Run Bytes
  first_chunk t = if leb (length t) chunk_size_chars then ok t else do
    let window_end = min (chunk_size_chars + chunk_window_chars / 2) (length t)
    prefix ← slice t 0 (snap_char_boundary_forward t window_end)
    let break_at = first_break prefix window_end
    slice t 0 (snap_char_boundary_forward t (min break_at (length t)))
