-- ===== src/Chunking/Examples.antt =====
-- Tests of the chunker, and its theorems at concrete texts.
use rqmd.Common.{
  ◌&&◌, leb, if◌then◌else◌, ℕ, zero, suc, min, ◌≡◌, refl, ◌↔◌, ◌≢◌, none, true, false, some, List,
  [], ◌∷◌, ◌++◌, map, arith, length,
}
use rqmd.Text.{Bytes, newline, slice, Run, ok, panic, out_of_fuel, is_char_boundary}
use rqmd.Text.Utf8.{Utf8, done, one, two, three, four}
use rqmd.Chunking.{Chunk, BreakPoint}
use rqmd.Chunking.Patterns.{break_patterns}
use rqmd.Chunking.Snap.{
  IsNext, IsPrevious, snap_char_boundary_forward, snap_char_boundary_backward,
  snap_char_boundary_forward-snap_char_boundary_backward,
}
use rqmd.Chunking.Breaks.{scan_code_fences, scan_break_points, best_break_in_window, inside_fence}
use rqmd.Chunking.Breaks.Scan.{AscendsFrom, score_at, highest, scan_break_points_lem}
use rqmd.Chunking.Breaks.Newlines.{newline_at, scan_break_points-newlines}
use rqmd.Chunking.Breaks.Window.{IsBest, best_break_in_window-IsBest}
use rqmd.Chunking.Windows.{chunk_from_break_points}
use rqmd.Chunking.Windows.Cover.{Covered, chunk_from_break_points-Covered}
use rqmd.Chunking.Windows.Whole.{join_chunks, join_chunks-chunk_from_break_points}
use rqmd.Chunking.Tables.{scan_tables, carry_table_headers}
use rqmd.Chunking.Tables.Rows.{AllTables, scan_tables-AllTables}
use rqmd.Chunking.Document.{chunk_document, first_chunk, first_break}
use rqmd.Chunking.Document.Chunks.{Chunked, chunk_document-Chunked}
use rqmd.Chunking.Document.First.{IsOpening, first_chunk-IsOpening}

fill : ℕ → Bytes → Bytes
fill zero s = []
fill (suc n) s = s ++ fill n s

Utf8-append : {s t : Bytes} → Utf8 s → Utf8 t → Utf8 (s ++ t)
Utf8-append done v = v
Utf8-append (one a h u) v = one a h (Utf8-append u v)
Utf8-append (two a b h k u) v = two a b h k (Utf8-append u v)
Utf8-append (three a b c h k l u) v = three a b c h k l (Utf8-append u v)
Utf8-append (four a b c d h k l m u) v = four a b c d h k l m (Utf8-append u v)

Utf8-fill : (n : ℕ) {s : Bytes} → Utf8 s → Utf8 (fill n s)
unfolding fill
Utf8-fill zero u = done
Utf8-fill (suc n) u = Utf8-append u (Utf8-fill n u)

-- |a|⏎ and |-|⏎, then |é|⏎ a thousand times
abbrev header_rows : Bytes
header_rows = b'|' ∷ b'a' ∷ b'|' ∷ newline ∷ b'|' ∷ b'-' ∷ b'|' ∷ newline ∷ []

abbrev data_row : Bytes
data_row = b'|' ∷ 0xc3 ∷ 0xa9 ∷ b'|' ∷ newline ∷ []

document : Bytes
document = header_rows ++ fill 1000 data_row

document-Utf8 : Utf8 document
unfolding document
document-Utf8 =
    Utf8-append
      (one _ (omega arith) (
        one _ (omega arith) (
          one _ (omega arith) (
            one _ (omega arith) (
              one _ (omega arith)
                (one _ (omega arith) (one _ (omega arith) (one _ (omega arith) done))))))))
      (Utf8-fill 1000 (
        one _ (omega arith)
          (two _ _ (omega arith) (omega arith) (one _ (omega arith) (one _ (omega arith) done)))))

abbrev ascii_digit : Bytes → ℕ
ascii_digit [] = 0
ascii_digit (b ∷ s) = if leb b'0' b && leb b b'9' then 1 else 0

abbrev points : List BreakPoint
points =
    record { pos = 3300; score = 20 }
    ∷ record { pos = 3700; score = 100 }
    ∷ record { pos = 3900; score = 100 }
    ∷ record { pos = 4000; score = 100 }
    ∷ []

latest_of_the_best : best_break_in_window points 3200 4000 ≡ some 3900
unfolding best_break_in_window
latest_of_the_best = refl

best_break_in_window-IsBest_example :
    IsBest 3200 4000 points (best_break_in_window points 3200 4000)
best_break_in_window-IsBest_example = best_break_in_window-IsBest 3200 4000 points

abbrev accents : Bytes
accents = b'a' ∷ 0xc3 ∷ 0xa9 ∷ []

snap_forward_runs : snap_char_boundary_forward accents 2 ≡ 3
unfolding snap_char_boundary_forward is_char_boundary
snap_forward_runs = refl

snap_char_boundary_forward-snap_char_boundary_backward_example :
    IsNext accents (min 2 (length accents)) (snap_char_boundary_forward accents 2)
    × IsPrevious accents (min 2 (length accents)) (snap_char_boundary_backward accents 2)
snap_char_boundary_forward-snap_char_boundary_backward_example =
    snap_char_boundary_forward-snap_char_boundary_backward accents 2

-- a⏎# b⏎```⏎# c⏎```⏎1. d
abbrev fenced : Bytes
fenced =
    b'a' ∷ newline ∷ b'#' ∷ b' ' ∷ b'b' ∷ newline ∷ b'`' ∷ b'`' ∷ b'`' ∷ newline ∷ b'#' ∷ b' '
    ∷ b'c' ∷ newline ∷ b'`' ∷ b'`' ∷ b'`' ∷ newline ∷ b'1' ∷ b'.' ∷ b' ' ∷ b'd' ∷ []

breaks_found :
    scan_break_points ascii_digit fenced (scan_code_fences fenced)
    ≡ record { pos = 1; score = 100 }
      ∷ record { pos = 5; score = 80 }
      ∷ record { pos = 17; score = 5 }
      ∷ []
unfolding scan_break_points scan_code_fences
breaks_found = refl

scan_break_points_lem_example :
    AscendsFrom 0 (scan_break_points ascii_digit fenced (scan_code_fences fenced))
    × ((p : ℕ)
        → score_at p (scan_break_points ascii_digit fenced (scan_code_fences fenced)) ≡ (
            if inside_fence p (scan_code_fences fenced)
            then none
            else highest ascii_digit fenced (scan_code_fences fenced) p none break_patterns))
scan_break_points_lem_example = scan_break_points_lem ascii_digit fenced (scan_code_fences fenced)

scan_break_points-newlines_example :
    (score_at 9 (scan_break_points ascii_digit fenced (scan_code_fences fenced)) ≢ none)
    ↔ ((newline_at fenced 9 ≡ true) × (inside_fence 9 (scan_code_fences fenced) ≡ false))
scan_break_points-newlines_example =
    scan_break_points-newlines ascii_digit fenced (scan_code_fences fenced) 9

chunk_from_break_points-Covered_example :
    Covered document 0 (chunk_from_break_points document points)
chunk_from_break_points-Covered_example =
    chunk_from_break_points-Covered document points document-Utf8

join_chunks-chunk_from_break_points_example :
    (chunks : List Chunk) × (chunk_from_break_points document points ≡ ok chunks)
    × (join_chunks 0 chunks ≡ document)
join_chunks-chunk_from_break_points_example =
    join_chunks-chunk_from_break_points document points document-Utf8

scan_tables-AllTables_example : AllTables document (scan_tables document [])
scan_tables-AllTables_example = scan_tables-AllTables document []

chunk_document-Chunked_example : Chunked ascii_digit document
chunk_document-Chunked_example = chunk_document-Chunked ascii_digit document document-Utf8

first_chunk-IsOpening_example : IsOpening ascii_digit document
first_chunk-IsOpening_example = first_chunk-IsOpening ascii_digit document document-Utf8

-- The positions and sizes of the chunks.
shape : Run (List Chunk) → List (ℕ × ℕ)
shape (ok chunks) = map (λ (c : Chunk). (c.pos, length c.text)) chunks
shape panic = []
shape out_of_fuel = []

abbrev small_table : Bytes
small_table = header_rows ++ data_row ++ data_row ++ data_row

-- A chunk that begins in the first data row.
abbrev tail_chunk : Chunk
tail_chunk = record { text = b'|' ∷ newline ∷ data_row ++ data_row; pos = 11 }

tail_carried :
    carry_table_headers small_table (tail_chunk ∷ []) (scan_tables small_table [])
    ≡ ok (record { text = header_rows ++ data_row ++ data_row; pos = 13 } ∷ [])
unfolding scan_tables carry_table_headers is_char_boundary
tail_carried = refl

size : Run Bytes → ℕ
size (ok s) = length s
size panic = 0
size out_of_fuel = 0

-- A heading right behind the window: `chunk_document` sees it whole, `first_chunk` cuts it off.
heading_behind : Bytes
heading_behind =
    fill 3500 (b'a' ∷ [])
    ++ newline ∷ newline ∷ fill 497 (b'a' ∷ [])
    ++ newline ∷ b'#' ∷ b' ' ∷ fill 200 (b'b' ∷ [])

first_chunk_is_shorter :
    (size (first_chunk ascii_digit heading_behind) ≡ 3500)
    × (shape (chunk_document ascii_digit heading_behind) ≡ (0, 3999) ∷ (3459, 743) ∷ [])
unfolding shape size heading_behind fill chunk_document first_chunk first_break scan_code_fences
    scan_break_points chunk_from_break_points scan_tables carry_table_headers best_break_in_window
    snap_char_boundary_forward slice is_char_boundary
first_chunk_is_shorter = (refl, refl)
