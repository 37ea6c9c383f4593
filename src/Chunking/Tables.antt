-- ===== src/Chunking/Tables.antt =====
-- chunking.rs: pipe tables, and the header rows that a chunk carries along.
pub mod Rows
pub mod NextRow
pub mod Carry
use mathlib.Core.Option
use rqmd.Common.{
  ℕ, zero, suc, ◌+◌, ◌-◌, Bool, true, false, not, ◌&&◌, ◌||◌, Option, none, some, List, [], ◌∷◌,
  ◌++◌, map, ltb, leb, ◌==◌, if◌then◌else◌, length, get_elem?, drop,
}
use rqmd.Text.{
  Bytes, newline, Run, ok, panic, ◌>>=◌, slice, starts_with, is_empty, trim_start, trim,
}
use rqmd.Text.Lines.{split_inclusive, split_on}
use rqmd.Chunking.{Chunk, CodeFenceRegion, chunk_window_chars}
use rqmd.Chunking.Breaks.{inside_fence}

abbrev pub max_table_header_chars : ℕ
max_table_header_chars = chunk_window_chars

-- `start..data_start` is the header row and the separator row, `data_start..end` the data rows.
pub record Table : Type 0 where
  pub start : ℕ
  pub data_start : ℕ
  pub end : ℕ

unfoldable pub is_table_row : Bytes → Bool
unfolding trim_start starts_with
is_table_row line = starts_with (trim_start line) (b'|' ∷ [])

-- `trim_start_matches('|')`
trim_start_bars : Bytes → Bytes
trim_start_bars [] = []
trim_start_bars (b ∷ s) = if b == b'|' then trim_start_bars s else b ∷ s

-- `trim_end_matches('|')`
trim_end_bars : Bytes → Bytes
unfolding trim_start_bars
trim_end_bars [] = []
trim_end_bars (b ∷ s) = if is_empty (trim_start_bars (b ∷ s)) then [] else b ∷ trim_end_bars s

contains_byte : ℕ → Bytes → Bool
contains_byte c [] = false
contains_byte c (b ∷ s) = b == c || contains_byte c s

dashes_and_colons : Bytes → Bool
dashes_and_colons [] = true
dashes_and_colons (b ∷ s) = (b == b'-' || b == b':') && dashes_and_colons s

is_separator_cell : Bytes → Bool
unfolding contains_byte dashes_and_colons
is_separator_cell c = not (is_empty c) && contains_byte b'-' c && dashes_and_colons c

all_separators : List Bytes → Bool
all_separators [] = true
all_separators (c ∷ cells) = is_separator_cell (trim c) && all_separators cells

unfoldable pub is_separator_row : Bytes → Bool
unfolding trim_start_bars trim_end_bars split_on all_separators is_separator_cell trim
is_separator_row line = all_separators (split_on b'|' (trim_end_bars (trim_start_bars (trim line))))

-- The end of the last row of a run.
abbrev pub run_end : ℕ → List (ℕ × Bytes) → ℕ
run_end end [] = end
run_end end ((o, l) ∷ rows) = run_end (o + length l) rows

abbrev pub first_offset : ℕ → List (ℕ × Bytes) → ℕ
first_offset end [] = end
first_offset end ((o, l) ∷ rows) = o

-- The closure `flush`.
flush : List (ℕ × Bytes) → List Table
flush [] = []
flush (header ∷ []) = []
flush ((start, header) ∷ (o, separator) ∷ rows) =
    let end = run_end (o + length separator) rows in
    if is_separator_row separator
    then record { start = start; data_start = first_offset end rows; end = end } ∷ []
    else []

-- The loop over the lines.
scan_rows : List CodeFenceRegion → List (ℕ × Bytes) → ℕ → List Bytes → List Table
scan_rows fences run offset [] = flush run
scan_rows fences run offset (line ∷ ls) =
    let grown = scan_rows fences (run ++ (offset, line) ∷ []) (offset + length line) ls in
    let flushed = flush run ++ scan_rows fences [] (offset + length line) ls in
    if is_table_row line && not (inside_fence offset fences) then grown else flushed

unfoldable pub scan_tables : Bytes → List CodeFenceRegion → List Table
unfolding flush scan_rows is_table_row is_separator_row split_inclusive inside_fence
scan_tables t fences = scan_rows fences [] 0 (split_inclusive t)

-- The first table that a position lies in, behind its first byte.
unfoldable pub find_table : ℕ → List Table → Option Table
find_table pos [] = none
find_table pos (table ∷ tables) =
    if ltb table.start pos && ltb pos table.end then some table else find_table pos tables

-- `text.find('\n')`
find_newline : Bytes → Option ℕ
find_newline [] = none
find_newline (b ∷ s) = if b == newline then some 0 else Option.map suc (find_newline s)

-- `text.as_bytes()[i]`
byte_at : Bytes → ℕ → Run ℕ
byte_at t i = elim (get_elem? t i) [ none ↦ panic | some b ↦ ok b ]

-- The next row boundary from a position in the data rows on.
pub row_start : Bytes → ℕ → Run ℕ
unfolding byte_at find_newline
row_start t pos = do
  before ← byte_at t (pos - 1)
  if before == newline then ok pos else do
    rest ← slice t pos (length t)
    ok (elim (find_newline rest) [ none ↦ length t | some i ↦ pos + i + 1 ])

-- A chunk in the data rows of a table.
carry_into : Bytes → Table → Chunk → Bytes → Run Chunk
carry_into t table chunk header =
    if ltb max_table_header_chars (length header) then ok chunk else do
      row ← row_start t chunk.pos
      let end = chunk.pos + length chunk.text
      if leb end row || leb table.end row
          then ok chunk
          else do rows ← slice t row end; ok (record { text = header ++ rows; pos = row })

-- A chunk in a table.
carry_header : Bytes → Chunk → Table → Run Chunk
carry_header t chunk table =
    if ltb chunk.pos table.data_start
    then (do
      text ← slice t table.start (chunk.pos + length chunk.text)
      ok (record { text = text; pos = table.start }))
    else do header ← slice t table.start table.data_start; carry_into t table chunk header

carry_one : Bytes → List Table → Chunk → Run Chunk
unfolding carry_header carry_into row_start slice find_table
carry_one t tables chunk = elim (find_table chunk.pos tables) [
  | none ↦ ok chunk
  | some table ↦ carry_header t chunk table
]

unfoldable pub carry_table_headers : Bytes → List Chunk → List Table → Run (List Chunk)
unfolding carry_one
carry_table_headers t [] tables = ok []
carry_table_headers t (chunk ∷ chunks) tables = do
  carried ← carry_one t tables chunk
  rest ← carry_table_headers t chunks tables
  ok (carried ∷ rest)
