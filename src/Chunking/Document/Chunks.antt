-- ===== src/Chunking/Document/Chunks.antt =====
-- The chunks of a document: what `chunk_document` promises from end to end.
use rqmd.Common.{ℕ, ◌≡◌, List, [], ◌∷◌, arith, leb, Bool-cases, inl, inr, leb→le, length}
use rqmd.Text.{Bytes, ok}
use rqmd.Text.Utf8.{Utf8}
use rqmd.Chunking.{Chunk}
use rqmd.Chunking.Breaks.{scan_code_fences, scan_break_points}
use rqmd.Chunking.Windows.Cover.{Covers, chunk_from_break_points-Covered, whole-Covers}
use rqmd.Chunking.Tables.{Table, scan_tables}
use rqmd.Chunking.Tables.Rows.{scan_tables-AllTables}
use rqmd.Chunking.Tables.Carry.{
  AllCarried, AllAt, NoTableAt, outside, carry_table_headers-AllCarried,
}
use rqmd.Chunking.Document.{chunk_document}

Covers-AllAt :
    (t : Bytes) (start : ℕ) (chunks : List Chunk) → Covers t start chunks → AllAt t chunks
Covers-AllAt t start [] h = tt
Covers-AllAt t start (c ∷ []) (_, at, _, _) = (at, tt)
Covers-AllAt t start (c ∷ d ∷ chunks) (_, at, _, r) = (at, Covers-AllAt t d.pos (d ∷ chunks) r)

NoTableAt-start : (tables : List Table) → NoTableAt tables 0
NoTableAt-start [] = tt
NoTableAt-start (table ∷ tables) = (inl (omega arith), NoTableAt-start tables)

-- How a document ends up in chunks: `cuts` cover it, and each chunk is what its cut becomes beside
-- the document's tables.
pub record Chunked (digit_len : Bytes → ℕ) (t : Bytes) : Type 0 where
  pub cuts : List Chunk
  pub covers : Covers t 0 cuts
  pub chunks : List Chunk
  pub runs : chunk_document digit_len t ≡ ok chunks
  pub carried : AllCarried t (scan_tables t (scan_code_fences t)) cuts chunks

-- For every text, chunk_document ends without a panic: the text is cut into pieces that hold the text at their offsets, cover it from end to end, have 3200 to 4002 bytes (the last at most 3600) and overlap by 540 to 543 bytes. A chunk is its piece outside the tables, in a table whose header has more than 800 bytes, and where no row of the table begins in the piece; a piece that begins in a table's header is extended back to the table's start; and one that begins in the data rows is the header and the rows from the next row on.
pub chunk_document-Chunked : (digit_len : Bytes → ℕ) (t : Bytes) → Utf8 t → Chunked digit_len t
unfolding chunk_document
chunk_document-Chunked digit_len t u = elim (Bool-cases (leb (length t) 3600)) [
  | inl small ↦ record {
    cuts = record { text = t; pos = 0 } ∷ [];
    covers = whole-Covers t [] u (leb→le _ _ small);
    chunks = record { text = t; pos = 0 } ∷ [];
    runs = rw small;
    carried = (outside (NoTableAt-start _), tt);
  }
  | inr large ↦
      let fences = scan_code_fences t in
      let r = chunk_from_break_points-Covered t (scan_break_points digit_len t fences) u in
      let (carried, runs, are) =
        carry_table_headers-AllCarried t (scan_tables t fences) r.chunks u
          (scan_tables-AllTables t fences) (Covers-AllAt t 0 r.chunks r.covers) in
      record {
        cuts = r.chunks;
        covers = r.covers;
        chunks = carried;
        runs = rw (large, r.runs, runs);
        carried = are;
      }
]
