-- ===== src/Chunking/Tables/Carry.antt =====
-- `carry_table_headers` never panics, and what it makes of each chunk.
use rqmd.Common.{
  ℕ, ◌-◌, ◌≤◌, ◌<◌, ◌≡◌, refl, sym, subst, ◌⊎◌, inl, inr, ◌&&◌, ◌||◌, none, some, List, [], ◌∷◌,
  ◌++◌, arith, ltb, leb, Bool-cases, Option-cases, length, take, drop,
}
use rqmd.Text.{Bytes, Run, ok, slice}
use rqmd.Text.Utf8.{Utf8}
use rqmd.Text.Slices.{Sliced, slice_ok, slice_inv, length-slice}
use rqmd.Text.Lines.{boundary-StartsLine}
use rqmd.Chunking.{Chunk}
use rqmd.Chunking.Windows.Cover.{end_of, IsAt}
use rqmd.Chunking.Tables.{
  Table, max_table_header_chars, find_table, carry_into, carry_header, carry_one,
  carry_table_headers,
}
use rqmd.Chunking.Tables.NextRow.{NextRow, row_start_lem}
use rqmd.Chunking.Tables.Rows.{IsTable, AllTables}

abbrev pub IsAmong : Table → List Table → Type 0
IsAmong table [] = ⊥
IsAmong table (x ∷ tables) = (table ≡ x) ⊎ IsAmong table tables

-- A table that a position lies in, behind its first byte.
pub record IsTableAt (tables : List Table) (pos : ℕ) (table : Table) : Type 0 where
  pub among : IsAmong table tables
  pub behind_start : table.start < pos
  pub before_end : pos < table.end

abbrev pub NoTableAt : List Table → ℕ → Type 0
NoTableAt [] pos = Unit
NoTableAt (x ∷ tables) pos = ((pos ≤ x.start) ⊎ (x.end ≤ pos)) × NoTableAt tables pos

-- What becomes of a chunk. It stays as it is outside the tables, in a table whose header is too
-- long, and where no row begins in it. Inside a header it is extended back to the table's start.
-- In the data rows it is the header, if that is not too long, and the rows from the next row boundary on, if that lies in the chunk and in the table.
pub data Carried (t : Bytes) (tables : List Table) (chunk : Chunk) : Chunk → Type 0 where
  outside : NoTableAt tables chunk.pos → Carried t tables chunk chunk
  long_header :
      (table : Table)
      → IsTableAt tables chunk.pos table
      → table.data_start ≤ chunk.pos
      → 800 < table.data_start - table.start
      → Carried t tables chunk chunk
  no_row :
      (table : Table) (row : ℕ)
      → IsTableAt tables chunk.pos table
      → table.data_start ≤ chunk.pos
      → table.data_start - table.start ≤ 800
      → NextRow t chunk.pos row
      → (end_of chunk ≤ row) ⊎ (table.end ≤ row)
      → Carried t tables chunk chunk
  in_header :
      (table : Table) (text : Bytes)
      → IsTableAt tables chunk.pos table
      → chunk.pos < table.data_start
      → slice t table.start (end_of chunk) ≡ ok text
      → Carried t tables chunk (record { text = text; pos = table.start })
  in_rows :
      (table : Table) (row : ℕ) (header rows : Bytes)
      → IsTableAt tables chunk.pos table
      → table.data_start ≤ chunk.pos
      → table.data_start - table.start ≤ 800
      → NextRow t chunk.pos row
      → row < end_of chunk
      → row < table.end
      → slice t table.start table.data_start ≡ ok header
      → slice t row (end_of chunk) ≡ ok rows
      → Carried t tables chunk (record { text = header ++ rows; pos = row })

-- The run ends well.
abbrev pub CarriedTo : Bytes → List Table → Chunk → Run Chunk → Type 0
CarriedTo t tables chunk r = (c : Chunk) × (r ≡ ok c) × Carried t tables chunk c

find_table-none :
    (pos : ℕ) (tables : List Table) → find_table pos tables ≡ none → NoTableAt tables pos
unfolding find_table
find_table-none pos [] h = tt
find_table-none pos (x ∷ tables) h = elim (Bool-cases (ltb x.start pos && ltb pos x.end)) [
  | inl found ↦ absurd (let k = rw found at h in cc)
  | inr other ↦ (ground arith, find_table-none pos tables (rw other at h))
]

find_table_inv :
    (t : Bytes) (pos : ℕ) (tables : List Table) (table : Table)
    → AllTables t tables
    → find_table pos tables ≡ some table
    → IsTable t table × IsTableAt tables pos table
unfolding find_table
find_table_inv t pos [] table a h = absurd (cc)
find_table_inv t pos (x ∷ tables) table (i, a) h =
    elim (Bool-cases (ltb x.start pos && ltb pos x.end)) [
      | inl found ↦
          let e : x ≡ table = some_table (rw found at h) in
          (
            subst (IsTable t) e i,
            record {
              among = inl (sym e);
              behind_start = subst (λ y. y.start < pos) e (ground arith);
              before_end = subst (λ y. pos < y.end) e (ground arith);
            },
          )
      | inr other ↦
          let (is, at) = find_table_inv t pos tables table a (rw other at h) in
          (
            is,
            record {
              among = inr at.among;
              behind_start = at.behind_start;
              before_end = at.before_end;
            },
          )
    ]
  where
    some_table : some x ≡ some table → x ≡ table
    some_table d = cc

module _ (t : Bytes) (u : Utf8 t) (tables : List Table) (chunk : Chunk) (here : IsAt t chunk) where
  chunk_slice : Sliced t chunk.pos (end_of chunk) chunk.text
  chunk_slice = slice_inv t chunk.pos (end_of chunk) chunk.text here

  abbrev piece : ℕ → ℕ → Bytes
  piece from to = take (to - from) (drop from t)

  -- The rows from a row boundary to the chunk's end.
  rows_ok :
      (row : ℕ)
      → NextRow t chunk.pos row
      → row < end_of chunk
      → slice t row (end_of chunk) ≡ ok (piece row (end_of chunk))
  rows_ok row n h =
      slice_ok t row (end_of chunk) (omega arith) chunk_slice.le_len
        (boundary-StartsLine t row u n.starts) chunk_slice.to_boundary

  carry_into-CarriedTo :
      (table : Table) (header : Bytes)
      → IsTable t table
      → IsTableAt tables chunk.pos table
      → table.data_start ≤ chunk.pos
      → slice t table.start table.data_start ≡ ok header
      → length header ≡ table.data_start - table.start
      → CarriedTo t tables chunk (carry_into t table chunk header)
  unfolding carry_into
  carry_into-CarriedTo table header i f d s size =
      elim (Bool-cases (ltb max_table_header_chars (length header))) [
        | inl long ↦ (chunk, rw long, long_header table f d (ground arith))
        | inr short ↦
            let (row, runs, n) =
              row_start_lem t chunk.pos (omega (arith, f.behind_start))
                (omega (arith, i.fits, f.before_end)) chunk_slice.from_boundary in
            elim (Bool-cases (leb (end_of chunk) row || leb table.end row)) [
              | inl none' ↦ (
                chunk,
                rw (short, runs, none'),
                no_row table row f d (ground arith) n (ground arith),
              )
              | inr some' ↦
                  let cut = rows_ok row n (ground arith) in
                  (
                    record { text = header ++ piece row (end_of chunk); pos = row },
                    rw (short, runs, some', cut),
                    in_rows table row header _ f d (ground arith) n (ground arith) (ground arith) s
                        cut,
                  )
            ]
      ]

  carry_header-CarriedTo :
      (table : Table)
      → IsTable t table
      → IsTableAt tables chunk.pos table
      → CarriedTo t tables chunk (carry_header t chunk table)
  unfolding carry_header
  carry_header-CarriedTo table i f =
      let start_ok = boundary-StartsLine t table.start u i.starts in
      let data_ok = boundary-StartsLine t table.data_start u i.data_starts in
      let data_le : table.data_start ≤ length t = omega (arith, i.order, i.fits) in
      let header_le : table.start ≤ table.data_start = omega (arith, i.header) in
      elim (Bool-cases (ltb chunk.pos table.data_start)) [
        | inl before ↦
            let cut =
              slice_ok t table.start (end_of chunk) (omega (arith, chunk_slice.le, f.behind_start))
                chunk_slice.le_len start_ok chunk_slice.to_boundary in
            (
              record { text = piece table.start (end_of chunk); pos = table.start },
              rw (before, cut),
              in_header table _ f (ground arith) cut,
            )
        | inr behind ↦
            let cut = slice_ok t table.start table.data_start header_le data_le start_ok data_ok in
            rw (behind, cut)
              (carry_into-CarriedTo table _ i f (ground arith) cut
                (length-slice t table.start table.data_start header_le data_le))
      ]

  carry_one-CarriedTo : AllTables t tables → CarriedTo t tables chunk (carry_one t tables chunk)
  unfolding carry_one
  carry_one-CarriedTo a = elim (Option-cases (find_table chunk.pos tables)) [
    | inl e ↦ (chunk, rw (e, carry_one), outside (find_table-none chunk.pos tables e))
    | inr (table, e) ↦
        let (i, at) = find_table_inv t chunk.pos tables table a e in
        rw (e, carry_one) (carry_header-CarriedTo table i at)
  ]

-- Each chunk of the one list stands for the chunk at its place in the other.
abbrev pub AllCarried : Bytes → List Table → List Chunk → List Chunk → Type 0
AllCarried t tables [] [] = Unit
AllCarried t tables (c ∷ chunks) (d ∷ carried) =
    Carried t tables c d × AllCarried t tables chunks carried
AllCarried t tables _ _ = ⊥

abbrev pub AllAt : Bytes → List Chunk → Type 0
AllAt t [] = Unit
AllAt t (c ∷ chunks) = IsAt t c × AllAt t chunks

-- For every text, its tables and chunks that hold the text at their positions, carrying the
-- headers does not panic, and makes of each chunk what `Carried` says.
pub carry_table_headers-AllCarried :
    (t : Bytes) (tables : List Table) (chunks : List Chunk)
    → Utf8 t
    → AllTables t tables
    → AllAt t chunks
    → (carried : List Chunk) × (carry_table_headers t chunks tables ≡ ok carried)
      × AllCarried t tables chunks carried
unfolding carry_table_headers
carry_table_headers-AllCarried t tables [] u a h = ([], refl, tt)
carry_table_headers-AllCarried t tables (c ∷ chunks) u a (h, hs) =
    let (d, runs, is) = carry_one-CarriedTo t u tables c h a in
    let (ds, runs', are) = carry_table_headers-AllCarried t tables chunks u a hs in
    (d ∷ ds, rw (runs, runs'), (is, are))
