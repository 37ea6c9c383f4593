-- ===== src/Chunking/Tables/Rows.antt =====
-- The tables of a text begin and end at line starts, in order.
use rqmd.Common.{
  ℕ, ◌+◌, ◌-◌, ◌≤◌, ◌<◌, ◌≡◌, refl, sym, ap, subst, ◌∙◌, inl, inr, not, ◌&&◌, List, [], ◌∷◌, ◌++◌,
  arith, Bool-cases, length, drop, drop-drop, length-drop, get_elem?-drop,
}
use rqmd.Text.{Bytes}
use rqmd.Text.Lines.{split_inclusive, StartsLine, split_inclusive-FirstLine}
use rqmd.Chunking.{CodeFenceRegion}
use rqmd.Chunking.Breaks.{inside_fence}
use rqmd.Chunking.Tables.{
  Table, is_table_row, is_separator_row, run_end, first_offset, flush, scan_rows, scan_tables,
}

-- A table of the text: its header, its data rows and its end begin lines (or end the text).
pub record IsTable (t : Bytes) (table : Table) : Type 0 where
  pub starts : StartsLine t table.start
  pub data_starts : StartsLine t table.data_start
  pub ends : StartsLine t table.end
  pub header : table.start < table.data_start
  pub order : table.data_start ≤ table.end
  pub fits : table.end ≤ length t

abbrev pub AllTables : Bytes → List Table → Type 0
AllTables t [] = Unit
AllTables t (table ∷ tables) = IsTable t table × AllTables t tables

AllTables-append :
    (t : Bytes) (xs ys : List Table) → AllTables t xs → AllTables t ys → AllTables t (xs ++ ys)
AllTables-append t [] ys h k = k
AllTables-append t (x ∷ xs) ys (i, h) k = (i, AllTables-append t xs ys h k)

-- A run of rows that follow one another from `o` to `e`.
abbrev Rows : Bytes → ℕ → List (ℕ × Bytes) → ℕ → Type 0
Rows t o [] e = o ≡ e
Rows t o ((p, l) ∷ rows) e =
    (p ≡ o) × StartsLine t o × (0 < length l) × Rows t (o + length l) rows e

Rows-snoc :
    (t : Bytes) (o e : ℕ) (rows : List (ℕ × Bytes)) (l : Bytes)
    → Rows t o rows e
    → StartsLine t e
    → 0 < length l
    → Rows t o (rows ++ (e, l) ∷ []) (e + length l)
Rows-snoc t o e [] l r s h = (sym r, subst (StartsLine t) (sym r) s, h, ap (λ i. i + length l) r)
Rows-snoc t o e ((p, k) ∷ rows) l (q, b, g, r) s h =
    (q, b, g, Rows-snoc t (o + length k) e rows l r s h)

run_end-Rows :
    (t : Bytes) (o e : ℕ) (rows : List (ℕ × Bytes))
    → Rows t o rows e
    → (run_end o rows ≡ e) × (o ≤ e)
run_end-Rows t o e [] r = (r, omega arith)
run_end-Rows t o e ((p, k) ∷ rows) (q, b, g, r) =
    let i = run_end-Rows t (o + length k) e rows r in
    (ap (λ j. run_end (j + length k) rows) q ∙ i.0, omega (arith, i.1))

first_offset-Rows :
    (t : Bytes) (o e : ℕ) (rows : List (ℕ × Bytes))
    → Rows t o rows e
    → StartsLine t e
    → (first_offset e rows ≡ o) × StartsLine t o
first_offset-Rows t o e [] r s = (sym r, subst (StartsLine t) (sym r) s)
first_offset-Rows t o e ((p, k) ∷ rows) (q, b, g, r) s = (q, b)

flush-AllTables :
    (t : Bytes) (o e : ℕ) (run : List (ℕ × Bytes))
    → Rows t o run e
    → StartsLine t e
    → e ≤ length t
    → AllTables t (flush run)
unfolding flush
flush-AllTables t o e [] r s h = tt
flush-AllTables t o e (row ∷ []) r s h = tt
flush-AllTables t o e ((p, header) ∷ (q, separator) ∷ rows) (a, b, g, (c, d, f, r)) s h =
    elim (Bool-cases (is_separator_row separator)) [
      | inl yes' ↦ rw yes' (table, tt)
      | inr no' ↦ rw no' tt
    ]
  where
    end_is : run_end (q + length separator) rows ≡ e
    end_is =
        ap (λ j. run_end (j + length separator) rows) c
        ∙ (run_end-Rows t (o + length header + length separator) e rows r).0

    table : IsTable t (record {
      start = p;
      data_start = first_offset (run_end (q + length separator) rows) rows;
      end = run_end (q + length separator) rows;
    })
    table =
        let i = first_offset-Rows t (o + length header + length separator) e rows r s in
        rw (end_is, i.0)
          (record {
            starts = subst (StartsLine t) (sym a) b;
            data_starts = i.1;
            ends = s;
            header = omega arith;
            order = (run_end-Rows t (o + length header + length separator) e rows r).1;
            fits = h;
          })

-- The line that the loop reads next, and the offset behind it.
record NextLine (t : Bytes) (offset : ℕ) (l : Bytes) (ls : List Bytes) : Type 0 where
  long : 0 < length l
  fits : offset + length l ≤ length t
  starts : StartsLine t (offset + length l)
  rest : ls ≡ split_inclusive (drop (offset + length l) t)

NextLine_lem :
    (t : Bytes) (offset : ℕ) (l : Bytes) (ls : List Bytes)
    → offset ≤ length t
    → l ∷ ls ≡ split_inclusive (drop offset t)
    → NextLine t offset l ls
NextLine_lem t offset l ls h e =
    let f = split_inclusive-FirstLine (drop offset t) l ls (sym e) in
    record {
      long = f.long;
      fits = omega (arith, f.fits, length-drop offset t);
      starts = elim f.ends [
        | inl n ↦ inr (
            inl (
              offset + (length l - 1),
              omega (arith, f.long),
              sym (get_elem?-drop offset (length l - 1) _ t refl) ∙ n,
            ))
        | inr n ↦ inr (inr (omega (arith, n, f.long, length-drop offset t)))
      ];
      rest = f.rest ∙ ap split_inclusive (drop-drop offset (length l) _ t refl);
    }

scan_rows-AllTables :
    (t : Bytes) (fences : List CodeFenceRegion) (o : ℕ) (run : List (ℕ × Bytes)) (offset : ℕ)
    (ls : List Bytes)
    → Rows t o run offset
    → StartsLine t offset
    → offset ≤ length t
    → ls ≡ split_inclusive (drop offset t)
    → AllTables t (scan_rows fences run offset ls)
unfolding scan_rows
scan_rows-AllTables t fences o run offset [] r s h e = flush-AllTables t o offset run r s h
scan_rows-AllTables t fences o run offset (l ∷ ls) r s h e =
    let n = NextLine_lem t offset l ls h e in
    elim (Bool-cases (is_table_row l && not (inside_fence offset fences))) [
      | inl row ↦ rw row (
          scan_rows-AllTables t fences o (run ++ (offset, l) ∷ []) (offset + length l) ls
            (Rows-snoc t o offset run l r s n.long) n.starts n.fits n.rest)
      | inr other ↦ rw other (
          AllTables-append t (flush run) _ (flush-AllTables t o offset run r s h) (
            scan_rows-AllTables t fences (offset + length l) [] (offset + length l) ls refl n.starts
              n.fits n.rest))
    ]

-- Every table found in a text begins and ends at a line start (or the end of the text), and so do
-- its data rows, with at least a byte of header before them.
pub scan_tables-AllTables :
    (t : Bytes) (fences : List CodeFenceRegion) → AllTables t (scan_tables t fences)
unfolding scan_tables
scan_tables-AllTables t fences =
    scan_rows-AllTables t fences 0 [] 0 (split_inclusive t) refl (inl refl) (omega arith) refl
