-- ===== src/Chunking/Tables/NextRow.antt =====
-- The next row boundary that `carry_table_headers` looks for.
use mathlib.Core.Option
use native.Mathlib.Decide.{dec_le}
use rqmd.Common.{
  ℕ, zero, suc, ◌+◌, ◌-◌, ◌≤◌, ◌<◌, ◌≡◌, ◌≢◌, refl, sym, ap, ◌∙◌, inl, inr, true, Option, none,
  some, [], ◌∷◌, arith, ◌==◌, Bool-cases, length, get_elem?, drop, length-drop, get_elem?-drop,
  get_elem?-lt, ==_iff, take_all, lt_of_get_elem?,
}
use rqmd.Text.{Bytes, newline, ok, slice, is_char_boundary}
use rqmd.Text.Slices.{slice_ok}
use rqmd.Text.Lines.{StartsLine}
use rqmd.Chunking.Snap.{is_char_boundary_end}
use rqmd.Chunking.Tables.{find_newline, byte_at, row_start}

abbrev Found : Bytes → Option ℕ → Type 0
Found s none = (j : ℕ) → get_elem? s j ≢ some newline
Found s (some i) = (get_elem? s i ≡ some newline) × ((j : ℕ) → j < i → get_elem? s j ≢ some newline)

Found-suc :
    (b : ℕ) (s : Bytes) (r : Option ℕ) → b ≢ newline → Found s r → Found (b ∷ s) (Option.map suc r)
Found-suc b s none n f = go
  where
    go : (j : ℕ) → get_elem? (b ∷ s) j ≢ some newline
    go zero = λ h. n (ground arith)
    go (suc j) = f j
Found-suc b s (some i) n f = (f.0, go)
  where
    go : (j : ℕ) → j < suc i → get_elem? (b ∷ s) j ≢ some newline
    go zero l = λ h. n (ground arith)
    go (suc j) l = f.1 j (omega arith)

find_newline-Found : (s : Bytes) → Found s (find_newline s)
unfolding find_newline
find_newline-Found [] = λ j h. cc
find_newline-Found (b ∷ s) = elim (Bool-cases (b == newline)) [
  | inl e ↦ rw e (ap some ((==_iff b newline).0 e), λ j l. absurd (omega arith))
  | inr e ↦ rw e (Found-suc b s _ (λ h. ground arith) (find_newline-Found s))
]

-- The first line start at or behind a position.
pub record NextRow (t : Bytes) (pos row : ℕ) : Type 0 where
  pub le : pos ≤ row
  pub fits : row ≤ length t
  pub starts : StartsLine t row
  pub gap : (q : ℕ) → pos ≤ suc q → suc q < row → get_elem? t q ≢ some newline

byte_at-ok : (t : Bytes) (i b : ℕ) → get_elem? t i ≡ some b → byte_at t i ≡ ok b
unfolding byte_at
byte_at-ok t i b h = rw (h, byte_at)

slice_to_end :
    (t : Bytes) (pos : ℕ)
    → pos ≤ length t
    → is_char_boundary t pos ≡ true
    → slice t pos (length t) ≡ ok (drop pos t)
slice_to_end t pos h b =
    slice_ok t pos (length t) h (omega arith) b (is_char_boundary_end t)
    ∙ ap ok (take_all (length t - pos) (drop pos t) (omega (arith, length-drop pos t)))

NextRow-here : (t : Bytes) (pos : ℕ) → pos ≤ length t → StartsLine t pos → NextRow t pos pos
NextRow-here t pos h s = record {
  le = omega arith;
  fits = h;
  starts = s;
  gap = λ q l r. absurd (omega arith);
}

-- The row that the search for a newline gives.
abbrev row_of : Bytes → ℕ → Option ℕ → ℕ
row_of t pos r = elim r [ none ↦ length t | some i ↦ pos + i + 1 ]

some_eq : (a b : ℕ) → some a ≡ some b → a ≡ b
some_eq a b h = cc

other_byte :
    (t : Bytes) (p q b : ℕ)
    → p ≡ q
    → get_elem? t p ≡ some b
    → b ≢ newline
    → get_elem? t q ≢ some newline
other_byte t p q b e h n = λ g. n (some_eq b newline (sym h ∙ ap (get_elem? t) e ∙ g))

row_of-NextRow :
    (t : Bytes) (pos b : ℕ) (r : Option ℕ)
    → 0 < pos
    → pos < length t
    → get_elem? t (pos - 1) ≡ some b
    → b ≢ newline
    → Found (drop pos t) r
    → NextRow t pos (row_of t pos r)
row_of-NextRow t pos b none p h e n f = record {
  le = omega arith;
  fits = omega arith;
  starts = inr (inr refl);
  gap = λ q l m. elim (dec_le pos q) [
    | yes behind ↦ λ g. f (q - pos) (get_elem?-drop pos (q - pos) q t (omega arith) ∙ g)
    | no before ↦ other_byte t (pos - 1) q b (omega arith) e n
  ];
}
row_of-NextRow t pos b (some i) p h e n f = record {
  le = omega arith;
  fits = omega (arith, lt_of_get_elem? i (drop pos t) f.0, length-drop pos t);
  starts = inr (inl (pos + i, omega arith, sym (get_elem?-drop pos i (pos + i) t refl) ∙ f.0));
  gap = λ q l m. elim (dec_le pos q) [
    | yes behind ↦
        λ g. f.1 (q - pos) (omega arith) (get_elem?-drop pos (q - pos) q t (omega arith) ∙ g)
    | no before ↦ other_byte t (pos - 1) q b (omega arith) e n
  ];
}

pub row_start_lem :
    (t : Bytes) (pos : ℕ)
    → 0 < pos
    → pos < length t
    → is_char_boundary t pos ≡ true
    → (row : ℕ) × (row_start t pos ≡ ok row) × NextRow t pos row
unfolding row_start
row_start_lem t pos p h c =
    let (b, e) = get_elem?-lt (pos - 1) t (omega arith) in
    elim (Bool-cases (b == newline)) [
      | inl n ↦ (
        pos,
        rw (byte_at-ok t (pos - 1) b e, n),
        NextRow-here t pos (omega arith)
            (inr (inl (pos - 1, omega arith, e ∙ ap some ((==_iff b newline).0 n)))),
      )
      | inr n ↦ (
        row_of t pos (find_newline (drop pos t)),
        rw (byte_at-ok t (pos - 1) b e, n, slice_to_end t pos (omega arith) c),
        row_of-NextRow t pos b _ p h e (λ m. ground arith) (find_newline-Found (drop pos t)),
      )
    ]
