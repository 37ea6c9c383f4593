-- ===== src/Chunking/Windows/Whole.antt =====
-- No byte of a text is lost: the chunks without their overlaps are the text.
use rqmd.Common.{
  ℕ, zero, suc, ◌-◌, ◌≤◌, ◌≡◌, refl, sym, ap, ap₂, ◌∙◌, List, [], ◌∷◌, ◌++◌, arith, take, drop,
  drop-drop, take-append-drop, drop_all,
}
use rqmd.Text.{Bytes, ok}
use rqmd.Text.Utf8.{Utf8}
use rqmd.Text.Slices.{slice_inv}
use rqmd.Chunking.{Chunk, BreakPoint}
use rqmd.Chunking.Windows.{chunk_from_break_points}
use rqmd.Chunking.Windows.Cover.{end_of, IsAt, Follows, Covers, chunk_from_break_points-Covered}

-- The chunks joined, each without the bytes that lie before `done`.
abbrev pub join_chunks : ℕ → List Chunk → Bytes
join_chunks done [] = []
join_chunks done (c ∷ chunks) = drop (done - c.pos) c.text ++ join_chunks (end_of c) chunks

drop-take-join :
    {A : Type 0} (k n : ℕ) (xs : List A) → k ≤ n → drop k (take n xs) ++ drop n xs ≡ drop k xs
drop-take-join zero n xs h = take-append-drop n xs
drop-take-join (suc k) zero xs h = absurd (omega arith)
drop-take-join (suc k) (suc n) [] h = refl
drop-take-join (suc k) (suc n) (x ∷ xs) h = drop-take-join k n xs (omega arith)

IsAt-drop :
    (t : Bytes) (c : Chunk) (done : ℕ)
    → IsAt t c
    → c.pos ≤ done
    → done ≤ end_of c
    → drop (done - c.pos) c.text ++ drop (end_of c) t ≡ drop done t
IsAt-drop t c done h le le' =
    let s = slice_inv t c.pos (end_of c) c.text h in
    let n = end_of c - c.pos in
    ap₂ (λ (a b : Bytes). a ++ b) (ap (drop (done - c.pos)) s.is)
      (sym (drop-drop c.pos n (end_of c) t (omega arith)))
    ∙ drop-take-join (done - c.pos) n (drop c.pos t) (omega arith)
    ∙ drop-drop c.pos (done - c.pos) done t (omega arith)

-- The chunk behind a chunk that the loop cut reaches at least as far.
end_of-le :
    (t : Bytes) (c d : Chunk) (chunks : List Chunk)
    → IsAt t c
    → Follows c d
    → Covers t d.pos (d ∷ chunks)
    → end_of c ≤ end_of d
end_of-le t c d [] h f (_, _, e, _) = omega (arith, (slice_inv t c.pos (end_of c) c.text h).le_len)
end_of-le t c d (e ∷ chunks) h f (_, _, g, _) = omega (arith, f.near, g.long)

Covers-join :
    (t : Bytes) (start done : ℕ) (c : Chunk) (chunks : List Chunk)
    → Covers t start (c ∷ chunks)
    → start ≤ done
    → done ≤ end_of c
    → join_chunks done (c ∷ chunks) ≡ drop done t
Covers-join t start done c [] (p, h, e, _) le le' =
    ap (λ r. drop (done - c.pos) c.text ++ r) (sym (drop_all (end_of c) t (omega arith)))
    ∙ IsAt-drop t c done h (omega arith) le'
Covers-join t start done c (d ∷ chunks) (p, h, f, r) le le' =
    ap (λ s. drop (done - c.pos) c.text ++ s)
      (Covers-join t d.pos (end_of c) d chunks r (omega (arith, f.overlap))
        (end_of-le t c d chunks h f r))
    ∙ IsAt-drop t c done h (omega arith) le'

Covers-join_all : (t : Bytes) (chunks : List Chunk) → Covers t 0 chunks → join_chunks 0 chunks ≡ t
Covers-join_all t [] h = absurd h
Covers-join_all t (c ∷ chunks) h = Covers-join t 0 0 c chunks h (omega arith) (omega arith)

-- For every text and all break points, the chunks that cutting the text gives, joined without the
-- bytes that each shares with the one before, are the text.
pub join_chunks-chunk_from_break_points :
    (t : Bytes) (points : List BreakPoint)
    → Utf8 t
    → (chunks : List Chunk) × (chunk_from_break_points t points ≡ ok chunks)
      × (join_chunks 0 chunks ≡ t)
join_chunks-chunk_from_break_points t points u =
    let r = chunk_from_break_points-Covered t points u in
    (r.chunks, r.runs, Covers-join_all t r.chunks r.covers)
