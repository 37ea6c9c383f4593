-- ===== src/Text/Typed.antt =====
-- Lines that are read back as they were written, and texts that `trim` leaves alone.
use rqmd.Common.{
  ℕ, ◌<◌, ◌≡◌, refl, ap, ◌∙◌, false, ◌&&◌, ◌||◌, [], ◌∷◌, ◌++◌, map, arith, leb, ◌==◌,
}
use rqmd.Text.{Bytes, newline, trim, trim_start, trim_end, skip_spaces, space_len}
use rqmd.Text.Lines.{lines, split_inclusive, onto_first, strip_line_end, carriage_return}

-- No line feed and no carriage return.
abbrev pub NoBreak : Bytes → Type 0
NoBreak [] = Unit
NoBreak (b ∷ s) = ((b == newline) ≡ false) × ((b == carriage_return) ≡ false) × NoBreak s

split_inclusive-line :
    (l rest : Bytes)
    → NoBreak l
    → split_inclusive (l ++ newline ∷ rest) ≡ (l ++ newline ∷ []) ∷ split_inclusive rest
unfolding split_inclusive
split_inclusive-line [] rest h = refl
split_inclusive-line (b ∷ l) rest (n, r, h) =
    rw n (ap (onto_first b) (split_inclusive-line l rest h))

strip_line_end-line : (l : Bytes) → NoBreak l → strip_line_end (l ++ newline ∷ []) ≡ l
unfolding strip_line_end
strip_line_end-line [] h = refl
strip_line_end-line (b ∷ []) (n, r, h) = rw r refl
strip_line_end-line (b ∷ c ∷ []) (n, r, h) = ap (λ s. b ∷ s) (strip_line_end-line (c ∷ []) h)
strip_line_end-line (b ∷ c ∷ d ∷ l) (n, r, h) = ap (λ s. b ∷ s) (strip_line_end-line (c ∷ d ∷ l) h)

pub lines-line : (l rest : Bytes) → NoBreak l → lines (l ++ newline ∷ rest) ≡ l ∷ lines rest
unfolding lines
lines-line l rest h =
    ap (map strip_line_end) (split_inclusive-line l rest h)
    ∙ ap (λ k. k ∷ map strip_line_end (split_inclusive rest)) (strip_line_end-line l h)

abbrev pub IsTrimmed : Bytes → Type 0
IsTrimmed s = (trim_start s ≡ s) × (trim_end s ≡ s)

pub trim-IsTrimmed : (s : Bytes) → IsTrimmed s → trim s ≡ s
unfolding trim
trim-IsTrimmed s (h, k) = ap trim_start k ∙ h

-- An ASCII byte that is no white space.
abbrev pub IsGraphic : ℕ → Type 0
IsGraphic a = ((leb 9 a && leb a 13 || a == 32) ≡ false) × (a < 128)

space_len-graphic : (a : ℕ) (s : Bytes) → IsGraphic a → space_len (a ∷ s) ≡ 0
unfolding space_len
space_len-graphic a [] (h, l) = rw h refl
space_len-graphic a (b ∷ []) (h, l) = rw h (ground arith)
space_len-graphic a (b ∷ c ∷ s) (h, l) = rw h (ground arith)

pub trim_start-graphic : (a : ℕ) (s : Bytes) → IsGraphic a → trim_start (a ∷ s) ≡ a ∷ s
unfolding trim_start skip_spaces
trim_start-graphic a s h = rw (space_len-graphic a s h, trim_start, skip_spaces) refl

trim_end-graphic : (a : ℕ) (s : Bytes) → IsGraphic a → trim_end (a ∷ s) ≡ a ∷ trim_end s
unfolding trim_end
trim_end-graphic a s h = rw (trim_start-graphic a s h) refl

abbrev pub AllGraphic : Bytes → Type 0
AllGraphic [] = Unit
AllGraphic (a ∷ s) = IsGraphic a × AllGraphic s

trim_end-append : (p s : Bytes) → AllGraphic p → trim_end s ≡ s → trim_end (p ++ s) ≡ p ++ s
trim_end-append [] s h k = k
trim_end-append (a ∷ p) s (g, h) k =
    trim_end-graphic a (p ++ s) g ∙ ap (λ r. a ∷ r) (trim_end-append p s h k)

-- A text behind graphic characters is trimmed if its end is.
pub IsTrimmed-append :
    (a : ℕ) (p s : Bytes) → AllGraphic (a ∷ p) → IsTrimmed s → IsTrimmed (a ∷ p ++ s)
IsTrimmed-append a p s (g, h) (k, l) =
    (trim_start-graphic a (p ++ s) g, trim_end-append (a ∷ p) s (g, h) l)
