-- ===== src/Text/Lines.antt =====
-- `split_inclusive('\n')`, `str::lines`, `split(c)`, and where a line may begin.
use rqmd.Common.{
  ℕ, zero, suc, ◌-◌, ◌≤◌, ◌<◌, ◌≡◌, refl, sym, ap, subst₂, ◌∙◌, ==_iff, ◌⊎◌, inl, inr, true, false,
  some, List, [], ◌∷◌, ◌++◌, map, arith, ◌==◌, if◌then◌else◌, Bool-cases, length, get_elem?, drop,
}
use rqmd.Text.{Bytes, newline, boundary_at, is_char_boundary}
use rqmd.Text.Utf8.{Utf8, boundary_behind_newline, boundary_at_end}

-- Puts a byte in front of the first piece.
abbrev pub onto_first : ℕ → List Bytes → List Bytes
onto_first b [] = (b ∷ []) ∷ []
onto_first b (l ∷ ls) = (b ∷ l) ∷ ls

unfoldable pub split_inclusive : Bytes → List Bytes
split_inclusive [] = []
split_inclusive (b ∷ s) =
    let rest = split_inclusive s in if b == newline then (b ∷ []) ∷ rest else onto_first b rest

abbrev pub carriage_return : ℕ
carriage_return = 13

-- A line without its "\n" or "\r\n".
unfoldable pub strip_line_end : Bytes → Bytes
strip_line_end [] = []
strip_line_end (b ∷ []) = if b == newline then [] else b ∷ []
strip_line_end (b ∷ c ∷ []) =
    if c == newline then (if b == carriage_return then [] else b ∷ []) else b ∷ c ∷ []
strip_line_end (b ∷ c ∷ d ∷ s) = b ∷ strip_line_end (c ∷ d ∷ s)

-- `text.lines()`
unfoldable pub lines : Bytes → List Bytes
unfolding split_inclusive strip_line_end
lines s = map strip_line_end (split_inclusive s)

-- `text.split(c)` for a character of one byte
unfoldable pub split_on : ℕ → Bytes → List Bytes
split_on c [] = [] ∷ []
split_on c (b ∷ s) = let rest = split_on c s in if b == c then [] ∷ rest else onto_first b rest

-- `pieces.join(separator)`
unfoldable pub join : Bytes → List Bytes → Bytes
join sep [] = []
join sep (l ∷ []) = l
join sep (l ∷ k ∷ ls) = l ++ sep ++ join sep (k ∷ ls)

-- An offset at which a line begins, or the end of the text.
abbrev pub StartsLine : Bytes → ℕ → Type 0
StartsLine t o = (o ≡ 0) ⊎ ((p : ℕ) × (o ≡ suc p) × (get_elem? t p ≡ some newline)) ⊎ (o ≡ length t)

pub boundary-StartsLine :
    (t : Bytes) (o : ℕ) → Utf8 t → StartsLine t o → is_char_boundary t o ≡ true
unfolding is_char_boundary
boundary-StartsLine t zero u h = refl
boundary-StartsLine t (suc o) u (inl e) = absurd (omega arith)
boundary-StartsLine t (suc o) u (inr (inl (p, e, h))) =
    ap (boundary_at t) e ∙ boundary_behind_newline p u h
boundary-StartsLine t (suc o) u (inr (inr e)) = ap (boundary_at t) e ∙ boundary_at_end t

-- The first line of a text, and what is left.
pub record FirstLine (s l : Bytes) (ls : List Bytes) : Type 0 where
  pub long : 0 < length l
  pub fits : length l ≤ length s
  pub ends : (get_elem? s (length l - 1) ≡ some newline) ⊎ (length l ≡ length s)
  pub rest : ls ≡ split_inclusive (drop (length l) s)

FirstLine-onto :
    (b : ℕ) (s l : Bytes) (ls : List Bytes) → FirstLine s l ls → FirstLine (b ∷ s) (b ∷ l) ls
FirstLine-onto b s l ls f = record {
  long = omega arith;
  fits = omega (arith, f.fits);
  ends = elim f.ends [
    | inl h ↦ inl (
        let e : suc (length l) - 1 ≡ suc (length l - 1) = omega (arith, f.long) in
        ap (get_elem? (b ∷ s)) e ∙ h)
    | inr e ↦ inr (ap suc e)
  ];
  rest = f.rest;
}

FirstLine-eq :
    {s l l' : Bytes} {ls ls' : List Bytes}
    → FirstLine s l ls
    → l ∷ ls ≡ l' ∷ ls'
    → FirstLine s l' ls'
FirstLine-eq {s} {l} {l'} {ls} {ls'} f h =
    let e : l ≡ l' = cc in let e' : ls ≡ ls' = cc in subst₂ (λ x y. FirstLine s x y) e e' f

-- A text with no line is empty.
split_inclusive-nil : (s : Bytes) → split_inclusive s ≡ [] → s ≡ []
unfolding split_inclusive
split_inclusive-nil [] h = refl
split_inclusive-nil (b ∷ s) h = absurd (go (split_inclusive s) (Bool-cases (b == newline)) h)
  where
    go :
        (rest : List Bytes)
        → ((b == newline) ≡ true) ⊎ ((b == newline) ≡ false)
        → (if b == newline then (b ∷ []) ∷ rest else onto_first b rest) ≡ []
        → ⊥
    go [] c h = ground arith
    go (l ∷ ls) c h = ground arith

FirstLine-longer :
    (b : ℕ) (s : Bytes) (rest : List Bytes)
    → split_inclusive s ≡ rest
    → ((l' : Bytes) (ls' : List Bytes) → rest ≡ l' ∷ ls' → FirstLine s l' ls')
    → (b == newline) ≡ false
    → (l : Bytes) (ls : List Bytes) → onto_first b rest ≡ l ∷ ls
    → FirstLine (b ∷ s) l ls
unfolding split_inclusive
FirstLine-longer b s [] e ih n l ls h =
    FirstLine-eq
      (record {
        long = omega arith;
        fits = omega arith;
        ends = inr (ap (λ r. suc (length r)) (sym (split_inclusive-nil s e)));
        rest = sym e;
      })
      h
FirstLine-longer b s (k ∷ ks) e ih n l ls h =
    FirstLine-eq (FirstLine-onto b s k ks (ih k ks refl)) h

pub split_inclusive-FirstLine :
    (s l : Bytes) (ls : List Bytes) → split_inclusive s ≡ l ∷ ls → FirstLine s l ls
unfolding split_inclusive
split_inclusive-FirstLine [] l ls h = absurd (cc)
split_inclusive-FirstLine (b ∷ s) l ls h = elim (Bool-cases (b == newline)) [
  | inl n ↦
      FirstLine-eq
        (record {
          long = omega arith;
          fits = omega arith;
          ends = inl (ap some ((==_iff b newline).0 n));
          rest = refl;
        })
        (rw n at h)
  | inr n ↦
      FirstLine-longer b s (split_inclusive s) refl
        (λ l' ls' e. split_inclusive-FirstLine s l' ls' e) n l ls (rw n at h)
]
