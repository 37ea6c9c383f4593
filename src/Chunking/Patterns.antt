-- ===== src/Chunking/Patterns.antt =====
-- chunking.rs, BREAK_PATTERNS: each regular expression as a function from a text to the length of
-- the match at its front, and `Regex::find_iter`.
-- `digit_len` stands for the regex crate's `\d`: the length of the decimal digit that a text begins
-- with, 0 if there is none.
use rqmd.Common.{
  ℕ, zero, suc, ◌+◌, ◌-◌, ◌&&◌, ◌||◌, Option, none, some, List, [], ◌∷◌, ltb, ◌==◌, if◌then◌else◌,
}
use mathlib.Core.Option
use rqmd.Text.{Bytes, newline, space_len, starts_with}

-- Of a `find_iter` match the code reads the start, and for fences the end.
pub record Match : Type 0 where
  pub start : ℕ
  pub end : ℕ

-- Leftmost matches that do not overlap. The first number counts the bytes of a match that are still
-- to be passed. (No pattern matches the empty text.)
unfoldable pub find_from : (Bytes → Option ℕ) → ℕ → ℕ → Bytes → List Match
find_from m k off [] = []
find_from m (suc k) off (b ∷ s) = find_from m k (off + 1) s
find_from m zero off (b ∷ s) = elim (m (b ∷ s)) [
  | none ↦ find_from m 0 (off + 1) s
  | some n ↦ record { start = off; end = off + n } ∷ find_from m (n - 1) (off + 1) s
]

unfoldable pub find_iter : (Bytes → Option ℕ) → Bytes → List Match
unfolding find_from
find_iter m t = find_from m 0 0 t

-- r"```"
unfoldable pub fence_mark : Bytes → Option ℕ
unfolding starts_with
fence_mark s = if starts_with s (b'`' ∷ b'`' ∷ b'`' ∷ []) then some 3 else none

-- The bytes of the character that begins with `b`.
char_len : ℕ → ℕ
char_len b = if ltb b 128 then 1 else if ltb b 224 then 2 else if ltb b 240 then 3 else 4

-- `n` times #, then [^#]
heading_tail : ℕ → Bytes → Option ℕ
heading_tail n [] = none
heading_tail zero (b ∷ s) = if b == b'#' then none else some (char_len b)
heading_tail (suc n) (b ∷ s) = if b == b'#' then Option.map suc (heading_tail n s) else none

-- \s*\n, greedy: up to the last newline of the white space. The last argument but one is the length
-- up to the last newline seen.
rule_end : ℕ → ℕ → Option ℕ → Bytes → Option ℕ
rule_end k n best [] = best
rule_end (suc k) n best (b ∷ s) = rule_end k (n + 1) best s
rule_end zero n best (b ∷ s) = elim (space_len (b ∷ s)) [
  | zero ↦ best
  | suc k ↦ rule_end k (n + 1) (if b == newline then some (n + 1) else best) s
]

-- (?:---|\*\*\*|___)\s*\n
rule_tail : Bytes → Option ℕ
rule_tail (a ∷ b ∷ c ∷ s) =
    if (a == b'-' || a == b'*' || a == b'_') && b == a && c == a then rule_end 0 3 none s else none
rule_tail s = none

newlines : Bytes → ℕ
newlines [] = 0
newlines (b ∷ s) = let rest = newlines s in if b == newline then suc rest else 0

-- \n+
blank_tail : Bytes → Option ℕ
blank_tail s = elim (newlines s) [ zero ↦ none | suc n ↦ some (suc n) ]

space_after : ℕ → Bytes → Option ℕ
space_after n s = elim (space_len s) [ zero ↦ none | suc k ↦ some (n + suc k) ]

-- [-*]\s
bullet_tail : Bytes → Option ℕ
bullet_tail [] = none
bullet_tail (b ∷ s) = if b == b'-' || b == b'*' then space_after 1 s else none

pub data Pattern : Type 0 where
  heading : ℕ → Pattern
  fence rule blank bullet numbered line : Pattern

module _ (digit_len : Bytes → ℕ) where
  -- \d+\.\s
  numbered_tail : ℕ → ℕ → Bytes → Option ℕ
  numbered_tail k n [] = none
  numbered_tail (suc k) n (b ∷ s) = numbered_tail k (n + 1) s
  numbered_tail zero n (b ∷ s) = elim (digit_len (b ∷ s)) [
    | zero ↦ if ltb 0 n && b == b'.' then space_after (n + 1) s else none
    | suc k ↦ numbered_tail k (n + 1) s
  ]

  -- What a pattern asks behind its newline.
  tail_len : Pattern → Bytes → Option ℕ
  unfolding heading_tail char_len rule_tail rule_end blank_tail newlines bullet_tail space_after
      numbered_tail space_len starts_with
  tail_len (heading n) s = heading_tail n s
  tail_len fence s = if starts_with s (b'`' ∷ b'`' ∷ b'`' ∷ []) then some 3 else none
  tail_len rule s = rule_tail s
  tail_len blank s = blank_tail s
  tail_len bullet s = bullet_tail s
  tail_len numbered s = numbered_tail 0 0 s
  tail_len line s = some 0

  -- Every pattern begins with \n.
  unfoldable pub match_len : Pattern → Bytes → Option ℕ
  unfolding tail_len
  match_len p [] = none
  match_len p (b ∷ s) = if b == newline then Option.map suc (tail_len p s) else none

-- The patterns with their scores.
abbrev pub break_patterns : List (Pattern × ℕ)
break_patterns =
    (heading 1, 100)
    ∷ (heading 2, 90)
    ∷ (heading 3, 80)
    ∷ (heading 4, 70)
    ∷ (heading 5, 60)
    ∷ (heading 6, 50)
    ∷ (fence, 80)
    ∷ (rule, 60)
    ∷ (blank, 20)
    ∷ (bullet, 5)
    ∷ (numbered, 5)
    ∷ (line, 1)
    ∷ []
