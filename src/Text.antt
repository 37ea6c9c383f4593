-- ===== src/Text.antt =====
-- Rust's `str` as its bytes: what the crates use of the standard library's text functions.
pub mod Utf8
pub mod Lines
pub mod Slices
pub mod Equal
pub mod Typed
pub mod Decimal
use Prim.Native.Char.{code}
use Prim.Native.String.{String}
use rqmd.Common.{
  ℕ, zero, suc, ◌+◌, ◌-◌, Bool, true, false, not, ◌&&◌, ◌||◌, Option, none, some, List, [], ◌∷◌,
  ltb, leb, ◌==◌, if◌then◌else◌, length, take, drop,
}

abbrev pub Bytes : Type 0
Bytes = List ℕ

-- The bytes of an ASCII literal.
abbrev pub codes : String → Bytes
codes String.[] = []
codes (String.◌∷◌ c s) = code c ∷ codes s

-- `a == b`
unfoldable pub bytes_eq : Bytes → Bytes → Bool
bytes_eq [] [] = true
bytes_eq [] (c ∷ t) = false
bytes_eq (b ∷ s) [] = false
bytes_eq (b ∷ s) (c ∷ t) = b == c && bytes_eq s t

abbrev pub newline : ℕ
newline = 10

-- `(b as i8) < -0x40`
unfoldable pub is_continuation : ℕ → Bool
is_continuation b = leb 128 b && ltb b 192

-- Whether a character begins, or the text ends, at an index.
unfoldable pub boundary_at : Bytes → ℕ → Bool
unfolding is_continuation
boundary_at [] zero = true
boundary_at [] (suc i) = false
boundary_at (b ∷ s) zero = not (is_continuation b)
boundary_at (b ∷ s) (suc i) = boundary_at s i

-- `str::is_char_boundary`
unfoldable pub is_char_boundary : Bytes → ℕ → Bool
unfolding boundary_at
is_char_boundary t zero = true
is_char_boundary t (suc i) = boundary_at t (suc i)

-- How a run of the code ends. `panic` is a slice out of range or off a character boundary;
-- `out_of_fuel` belongs to the model of the loops only.
pub data Run {ℓ} (A : Type ℓ) : Type ℓ where
  ok : A → Run A
  panic : Run A
  out_of_fuel : Run A

infixl 5 ◌>>=◌
abbrev pub ◌>>=◌ {ℓ κ} : {A : Type ℓ} {B : Type κ} → Run A → (A → Run B) → Run B
ok a >>= f = f a
panic >>= f = panic
out_of_fuel >>= f = out_of_fuel

-- `&text[from..to]`
unfoldable pub slice : Bytes → ℕ → ℕ → Run Bytes
slice t from to =
    if leb from to && leb to (length t) && is_char_boundary t from && is_char_boundary t to
    then ok (take (to - from) (drop from t))
    else panic

-- `text.starts_with(prefix)`
unfoldable pub starts_with : Bytes → Bytes → Bool
starts_with s [] = true
starts_with [] (p ∷ ps) = false
starts_with (b ∷ s) (p ∷ ps) = b == p && starts_with s ps

-- `text.strip_prefix(prefix)`
unfoldable pub strip_prefix : Bytes → Bytes → Option Bytes
strip_prefix s [] = some s
strip_prefix [] (p ∷ ps) = none
strip_prefix (b ∷ s) (p ∷ ps) = if b == p then strip_prefix s ps else none

-- `text.is_empty()`
abbrev pub is_empty : Bytes → Bool
is_empty [] = true
is_empty (b ∷ s) = false

-- The length of the White_Space character that a text begins with, 0 if there is none. The cases
-- are the property's code points in UTF-8.
unfoldable pub space_len : Bytes → ℕ
space_len [] = 0
space_len (a ∷ []) = if leb 9 a && leb a 13 || a == 32 then 1 else 0
space_len (a ∷ b ∷ []) =
    if leb 9 a && leb a 13 || a == 32
    then 1
    else if a == 0xc2 && (b == 0x85 || b == 0xa0)
    then 2
    else 0
space_len (a ∷ b ∷ c ∷ s) =
    if leb 9 a && leb a 13 || a == 32
    then 1
    else if a == 0xc2 && (b == 0x85 || b == 0xa0)
    then 2
    else if a == 0xe1 && b == 0x9a && c == 0x80
        || a == 0xe2
          && b == 0x80
          && (leb 0x80 c && leb c 0x8a || c == 0xa8 || c == 0xa9 || c == 0xaf)
        || a == 0xe2 && b == 0x81 && c == 0x9f
        || a == 0xe3 && b == 0x80 && c == 0x80
    then 3
    else 0

-- Drops the leading white space; the number counts the bytes of a character still to be dropped.
unfoldable pub skip_spaces : ℕ → Bytes → Bytes
skip_spaces k [] = []
skip_spaces (suc k) (b ∷ s) = skip_spaces k s
skip_spaces zero (b ∷ s) = elim (space_len (b ∷ s)) [ zero ↦ b ∷ s | suc k ↦ skip_spaces k s ]

-- `text.trim_start()`
unfoldable pub trim_start : Bytes → Bytes
unfolding skip_spaces space_len
trim_start s = skip_spaces 0 s

-- `text.trim_end()`: a suffix of white space alone is dropped.
unfoldable pub trim_end : Bytes → Bytes
unfolding trim_start
trim_end [] = []
trim_end (b ∷ s) = if is_empty (trim_start (b ∷ s)) then [] else b ∷ trim_end s

-- `text.trim()`
unfoldable pub trim : Bytes → Bytes
unfolding trim_end
trim s = trim_start (trim_end s)

-- `a < b`
unfoldable pub bytes_lt : Bytes → Bytes → Bool
bytes_lt s [] = false
bytes_lt [] (c ∷ t) = true
bytes_lt (b ∷ s) (c ∷ t) = ltb b c || b == c && bytes_lt s t

-- Whether a list or a set of texts contains a text.
unfoldable pub contains : Bytes → List Bytes → Bool
unfolding bytes_eq
contains s [] = false
contains s (t ∷ ts) = bytes_eq t s || contains s ts
