-- ===== src/Cjk.antt =====
-- crates/rqmd-core/src/cjk_tokenizer.rs: the token filter that splits CJK runs into bigrams.
pub mod Pieces
pub mod Stream
mod Examples
use rqmd.Common.{
  ℕ, zero, suc, ◌+◌, ◌*◌, ◌%◌, Bool, true, false, not, ◌&&◌, ◌||◌, Option, none, some, List, [],
  ◌∷◌, ◌++◌, ltb, leb, ◌==◌, if◌then◌else◌, length,
}
use rqmd.Text.{Bytes, Run, ok, panic, out_of_fuel, ◌>>=◌, slice, is_continuation}

unfoldable pub is_cjk : ℕ → Bool
is_cjk c =
    leb 0x3040 c && leb c 0x30ff
    || leb 0x3400 c && leb c 0x4dbf
    || leb 0x4e00 c && leb c 0x9fff
    || leb 0xac00 c && leb c 0xd7af
    || leb 0xf900 c && leb c 0xfaff
    || leb 0xff66 c && leb c 0xff9f

-- Takes the low six bits of the next bytes behind a value.
unfoldable pub more_bits : ℕ → ℕ → Bytes → ℕ
more_bits zero value s = value
more_bits (suc n) value [] = value
more_bits (suc n) value (b ∷ s) = more_bits n (value * 64 + b % 64) s

-- The character that begins with a byte.
unfoldable pub code_point : ℕ → Bytes → ℕ
unfolding more_bits
code_point b s =
    if ltb b 128
    then b
    else if ltb b 224
    then more_bits 1 (b % 32) s
    else if ltb b 240
    then more_bits 2 (b % 16) s
    else more_bits 3 (b % 8) s

-- `text.char_indices()` from an offset on: a character begins at every byte that continues none.
unfoldable pub char_indices : ℕ → Bytes → List (ℕ × ℕ)
unfolding is_continuation
char_indices i [] = []
char_indices i (b ∷ s) =
    let rest = char_indices (suc i) s in
    if is_continuation b then rest else (i, code_point b s) ∷ rest

-- `Token` of tantivy
pub record Token : Type 0 where
  pub offset_from : ℕ
  pub offset_to : ℕ
  pub position : ℕ
  pub text : Bytes
  pub position_length : ℕ

unfoldable pub piece : Token → ℕ → ℕ → Run Token
piece source from to = do
  text ← slice source.text from to
  ok (record {
    offset_from = source.offset_from + from;
    offset_to = source.offset_from + to;
    position = 0;
    text = text;
    position_length = 1;
  })

-- The loop over the boundaries of a CJK run.
unfoldable pub bigrams : Token → ℕ → List ℕ → Run (List Token)
unfolding piece
bigrams token end [] = ok []
bigrams token end (from ∷ []) = ok []
bigrams token end (from ∷ mid ∷ []) = do p ← piece token from end; ok (p ∷ [])
bigrams token end (from ∷ mid ∷ to ∷ rest) = do
  p ← piece token from to
  ps ← bigrams token end (mid ∷ to ∷ rest)
  ok (p ∷ ps)

unfoldable pub flush_run : Token → ℕ → ℕ → Bool → List ℕ → Run (List Token)
unfolding piece bigrams
flush_run token start end is_cjk_run boundaries =
    if not is_cjk_run || length boundaries == 1
    then (do p ← piece token start end; ok (p ∷ []))
    else bigrams token end boundaries

unfoldable pub bool_eq : Bool → Bool → Bool
bool_eq true b = b
bool_eq false b = not b

-- The loop over the characters and the last flush, once `run_is_cjk` holds a value.
unfoldable pub split_run : Token → List (ℕ × ℕ) → ℕ → Bool → List ℕ → Run (List Token)
unfolding flush_run bool_eq
split_run token [] run_start was_cjk boundaries =
    flush_run token run_start (length token.text) was_cjk boundaries
split_run token ((i, c) ∷ chars) run_start was_cjk boundaries =
    let same = split_run token chars run_start was_cjk (boundaries ++ i ∷ []) in
    let other = split_run token chars i (is_cjk c) (i ∷ []) in
    if bool_eq (is_cjk c) was_cjk
    then same
    else do ps ← flush_run token run_start i was_cjk boundaries; qs ← other; ok (ps ++ qs)

-- Before the first character there is no run.
unfoldable pub split_chars : Token → List (ℕ × ℕ) → Run (List Token)
unfolding split_run
split_chars token [] = ok []
split_chars token ((i, c) ∷ chars) = split_run token chars i (is_cjk c) (i ∷ [])

unfoldable pub any_cjk : List (ℕ × ℕ) → Bool
any_cjk [] = false
any_cjk ((i, c) ∷ chars) = is_cjk c || any_cjk chars

-- What `split` pushes.
unfoldable pub split : Token → Run (List Token)
unfolding split_chars any_cjk char_indices
split token =
    let chars = char_indices 0 token.text in
    if any_cjk chars then split_chars token chars else ok (token ∷ [])

-- `CjkBigramStream`: `tail` is what the inner stream still gives.
pub record CjkBigramStream : Type 0 where
  pub tail : List Token
  pub pending : List Token
  pub current : Option Token
  pub next_position : ℕ

-- `advance` with nothing pending: the loop over the inner stream's tokens.
unfoldable pub advance_tail : List Token → Option Token → ℕ → Run (Bool × CjkBigramStream)
unfolding split
advance_tail [] current next =
    ok (false, record { tail = []; pending = []; current = current; next_position = next })
advance_tail (token ∷ tail) current next = do
  ps ← split token
  elim ps [
    | [] ↦ advance_tail tail current next
    | ◌∷◌ p ps ↦ ok (
      true,
      record {
        tail = tail;
        pending = ps;
        current = some (record p { position = next });
        next_position = suc next;
      },
    )
  ]

unfoldable pub advance : CjkBigramStream → Run (Bool × CjkBigramStream)
unfolding advance_tail
advance s = elim s.pending [
  | [] ↦ advance_tail s.tail s.current s.next_position
  | ◌∷◌ p ps ↦ ok (
    true,
    record s {
      pending = ps;
      current = some (record p { position = s.next_position });
      next_position = suc s.next_position;
    },
  )
]
