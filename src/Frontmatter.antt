-- ===== src/Frontmatter.antt =====
-- crates/rqmd-core/src/frontmatter.rs: the scan of a document's frontmatter.
pub mod Closing
pub mod Split
pub mod Terms
mod Examples
use mathlib.Core.Option
use rqmd.Common.{
  ℕ, zero, suc, ◌+◌, ◌-◌, Bool, true, false, not, ◌&&◌, ◌||◌, Option, none, some, List, [], ◌∷◌,
  ◌++◌, leb, ◌==◌, if◌then◌else◌, length, get_elem?, take, drop,
}
use rqmd.Text.{
  Bytes, bytes_eq, codes, newline, Run, ok, panic, out_of_fuel, ◌>>=◌, slice, starts_with,
  strip_prefix, is_empty, trim,
}
use rqmd.Text.Lines.{lines, split_on}

pub record Frontmatter : Type 0 where
  pub title : Option Bytes
  pub terms : List Bytes

-- `text.find(c)` for a character of one byte
unfoldable pub find_byte : ℕ → Bytes → Option ℕ
find_byte c [] = none
find_byte c (b ∷ s) = if b == c then some 0 else Option.map suc (find_byte c s)

unfoldable pub all_returns : Bytes → Bool
all_returns [] = true
all_returns (b ∷ s) = b == 13 && all_returns s

-- `trim_end_matches('\r')`
unfoldable pub trim_end_returns : Bytes → Bytes
unfolding all_returns
trim_end_returns [] = []
trim_end_returns (b ∷ s) = if all_returns (b ∷ s) then [] else b ∷ trim_end_returns s

-- `text.split_once(c)`
unfoldable pub split_once : ℕ → Bytes → Option (Bytes × Bytes)
unfolding find_byte
split_once c s = Option.map (λ i. (take i s, drop (suc i) s)) (find_byte c s)

unfoldable pub is_quoted : ℕ → Bytes → Bool
is_quoted q [] = false
is_quoted q (b ∷ s) =
    b == q && elim (get_elem? (b ∷ s) (length s)) [ none ↦ false | some l ↦ l == q ]

-- A quote is one byte, so both ends of the slice are character boundaries.
unfoldable pub unquote : Bytes → Bytes
unfolding is_quoted
unquote s =
    if leb 2 (length s) && (is_quoted b'"' s || is_quoted 39 s)
    then take (length s - 2) (drop 1 s)
    else s

-- `strip_suffix(']')`
unfoldable pub strip_bracket : Bytes → Option Bytes
strip_bracket [] = none
strip_bracket (b ∷ []) = if b == b']' then some [] else none
strip_bracket (b ∷ c ∷ s) = Option.map (λ r. b ∷ r) (strip_bracket (c ∷ s))

unfoldable pub trimmed_items : List Bytes → List Bytes
trimmed_items [] = []
trimmed_items (s ∷ ss) =
    let rest = trimmed_items ss in if is_empty (trim s) then rest else trim s ∷ rest

unfoldable pub flow_list_items : Bytes → List Bytes
unfolding strip_bracket trimmed_items
flow_list_items value = elim (strip_prefix value (codes "[")) [
  | none ↦ value ∷ []
  | some v ↦ elim (strip_bracket v) [
    | none ↦ value ∷ []
    | some inner ↦ trimmed_items (split_on b',' inner)
  ]
]

-- The variables of the loop of `parse_block`.
pub record Scan : Type 0 where
  pub title : Option Bytes
  pub terms : List Bytes
  pub list_key : Option Bytes

unfoldable pub push_term : Bytes → Scan → Scan
push_term v s = if is_empty v then s else record s { terms = s.terms ++ v ∷ [] }

unfoldable pub push_items : List Bytes → Scan → Scan
unfolding push_term unquote
push_items [] s = s
push_items (item ∷ items) s = push_items items (push_term (unquote item) s)

abbrev pub is_terms_key : Bytes → Bool
is_terms_key key = bytes_eq key (codes "tags") || bytes_eq key (codes "aliases")

unfoldable pub list_item : Bytes → Bytes → Scan → Scan
unfolding push_term unquote
list_item key trimmed s = elim (strip_prefix (trim trimmed) (codes "-")) [
  | none ↦ s
  | some item ↦ if is_terms_key key then push_term (unquote (trim item)) s else s
]

unfoldable pub continue_list : Bytes → Scan → Scan
unfolding list_item
continue_list trimmed s = elim s.list_key [ none ↦ s | some key ↦ list_item key trimmed s ]

unfoldable pub set_title : Bytes → Scan → Scan
set_title v s = if is_empty v then s else record s { title = some v }

-- `title.is_none()`
abbrev pub no_title : Option Bytes → Bool
no_title none = true
no_title (some t) = false

-- The match on the key of a line with a value.
unfoldable pub key_value : Bytes → Bytes → Scan → Scan
unfolding set_title push_items flow_list_items unquote
key_value key value s =
    if bytes_eq key (codes "title") && no_title s.title
    then set_title (unquote value) s
    else if is_terms_key key
    then push_items (flow_list_items value) s
    else s

unfoldable pub top_level : Bytes → Bytes → Scan → Scan
unfolding key_value
top_level key value s =
    if is_empty value
    then record s { list_key = some key }
    else key_value key value (record s { list_key = none })

-- The body of the loop over the lines.
unfoldable pub parse_line : Bytes → Scan → Scan
unfolding trim_end_returns continue_list split_once top_level
parse_line line s =
    let trimmed = trim_end_returns line in
    if is_empty (trim trimmed)
    then s
    else if starts_with trimmed (codes " ") || starts_with trimmed (codes "-")
    then continue_list trimmed s
    else elim (split_once b':' trimmed) [
      | none ↦ record s { list_key = none }
      | some kv ↦ top_level (trim kv.0) (trim kv.1) s
    ]

unfoldable pub parse_lines_from : List Bytes → Scan → Scan
unfolding parse_line
parse_lines_from [] s = s
parse_lines_from (l ∷ ls) s = parse_lines_from ls (parse_line l s)

unfoldable pub parse_block : Bytes → Frontmatter
unfolding parse_lines_from
parse_block block =
    let s = parse_lines_from (lines block) (record { title = none; terms = []; list_key = none }) in
    record { title = s.title; terms = s.terms }

unfoldable pub opens_fence : List Bytes → Bool
opens_fence [] = false
opens_fence (l ∷ ls) = bytes_eq l (codes "---")

-- The end of the loop: the block and the body.
unfoldable pub close_fence : Bytes → ℕ → ℕ → ℕ → Run (Option (Bytes × Bytes))
close_fence raw after_open pos body_start = do
  block ← slice raw after_open pos
  body ← slice raw body_start (length raw)
  ok (some (block, body))

-- The loop for the closing fence. Each round begins further on, so the bytes of the text are fuel enough.
unfoldable pub scan_fence : ℕ → Bytes → ℕ → ℕ → Run (Option (Bytes × Bytes))
unfolding find_byte trim_end_returns close_fence
scan_fence zero raw after_open pos = out_of_fuel
scan_fence (suc fuel) raw after_open pos = do
  rest ← slice raw pos (length raw)
  elim (find_byte newline rest) [
    | none ↦
        if bytes_eq (trim_end_returns rest) (codes "---")
        then close_fence raw after_open pos (length raw)
        else ok none
    | some i ↦ do
      line ← slice raw pos (pos + i)
      if bytes_eq (trim_end_returns line) (codes "---")
          then close_fence raw after_open pos (suc (pos + i))
          else scan_fence fuel raw after_open (suc (pos + i))
  ]

unfoldable pub to_split : Bytes → Run (Option (Bytes × Bytes)) → Run (Option Frontmatter × Bytes)
unfolding parse_block
to_split raw panic = panic
to_split raw out_of_fuel = out_of_fuel
to_split raw (ok none) = ok (none, raw)
to_split raw (ok (some (block, body))) = ok (some (parse_block block), body)

unfoldable pub split_frontmatter : Bytes → Run (Option Frontmatter × Bytes)
unfolding opens_fence scan_fence to_split find_byte
split_frontmatter raw =
    if opens_fence (lines raw)
    then elim (find_byte newline raw) [
      | none ↦ ok (none, raw)
      | some i ↦ to_split raw (scan_fence (suc (length raw)) raw (suc i) (suc i))
    ]
    else ok (none, raw)
