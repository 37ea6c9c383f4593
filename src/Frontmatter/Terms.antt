-- ===== src/Frontmatter/Terms.antt =====
-- What the scan of a block keeps.
use rqmd.Common.{
  ◌≡◌, false, ◌&&◌, ◌||◌, Option, none, some, List, [], ◌∷◌, ◌++◌, Bool-cases, Option-cases, inl,
  inr,
}
use rqmd.Text.{Bytes, bytes_eq, codes, starts_with, strip_prefix, is_empty, trim}
use rqmd.Text.Lines.{lines}
use rqmd.Frontmatter.{
  Scan, push_term, push_items, unquote, is_terms_key, list_item, continue_list, set_title, no_title,
  key_value, flow_list_items, top_level, parse_line, parse_lines_from, parse_block,
  trim_end_returns, split_once,
}

abbrev pub AllFilled : List Bytes → Type 0
AllFilled [] = Unit
AllFilled (t ∷ ts) = (is_empty t ≡ false) × AllFilled ts

abbrev pub IsFilled : Option Bytes → Type 0
IsFilled none = Unit
IsFilled (some t) = is_empty t ≡ false

AllFilled-push :
    (ts : List Bytes) (t : Bytes) → AllFilled ts → is_empty t ≡ false → AllFilled (ts ++ t ∷ [])
AllFilled-push [] t h k = (k, tt)
AllFilled-push (x ∷ ts) t (h, hs) k = (h, AllFilled-push ts t hs k)

-- No empty title and no empty term so far.
abbrev Kept : Scan → Type 0
Kept s = IsFilled s.title × AllFilled s.terms

Kept-push_term : (v : Bytes) (s : Scan) → Kept s → Kept (push_term v s)
unfolding push_term
Kept-push_term v s (h, k) = elim (Bool-cases (is_empty v)) [
  | inl e ↦ rw e (h, k)
  | inr e ↦ rw e (h, AllFilled-push s.terms v k e)
]

Kept-push_items : (items : List Bytes) (s : Scan) → Kept s → Kept (push_items items s)
unfolding push_items
Kept-push_items [] s h = h
Kept-push_items (item ∷ items) s h =
    Kept-push_items items (push_term (unquote item) s) (Kept-push_term (unquote item) s h)

Kept-set_title : (v : Bytes) (s : Scan) → Kept s → Kept (set_title v s)
unfolding set_title
Kept-set_title v s (h, k) = elim (Bool-cases (is_empty v)) [
  | inl e ↦ rw e (h, k)
  | inr e ↦ rw e (e, k)
]

Kept-list_item : (key trimmed : Bytes) (s : Scan) → Kept s → Kept (list_item key trimmed s)
unfolding list_item
Kept-list_item key trimmed s h = elim (Option-cases (strip_prefix (trim trimmed) (codes "-"))) [
  | inl e ↦ rw (e, list_item) h
  | inr (item, e) ↦
      rw (e, list_item)
        (elim (Bool-cases (is_terms_key key)) [
          | inl c ↦ rw c (Kept-push_term (unquote (trim item)) s h)
          | inr c ↦ rw c h
        ])
]

Kept-continue_list : (trimmed : Bytes) (s : Scan) → Kept s → Kept (continue_list trimmed s)
unfolding continue_list
Kept-continue_list trimmed s h = elim (Option-cases s.list_key) [
  | inl e ↦ rw (e, continue_list) h
  | inr (key, e) ↦ rw (e, continue_list) (Kept-list_item key trimmed s h)
]

Kept-key_value : (key value : Bytes) (s : Scan) → Kept s → Kept (key_value key value s)
unfolding key_value
Kept-key_value key value s h =
    elim (Bool-cases (bytes_eq key (codes "title") && no_title s.title)) [
      | inl e ↦ rw e (Kept-set_title (unquote value) s h)
      | inr e ↦ rw e (elim (Bool-cases (is_terms_key key)) [
        | inl c ↦ rw c (Kept-push_items (flow_list_items value) s h)
        | inr c ↦ rw c h
      ])
    ]

Kept-top_level : (key value : Bytes) (s : Scan) → Kept s → Kept (top_level key value s)
unfolding top_level
Kept-top_level key value s h = elim (Bool-cases (is_empty value)) [
  | inl e ↦ rw e h
  | inr e ↦ rw e (Kept-key_value key value (record s { list_key = none }) h)
]

Kept-parse_line : (line : Bytes) (s : Scan) → Kept s → Kept (parse_line line s)
unfolding parse_line
Kept-parse_line line s h = elim (Bool-cases (is_empty (trim (trim_end_returns line)))) [
  | inl e ↦ rw e h
  | inr e ↦
      rw e
        (elim (Bool-cases (
          starts_with (trim_end_returns line) (codes " ")
          || starts_with (trim_end_returns line) (codes "-"))) [
            | inl c ↦ rw c (Kept-continue_list (trim_end_returns line) s h)
            | inr c ↦ rw c (elim (Option-cases (split_once b':' (trim_end_returns line))) [
              | inl f ↦ rw f h
              | inr (kv, f) ↦ rw f (Kept-top_level (trim kv.0) (trim kv.1) s h)
            ])
          ])
]

Kept-parse_lines_from : (ls : List Bytes) (s : Scan) → Kept s → Kept (parse_lines_from ls s)
unfolding parse_lines_from
Kept-parse_lines_from [] s h = h
Kept-parse_lines_from (l ∷ ls) s h =
    Kept-parse_lines_from ls (parse_line l s) (Kept-parse_line l s h)

-- For every block, the title, if there is one, and every term are not empty.
pub parse_block-IsFilled :
    (block : Bytes) → IsFilled (parse_block block).title × AllFilled (parse_block block).terms
unfolding parse_block
parse_block-IsFilled block =
    Kept-parse_lines_from (lines block) (record { title = none; terms = []; list_key = none })
      (tt, tt)
