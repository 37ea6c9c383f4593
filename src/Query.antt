-- ===== src/Query.antt =====
-- crates/rqmd-core/src/query.rs: the parser of the query language.
pub mod Modes
pub mod Print
mod Examples
use rqmd.Common.{
  Bool, true, false, ◌||◌, Option, none, some, List, [], ◌∷◌, ◌++◌, map, if◌then◌else◌,
}
use rqmd.Text.{Bytes, codes, starts_with, strip_prefix, is_empty, trim}
use rqmd.Text.Lines.{lines, join}

-- `QueryType` of types.rs
pub data QueryType : Type 0 where
  original : QueryType
  lex : QueryType
  vec : QueryType
  hyde : QueryType

pub record SubQuery : Type 0 where
  pub qtype : QueryType
  pub text : Bytes

pub record ParsedQuery : Type 0 where
  pub intent : Option Bytes
  pub subqueries : List SubQuery
  pub expand_text : Option Bytes

-- Drops the empty lines.
unfoldable pub non_empty : List Bytes → List Bytes
non_empty [] = []
non_empty (l ∷ ls) = let rest = non_empty ls in if is_empty l then rest else l ∷ rest

unfoldable pub query_lines : Bytes → List Bytes
unfolding non_empty
query_lines raw = non_empty (map trim (lines raw))

-- The closure of `any`.
unfoldable pub is_typed_line : Bytes → Bool
is_typed_line l =
    starts_with l (codes "lex:")
    || starts_with l (codes "vec:")
    || starts_with l (codes "hyde:")
    || starts_with l (codes "intent:")

unfoldable pub is_typed_doc : List Bytes → Bool
is_typed_doc [] = false
is_typed_doc (l ∷ ls) = is_typed_line l || is_typed_doc ls

unfoldable pub push : QueryType → Bytes → ParsedQuery → ParsedQuery
push qtype text q = record q {
  subqueries = q.subqueries ++ record { qtype = qtype; text = trim text } ∷ [];
}

-- At most one intent line; later ones are ignored.
unfoldable pub set_intent : Bytes → ParsedQuery → ParsedQuery
set_intent text q = elim q.intent [ none ↦ record q { intent = some (trim text) } | some i ↦ q ]

-- The body of the loop over the lines of a document.
unfoldable pub add_line : Bytes → ParsedQuery → ParsedQuery
unfolding push set_intent
add_line line q = elim (strip_prefix line (codes "intent:")) [
  | some text ↦ set_intent text q
  | none ↦ elim (strip_prefix line (codes "lex:")) [
    | some text ↦ push lex text q
    | none ↦ elim (strip_prefix line (codes "vec:")) [
      | some text ↦ push vec text q
      | none ↦ elim (strip_prefix line (codes "hyde:")) [ some text ↦ push hyde text q | none ↦ q ]
    ]
  ]
]

unfoldable pub add_lines : List Bytes → ParsedQuery → ParsedQuery
add_lines [] q = q
add_lines (l ∷ ls) q = add_lines ls (add_line l q)

abbrev pub empty_query : ParsedQuery
empty_query = record { intent = none; subqueries = []; expand_text = none }

unfoldable pub parse_query_document : List Bytes → ParsedQuery
parse_query_document ls = add_lines ls empty_query

unfoldable pub expand : Bytes → ParsedQuery
expand text = record { intent = none; subqueries = []; expand_text = some text }

-- The text of a query with no typed line.
unfoldable pub expand_text_of : List Bytes → Bytes
expand_text_of [] = []
expand_text_of (l ∷ []) = elim (strip_prefix l (codes "expand:")) [
  | some rest ↦ trim rest
  | none ↦ l
]
expand_text_of (l ∷ k ∷ ls) = join (codes " ") (l ∷ k ∷ ls)

unfoldable pub parse_lines : List Bytes → ParsedQuery
parse_lines [] = expand []
parse_lines (l ∷ ls) =
    if is_typed_doc (l ∷ ls)
    then parse_query_document (l ∷ ls)
    else expand (expand_text_of (l ∷ ls))

unfoldable pub parse_query : Bytes → ParsedQuery
unfolding query_lines parse_lines
parse_query raw = parse_lines (query_lines raw)
