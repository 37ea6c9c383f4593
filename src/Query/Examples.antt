-- ===== src/Query/Examples.antt =====
-- Tests of the query parser, and its theorems at concrete queries.
use rqmd.Common.{◌≡◌, refl, none, some, [], ◌∷◌, ◌++◌}
use rqmd.Text.{Bytes, codes, newline, trim, trim_start, trim_end, skip_spaces, space_len}
use rqmd.Query.{
  ParsedQuery, SubQuery, lex, vec, is_typed_doc, query_lines, expand, parse_query, parse_lines,
  expand_text_of,
}
use rqmd.Query.Modes.{IsMode, parse_query-IsMode}
use rqmd.Query.Print.{print_query, parse_query-print_query}

abbrev auth : SubQuery
auth = record { qtype = lex; text = codes "auth" }

abbrev login : SubQuery
login = record { qtype = vec; text = codes "log in" }

-- A blank line, an indented line and a line end of two bytes.
abbrev raw_document : Bytes
raw_document = newline ∷ codes "  lex: auth" ++ 13 ∷ newline ∷ newline ∷ codes "vec:log in "

parse_raw_document :
    parse_query raw_document
    ≡ record { intent = none; subqueries = auth ∷ login ∷ []; expand_text = none }
unfolding parse_query rqmd.Text.Lines.lines trim is_typed_doc rqmd.Query.is_typed_line
    rqmd.Text.starts_with rqmd.Query.parse_query_document rqmd.Query.add_lines rqmd.Query.add_line
    rqmd.Text.strip_prefix
parse_raw_document = refl

parse_expand : parse_query (codes "expand: error handling") ≡ expand (codes "error handling")
unfolding parse_query expand rqmd.Text.Lines.lines trim is_typed_doc rqmd.Query.is_typed_line
    rqmd.Text.starts_with expand_text_of rqmd.Text.strip_prefix
parse_expand = refl

parse_two_lines :
    parse_query (codes "a" ++ newline ∷ codes "expand: b") ≡ expand (codes "a expand: b")
unfolding parse_query expand rqmd.Text.Lines.lines trim is_typed_doc rqmd.Query.is_typed_line
    rqmd.Text.starts_with expand_text_of rqmd.Text.Lines.join
parse_two_lines = refl

parse_query-IsMode_example :
    IsMode
      (query_lines raw_document)
      (is_typed_doc (query_lines raw_document))
      (parse_query raw_document)
parse_query-IsMode_example = parse_query-IsMode raw_document

parse_query-print_query_example :
    parse_query (print_query (some (codes "web")) auth (login ∷ []))
    ≡ record { intent = some (codes "web"); subqueries = auth ∷ login ∷ []; expand_text = none }
unfolding trim_start trim_end
parse_query-print_query_example =
    parse_query-print_query (some (codes "web")) auth (login ∷ [])
      ((refl, refl, (refl, refl, (refl, refl, tt))), (refl, refl))
      (
        (tt, ((refl, refl, (refl, refl, (refl, refl, (refl, refl, tt)))), (refl, refl))),
        (
          (
            tt,
            (
              (
                refl,
                refl,
                (refl, refl, (refl, refl, (refl, refl, (refl, refl, (refl, refl, tt))))),
              ),
              (refl, refl),
            ),
          ),
          tt,
        ),
      )
