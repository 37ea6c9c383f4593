-- ===== src/Query/Print.antt =====
-- A query document written out line by line, and what the parser makes of it.
use rqmd.Common.{
  ℕ, ◌<◌, sym, ◌≡◌, ◌&&◌, leb, ◌==◌, refl, ap, ◌∙◌, true, false, ◌||◌, Option, none, some, List, [],
  ◌∷◌, ◌++◌, map, arith, append_assoc, append-nil,
}
use rqmd.Text.{Bytes, codes, newline, starts_with, strip_prefix, is_empty, trim}
use rqmd.Text.Lines.{lines}
use rqmd.Text.Typed.{
  NoBreak, lines-line, IsTrimmed, trim-IsTrimmed, IsTrimmed-append, AllGraphic, IsGraphic,
}
use rqmd.Query.{
  QueryType, original, lex, vec, hyde, SubQuery, ParsedQuery, non_empty, query_lines, is_typed_line,
  is_typed_doc, add_line, add_lines, empty_query, parse_query_document, parse_lines, parse_query,
}

-- A text that may stand behind a prefix: on one line, with nothing to trim.
abbrev pub IsText : Bytes → Type 0
IsText s = NoBreak s × IsTrimmed s

abbrev pub prefix_of : QueryType → Bytes
prefix_of original = []
prefix_of lex = codes "lex:"
prefix_of vec = codes "vec:"
prefix_of hyde = codes "hyde:"

abbrev pub IsTyped : QueryType → Type 0
IsTyped original = ⊥
IsTyped lex = Unit
IsTyped vec = Unit
IsTyped hyde = Unit

abbrev pub IsDocument : List SubQuery → Type 0
IsDocument [] = Unit
IsDocument (s ∷ ss) = (IsTyped s.qtype × IsText s.text) × IsDocument ss

abbrev pub print_lines : List SubQuery → List Bytes
print_lines [] = []
print_lines (s ∷ ss) = (prefix_of s.qtype ++ s.text) ∷ print_lines ss

abbrev pub intent_line : Option Bytes → List Bytes
intent_line none = []
intent_line (some text) = (codes "intent:" ++ text) ∷ []

abbrev pub IsIntent : Option Bytes → Type 0
IsIntent none = Unit
IsIntent (some text) = IsText text

-- Every line, with its end.
abbrev pub print_all : List Bytes → Bytes
print_all [] = []
print_all (l ∷ ls) = l ++ newline ∷ print_all ls

-- A line that is read back as it stands.
abbrev IsLine : Bytes → Type 0
IsLine l = NoBreak l × IsTrimmed l × (is_empty l ≡ false)

abbrev AllLines : List Bytes → Type 0
AllLines [] = Unit
AllLines (l ∷ ls) = IsLine l × AllLines ls

query_lines-print_all : (ls : List Bytes) → AllLines ls → query_lines (print_all ls) ≡ ls
unfolding query_lines non_empty lines
query_lines-print_all [] h = refl
query_lines-print_all (l ∷ ls) ((n, t, e), h) =
    ap (λ ks. non_empty (map trim ks)) (lines-line l (print_all ls) n)
    ∙ rw (trim-IsTrimmed l t, e) (ap (λ r. l ∷ r) (query_lines-print_all ls h))

-- No byte of a keyword is a line end or white space.
abbrev graphic : {a : ℕ} → (leb 9 a && leb a 13 || a == 32) ≡ false → a < 128 → IsGraphic a
graphic h l = (h, l)

IsLine-prefix :
    (qtype : QueryType) (text : Bytes)
    → IsTyped qtype
    → IsText text
    → IsLine (prefix_of qtype ++ text)
IsLine-prefix original text h k = absurd h
IsLine-prefix lex text h (n, t) = (
  (refl, refl, (refl, refl, (refl, refl, (refl, refl, n)))),
  IsTrimmed-append b'l' (codes "ex:") text keyword t,
  refl,
)
  where
    keyword : AllGraphic (codes "lex:")
    keyword = (
      graphic refl (omega arith),
      (graphic refl (omega arith), (graphic refl (omega arith), (graphic refl (omega arith), tt))),
    )
IsLine-prefix vec text h (n, t) = (
  (refl, refl, (refl, refl, (refl, refl, (refl, refl, n)))),
  IsTrimmed-append b'v' (codes "ec:") text keyword t,
  refl,
)
  where
    keyword : AllGraphic (codes "vec:")
    keyword = (
      graphic refl (omega arith),
      (graphic refl (omega arith), (graphic refl (omega arith), (graphic refl (omega arith), tt))),
    )
IsLine-prefix hyde text h (n, t) = (
  (refl, refl, (refl, refl, (refl, refl, (refl, refl, (refl, refl, n))))),
  IsTrimmed-append b'h' (codes "yde:") text keyword t,
  refl,
)
  where
    keyword : AllGraphic (codes "hyde:")
    keyword = (
      graphic refl (omega arith),
      (
        graphic refl (omega arith),
        (
          graphic refl (omega arith),
          (graphic refl (omega arith), (graphic refl (omega arith), tt)),
        ),
      ),
    )

IsLine-intent : (text : Bytes) → IsText text → IsLine (codes "intent:" ++ text)
IsLine-intent text (n, t) = (
  (
    refl,
    refl,
    (refl, refl, (refl, refl, (refl, refl, (refl, refl, (refl, refl, (refl, refl, n)))))),
  ),
  IsTrimmed-append b'i' (codes "ntent:") text keyword t,
  refl,
)
  where
    keyword : AllGraphic (codes "intent:")
    keyword = (
      graphic refl (omega arith),
      (
        graphic refl (omega arith),
        (
          graphic refl (omega arith),
          (
            graphic refl (omega arith),
            (
              graphic refl (omega arith),
              (graphic refl (omega arith), (graphic refl (omega arith), tt)),
            ),
          ),
        ),
      ),
    )

abbrev append_subquery : ParsedQuery → QueryType → Bytes → ParsedQuery
append_subquery q qtype text = record q {
  subqueries = q.subqueries ++ record { qtype = qtype; text = text } ∷ [];
}

add_line-prefix :
    (qtype : QueryType) (text : Bytes) (q : ParsedQuery)
    → IsTyped qtype
    → trim text ≡ text
    → add_line (prefix_of qtype ++ text) q ≡ append_subquery q qtype text
unfolding add_line strip_prefix
add_line-prefix original text q h t = absurd h
add_line-prefix lex text q h t = ap (append_subquery q lex) t
add_line-prefix vec text q h t = ap (append_subquery q vec) t
add_line-prefix hyde text q h t = ap (append_subquery q hyde) t

add_lines-print_lines :
    (ss : List SubQuery) (q : ParsedQuery)
    → IsDocument ss
    → add_lines (print_lines ss) q ≡ record q { subqueries = q.subqueries ++ ss }
unfolding add_lines
add_lines-print_lines [] q h = ap (λ r. record q { subqueries = r }) (sym (append-nil q.subqueries))
add_lines-print_lines (s ∷ ss) q ((h, (n, t)), hs) =
    ap (add_lines (print_lines ss)) (add_line-prefix s.qtype s.text q h (trim-IsTrimmed s.text t))
    ∙ add_lines-print_lines ss (append_subquery q s.qtype s.text) hs
    ∙ ap (λ r. record q { subqueries = r }) (append_assoc q.subqueries (s ∷ []) ss)

AllLines-print_lines : (ss : List SubQuery) → IsDocument ss → AllLines (print_lines ss)
AllLines-print_lines [] h = tt
AllLines-print_lines (s ∷ ss) ((h, k), hs) =
    (IsLine-prefix s.qtype s.text h k, AllLines-print_lines ss hs)

typed-prefix :
    (qtype : QueryType) (text : Bytes)
    → IsTyped qtype
    → is_typed_line (prefix_of qtype ++ text) ≡ true
unfolding is_typed_line starts_with
typed-prefix original text h = absurd h
typed-prefix lex text h = refl
typed-prefix vec text h = refl
typed-prefix hyde text h = refl

-- The lines of a document with at least one sub-query, its intent first.
abbrev pub print_query : Option Bytes → SubQuery → List SubQuery → Bytes
print_query intent s ss = print_all (intent_line intent ++ print_lines (s ∷ ss))

add_line-intent :
    (text : Bytes)
    → trim text ≡ text
    → add_line (codes "intent:" ++ text) empty_query ≡ record empty_query { intent = some text }
unfolding add_line strip_prefix
add_line-intent text t = ap (λ r. record empty_query { intent = some r }) t

AllLines-intent :
    (intent : Option Bytes) (ls : List Bytes)
    → IsIntent intent
    → AllLines ls
    → AllLines (intent_line intent ++ ls)
AllLines-intent none ls i h = h
AllLines-intent (some text) ls i h = (IsLine-intent text i, h)

parse_lines-print :
    (intent : Option Bytes) (s : SubQuery) (ss : List SubQuery)
    → IsIntent intent
    → IsDocument (s ∷ ss)
    → parse_lines (intent_line intent ++ print_lines (s ∷ ss))
      ≡ record { intent = intent; subqueries = s ∷ ss; expand_text = none }
unfolding parse_lines is_typed_doc parse_query_document add_lines is_typed_line starts_with
parse_lines-print none s ss i ((h, k), hs) =
    rw (typed-prefix s.qtype s.text h) (add_lines-print_lines (s ∷ ss) empty_query ((h, k), hs))
parse_lines-print (some text) s ss (n, t) h =
    ap (add_lines (print_lines (s ∷ ss))) (add_line-intent text (trim-IsTrimmed text t))
    ∙ add_lines-print_lines (s ∷ ss) (record empty_query { intent = some text }) h

-- A document's lines, one sub-query per line and its intent in front, give back the intent, the
-- sub-queries in their order and no text to expand, if every text is trimmed and on one line.
pub parse_query-print_query :
    (intent : Option Bytes) (s : SubQuery) (ss : List SubQuery)
    → IsIntent intent
    → IsDocument (s ∷ ss)
    → parse_query (print_query intent s ss)
      ≡ record { intent = intent; subqueries = s ∷ ss; expand_text = none }
unfolding parse_query
parse_query-print_query intent s ss i h =
    ap parse_lines (
      query_lines-print_all (intent_line intent ++ print_lines (s ∷ ss))
        (AllLines-intent intent (print_lines (s ∷ ss)) i (AllLines-print_lines (s ∷ ss) h)))
    ∙ parse_lines-print intent s ss i h
