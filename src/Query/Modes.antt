-- ===== src/Query/Modes.antt =====
-- A query is either a document or a text to expand, and what is read from its lines.
use rqmd.Common.{
  ◌≡◌, ◌≢◌, inl, inr, refl, sym, ap, ◌∙◌, Bool, true, false, Option, none, some, Option-cases,
  Bool-cases, List, [], ◌∷◌, ◌++◌, ◌==◌, ==_iff, append_assoc, append-nil, subst, if◌then◌else◌,
}
use rqmd.Text.{Bytes, codes, strip_prefix, trim}
use rqmd.Text.Lines.{join}
use rqmd.Query.{
  QueryType, SubQuery, ParsedQuery, lex, vec, hyde, add_line, add_lines, push, set_intent,
  is_typed_doc, query_lines, expand, expand_text_of, parse_query_document, parse_lines, parse_query,
  empty_query,
}

-- The text behind a prefix, trimmed.
abbrev behind : Bytes → Bytes → List Bytes
behind prefix l = elim (strip_prefix l prefix) [ none ↦ [] | some text ↦ trim text ∷ [] ]

abbrev typed : QueryType → List Bytes → List SubQuery
typed qtype [] = []
typed qtype (text ∷ texts) = record { qtype = qtype; text = text } ∷ typed qtype texts

-- The sub-queries of a line.
abbrev subs_of : Bytes → List SubQuery
subs_of l =
    typed lex (behind (codes "lex:") l)
    ++ typed vec (behind (codes "vec:") l)
    ++ typed hyde (behind (codes "hyde:") l)

abbrev all_subs : List Bytes → List SubQuery
all_subs [] = []
all_subs (l ∷ ls) = subs_of l ++ all_subs ls

abbrev all_intents : List Bytes → List Bytes
all_intents [] = []
all_intents (l ∷ ls) = behind (codes "intent:") l ++ all_intents ls

abbrev or_first : Option Bytes → List Bytes → Option Bytes
or_first (some i) texts = some i
or_first none [] = none
or_first none (i ∷ texts) = some i

or_first-append :
    (o : Option Bytes) (xs ys : List Bytes) → or_first (or_first o xs) ys ≡ or_first o (xs ++ ys)
or_first-append (some i) xs ys = refl
or_first-append none [] ys = refl
or_first-append none (x ∷ xs) ys = refl

-- What a line adds.
abbrev Adds : Bytes → ParsedQuery → Type 0
Adds l q =
    ((add_line l q).intent ≡ or_first q.intent (behind (codes "intent:") l))
    × ((add_line l q).subqueries ≡ q.subqueries ++ subs_of l)
    × ((add_line l q).expand_text ≡ q.expand_text)

none_more : (o : Option Bytes) → o ≡ or_first o []
none_more none = refl
none_more (some i) = refl

-- A query that a line leaves as it is.
adds_nothing :
    (q : ParsedQuery)
    → (q.intent ≡ or_first q.intent [])
      × (q.subqueries ≡ q.subqueries ++ [])
      × (q.expand_text ≡ q.expand_text)
adds_nothing q = (none_more q.intent, sym (append-nil q.subqueries), refl)

-- The lines that can have a prefix, by their first byte.
add_line-Adds-i : (s : Bytes) (q : ParsedQuery) → Adds (b'i' ∷ s) q
unfolding add_line set_intent strip_prefix
add_line-Adds-i s q = elim (Option-cases (strip_prefix (b'i' ∷ s) (codes "intent:"))) [
  | inl e ↦ rw e (adds_nothing q)
  | inr (x, e) ↦ elim (Option-cases q.intent) [
    | inl k ↦ rw (e, k) (refl, sym (append-nil q.subqueries), refl)
    | inr (i, k) ↦ rw (e, k) (refl, sym (append-nil q.subqueries), refl)
  ]
]

add_line-Adds-l : (s : Bytes) (q : ParsedQuery) → Adds (b'l' ∷ s) q
unfolding add_line push strip_prefix
add_line-Adds-l s q = elim (Option-cases (strip_prefix (b'l' ∷ s) (codes "lex:"))) [
  | inl e ↦ rw e (adds_nothing q)
  | inr (x, e) ↦ rw e (none_more q.intent, refl, refl)
]

add_line-Adds-v : (s : Bytes) (q : ParsedQuery) → Adds (b'v' ∷ s) q
unfolding add_line push strip_prefix
add_line-Adds-v s q = elim (Option-cases (strip_prefix (b'v' ∷ s) (codes "vec:"))) [
  | inl e ↦ rw e (adds_nothing q)
  | inr (x, e) ↦ rw e (none_more q.intent, refl, refl)
]

add_line-Adds-h : (s : Bytes) (q : ParsedQuery) → Adds (b'h' ∷ s) q
unfolding add_line push strip_prefix
add_line-Adds-h s q = elim (Option-cases (strip_prefix (b'h' ∷ s) (codes "hyde:"))) [
  | inl e ↦ rw e (adds_nothing q)
  | inr (x, e) ↦ rw e (none_more q.intent, refl, refl)
]

add_line-Adds-other :
    (l : Bytes) (q : ParsedQuery)
    → strip_prefix l (codes "intent:") ≡ none
    → strip_prefix l (codes "lex:") ≡ none
    → strip_prefix l (codes "vec:") ≡ none
    → strip_prefix l (codes "hyde:") ≡ none
    → Adds l q
unfolding add_line strip_prefix
add_line-Adds-other l q e e₁ e₂ e₃ = rw (e, e₁, e₂, e₃) (adds_nothing q)

add_line-Adds : (l : Bytes) (q : ParsedQuery) → Adds l q
unfolding add_line strip_prefix
add_line-Adds [] q = adds_nothing q
add_line-Adds (b ∷ s) q = elim (Bool-cases (b == b'i')) [
  | inl e ↦ rw ((==_iff b b'i').0 e) (add_line-Adds-i s q)
  | inr e ↦ elim (Bool-cases (b == b'l')) [
    | inl e₁ ↦ rw ((==_iff b b'l').0 e₁) (add_line-Adds-l s q)
    | inr e₁ ↦ elim (Bool-cases (b == b'v')) [
      | inl e₂ ↦ rw ((==_iff b b'v').0 e₂) (add_line-Adds-v s q)
      | inr e₂ ↦ elim (Bool-cases (b == b'h')) [
        | inl e₃ ↦ rw ((==_iff b b'h').0 e₃) (add_line-Adds-h s q)
        | inr e₃ ↦ add_line-Adds-other (b ∷ s) q (rw e refl) (rw e₁ refl) (rw e₂ refl) (rw e₃ refl)
      ]
    ]
  ]
]

-- What the lines of a document are read to.
pub record IsRead (ls : List Bytes) (from q : ParsedQuery) : Type 0 where
  pub intent : q.intent ≡ or_first from.intent (all_intents ls)
  pub subqueries : q.subqueries ≡ from.subqueries ++ all_subs ls
  pub expand_text : q.expand_text ≡ from.expand_text

add_lines-IsRead : (ls : List Bytes) (q : ParsedQuery) → IsRead ls q (add_lines ls q)
unfolding add_lines
add_lines-IsRead [] q = record {
  intent = none_more q.intent;
  subqueries = sym (append-nil q.subqueries);
  expand_text = refl;
}
add_lines-IsRead (l ∷ ls) q =
    let (i, s, t) = add_line-Adds l q in
    let h = add_lines-IsRead ls (add_line l q) in
    record {
      intent =
          h.intent
          ∙ ap (λ o. or_first o (all_intents ls)) i
          ∙ or_first-append q.intent (behind (codes "intent:") l) (all_intents ls);
      subqueries =
          h.subqueries
          ∙ ap (λ ss. ss ++ all_subs ls) s
          ∙ append_assoc q.subqueries (subs_of l) (all_subs ls);
      expand_text = h.expand_text ∙ t;
    }

-- The text to expand: nothing, or the one line, without `expand:` in front, or the lines joined by a space.
pub data IsText (ls : List Bytes) (text : Bytes) : Type 0 where
  blank : ls ≡ [] → text ≡ [] → IsText ls text
  expanded :
      (rest : Bytes) → ls ≡ (codes "expand:" ++ rest) ∷ [] → text ≡ trim rest → IsText ls text
  single : ls ≡ text ∷ [] → ((rest : Bytes) → text ≢ codes "expand:" ++ rest) → IsText ls text
  joined :
      (l k : Bytes) (more : List Bytes)
      → ls ≡ l ∷ k ∷ more
      → text ≡ join (codes " ") ls
      → IsText ls text

strip_prefix-append : (s p : Bytes) → strip_prefix (p ++ s) p ≡ some s
unfolding strip_prefix
strip_prefix-append s [] = refl
strip_prefix-append s (b ∷ p) = rw ((==_iff b b).1 refl) (strip_prefix-append s p)

strip_prefix-some : (s p rest : Bytes) → strip_prefix s p ≡ some rest → s ≡ p ++ rest
unfolding strip_prefix
strip_prefix-some s [] rest e = cc
strip_prefix-some [] (b ∷ p) rest e = cc
strip_prefix-some (a ∷ s) (b ∷ p) rest e = elim (Bool-cases (a == b)) [
  | inl k ↦
      let later = strip_prefix-some s p rest (subst (λ t. cond_of t ≡ some rest) k e) in
      rw ((==_iff a b).0 k) (ap (λ r. b ∷ r) later)
  | inr k ↦ absurd (none_some rest (subst (λ t. cond_of t ≡ some rest) k e))
]
  where
    cond_of : Bool → Option Bytes
    cond_of t = if t then strip_prefix s p else none

    none_some : (x : Bytes) → none ≡ some x → ⊥
    none_some x h = cc

expand_text_of-IsText : (ls : List Bytes) → IsText ls (expand_text_of ls)
unfolding expand_text_of strip_prefix
expand_text_of-IsText [] = blank refl refl
expand_text_of-IsText (l ∷ []) = elim (Option-cases (strip_prefix l (codes "expand:"))) [
  | inr (rest, e) ↦
      rw e (expanded rest (ap (λ r. r ∷ []) (strip_prefix-some l (codes "expand:") rest e)) refl)
  | inl e ↦ rw e (
      single refl (λ rest k. none_some rest e (
        ap (λ r. strip_prefix r (codes "expand:")) k ∙ strip_prefix-append rest (codes "expand:"))))
]
  where
    none_some :
        (rest : Bytes)
        → strip_prefix l (codes "expand:") ≡ none
        → strip_prefix l (codes "expand:") ≡ some rest
        → ⊥
    none_some rest h k = cc
expand_text_of-IsText (l ∷ k ∷ ls) = joined l k ls refl refl

-- What a query is parsed to: what its lines give, or a text to expand and nothing else.
abbrev pub IsMode : List Bytes → Bool → ParsedQuery → Type 0
IsMode ls true q = IsRead ls empty_query q
IsMode ls false q = (text : Bytes) × (q ≡ expand text) × IsText ls text

parse_lines-IsMode : (ls : List Bytes) → IsMode ls (is_typed_doc ls) (parse_lines ls)
unfolding parse_lines parse_query_document
parse_lines-IsMode [] = unfold is_typed_doc in ([], refl, blank refl refl)
parse_lines-IsMode (l ∷ ls) = elim (Bool-cases (is_typed_doc (l ∷ ls))) [
  | inl e ↦ rw e (add_lines-IsRead (l ∷ ls) empty_query)
  | inr e ↦ rw e (expand_text_of (l ∷ ls), refl, expand_text_of-IsText (l ∷ ls))
]

-- A query with a typed line is a document: its sub-queries are those of its lines, in their order, its intent that of the first line that has one, and there is no text to expand. Any other query is a text to expand, without sub-queries and intent: the one line, less `expand:` in front of it, or the lines joined by a space.
pub parse_query-IsMode :
    (raw : Bytes) → IsMode (query_lines raw) (is_typed_doc (query_lines raw)) (parse_query raw)
unfolding parse_query
parse_query-IsMode raw = parse_lines-IsMode (query_lines raw)
