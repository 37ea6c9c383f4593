-- ===== src/Document/Titled.antt =====
-- What `prepare` makes of a file.
use rqmd.Common.{◌++◌, ◌≡◌, refl, false, Option, none, some, List, [], ◌∷◌, Bool-cases, inl, inr}
use rqmd.Text.{Bytes, codes, newline, ok, ◌>>=◌, is_empty, trim, trim_start, starts_with}
use rqmd.Text.Utf8.{Utf8}
use rqmd.Text.Lines.{lines, join}
use rqmd.Frontmatter.{Frontmatter, split_frontmatter, parse_block}
use rqmd.Frontmatter.Split.{split_frontmatter-IsSplit}
use rqmd.Frontmatter.Terms.{IsFilled, parse_block-IsFilled}
use rqmd.Document.Headings.{IsTitle, resolve_title-IsTitle}
use rqmd.Document.{
  PreparedDoc, heading_of, or_else, first_of, first_heading, filename_stem, title_of_frontmatter,
  or_heading, resolve_title, with_terms, indexed_text_of, content, prepared, to_prepared,
  trim_start_hashes, prepare,
}

heading_of-IsFilled : (line : Bytes) → IsFilled (heading_of line)
unfolding heading_of
heading_of-IsFilled line = elim (Bool-cases (starts_with (trim_start line) (codes "#"))) [
  | inl e ↦ rw e (elim (Bool-cases (is_empty (trim (trim_start_hashes (trim_start line))))) [
    | inl k ↦ rw k tt
    | inr k ↦ rw k k
  ])
  | inr e ↦ rw e tt
]

or_else-IsFilled : (a b : Option Bytes) → IsFilled a → IsFilled b → IsFilled (or_else a b)
unfolding or_else
or_else-IsFilled none b h k = k
or_else-IsFilled (some x) b h k = h

first_of-IsFilled : (ls : List Bytes) → IsFilled (first_of ls)
unfolding first_of
first_of-IsFilled [] = tt
first_of-IsFilled (l ∷ ls) =
    or_else-IsFilled (heading_of l) (first_of ls) (heading_of-IsFilled l) (first_of-IsFilled ls)

or_heading-IsFilled : (t : Option Bytes) (body : Bytes) → IsFilled t → IsFilled (or_heading t body)
unfolding or_heading first_heading
or_heading-IsFilled none body h = first_of-IsFilled (lines body)
or_heading-IsFilled (some t) body h = h

resolve_title-filled :
    (t stem : Option Bytes) (rel_path : Bytes)
    → IsFilled t
    → is_empty (filename_stem stem rel_path) ≡ false
    → is_empty (resolve_title t stem rel_path) ≡ false
unfolding resolve_title
resolve_title-filled none stem rel_path h k = k
resolve_title-filled (some t) stem rel_path h k = h

-- The text to index is the body, with a line of the terms behind it, if there are any.
pub data IsIndexed (fm : Option Frontmatter) (body text : Bytes) : Type 0 where
  body_alone :
      ((f : Frontmatter) → fm ≡ some f → f.terms ≡ []) → text ≡ body → IsIndexed fm body text
  terms_behind :
      (f : Frontmatter) (t : Bytes) (ts : List Bytes)
      → fm ≡ some f
      → f.terms ≡ t ∷ ts
      → text ≡ body ++ newline ∷ join (codes " ") (t ∷ ts)
      → IsIndexed fm body text

indexed_text_of-IsIndexed :
    (fm : Option Frontmatter) (body : Bytes) → IsIndexed fm body (indexed_text_of fm body)
unfolding indexed_text_of with_terms
indexed_text_of-IsIndexed none body = body_alone (λ f e. cc) refl
indexed_text_of-IsIndexed (some f) body = by_terms f.terms refl
  where
    by_terms : (ts : List Bytes) → f.terms ≡ ts → IsIndexed (some f) body (with_terms body ts)
    by_terms [] e = body_alone (λ g k. cc) refl
    by_terms (t ∷ ts) e = terms_behind f t ts refl e refl

-- The document of a file: its title, its text to index and its raw text.
pub record IsPrepared (raw : Bytes) (stem : Option Bytes) (rel_path : Bytes) (doc : PreparedDoc)
    : Type 0 where
  pub fm : Option Frontmatter
  pub body : Bytes
  pub split : split_frontmatter raw ≡ ok (fm, body)
  pub titled : is_empty doc.title ≡ false
  pub title : IsTitle fm body stem rel_path doc.title
  pub indexed : IsIndexed fm body doc.indexed_text
  pub raw_kept : doc.raw ≡ raw

-- A split without a panic is a document.
prepare-split :
    (raw : Bytes) (stem : Option Bytes) (rel_path : Bytes) (fm : Option Frontmatter) (body : Bytes)
    → split_frontmatter raw ≡ ok (fm, body)
    → IsFilled (title_of_frontmatter fm)
    → is_empty (filename_stem stem rel_path) ≡ false
    → (doc : PreparedDoc) × (prepare (content raw) stem rel_path ≡ ok (prepared doc))
      × IsPrepared raw stem rel_path doc
unfolding prepare to_prepared
prepare-split raw stem rel_path fm body e filled k = (
  to_prepared raw stem rel_path fm body,
  rw (e, ◌>>=◌) refl,
  record {
    fm = fm;
    body = body;
    split = e;
    titled =
        resolve_title-filled (or_heading (title_of_frontmatter fm) body) stem rel_path
          (or_heading-IsFilled (title_of_frontmatter fm) body filled) k;
    title = resolve_title-IsTitle fm body stem rel_path;
    indexed = indexed_text_of-IsIndexed fm body;
    raw_kept = refl;
  },
)

-- A file that is read and is UTF-8, and whose stem, or path in its place, is not empty, is prepared without a panic. The title is not empty: it is the frontmatter's; else the text of the first line of the body that is a heading; else the stem; else the path. The text to index is the body, with the terms of the frontmatter behind it, and the raw text is kept.
pub prepare-IsPrepared :
    (raw : Bytes) (stem : Option Bytes) (rel_path : Bytes)
    → Utf8 raw
    → is_empty (filename_stem stem rel_path) ≡ false
    → (doc : PreparedDoc) × (prepare (content raw) stem rel_path ≡ ok (prepared doc))
      × IsPrepared raw stem rel_path doc
unfolding title_of_frontmatter
prepare-IsPrepared raw stem rel_path u k = elim (split_frontmatter-IsSplit raw u) [
  | inl (e, why) ↦ prepare-split raw stem rel_path none raw e tt k
  | inr (o, (i, block, body, f, e, is)) ↦
      prepare-split raw stem rel_path (some (parse_block block)) body e
        (parse_block-IsFilled block).0 k
]
