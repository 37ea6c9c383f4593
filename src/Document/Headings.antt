-- ===== src/Document/Headings.antt =====
-- Which line of a document is a heading, and where the title of a document comes from.
use rqmd.Common.{
  ℕ, zero, suc, ◌++◌, ◌==◌, All, ap, true, arith, ==_iff, ◌⊎◌, ◌≡◌, refl, false, Option, none, some,
  List, [], ◌∷◌, Bool-cases, inl, inr,
}
use rqmd.Text.{Bytes, codes, is_empty, trim, trim_start, starts_with}
use rqmd.Text.Lines.{lines}
use rqmd.Frontmatter.{Frontmatter}
use rqmd.Document.{
  heading_of, or_else, first_of, first_heading, filename_stem, title_of_frontmatter, or_heading,
  resolve_title, trim_start_hashes,
}

abbrev pub hashes : ℕ → Bytes
hashes zero = []
hashes (suc n) = b'#' ∷ hashes n

-- A heading: blanks, one `#` or more, and then its text, which is trimmed and not empty.
pub record IsHeading (line text : Bytes) : Type 0 where
  pub more : ℕ
  pub rest : Bytes
  pub marked : trim_start line ≡ hashes (suc more) ++ rest
  pub no_more : starts_with rest (codes "#") ≡ false
  pub trimmed : trim rest ≡ text
  pub filled : is_empty text ≡ false

abbrev pub NoHeading : Bytes → Type 0
NoHeading line = (text : Bytes) → IsHeading line text → ⊥

abbrev pub NoTitle : Option Frontmatter → Type 0
NoTitle fm = (f : Frontmatter) → fm ≡ some f → f.title ≡ none

-- The title is the frontmatter's; else the first heading of the body; else the stem of the file; else the path.
pub data IsTitle (fm : Option Frontmatter) (body : Bytes) (stem : Option Bytes)
    (rel_path title : Bytes) : Type 0 where
  from_frontmatter :
      (f : Frontmatter) → fm ≡ some f → f.title ≡ some title → IsTitle fm body stem rel_path title
  from_heading :
      (before after : List Bytes) (line : Bytes)
      → NoTitle fm
      → lines body ≡ before ++ line ∷ after
      → All NoHeading before
      → IsHeading line title
      → IsTitle fm body stem rel_path title
  from_stem :
      NoTitle fm
      → All NoHeading (lines body)
      → stem ≡ some title
      → IsTitle fm body stem rel_path title
  from_path :
      NoTitle fm
      → All NoHeading (lines body)
      → stem ≡ none
      → title ≡ rel_path
      → IsTitle fm body stem rel_path title

trim_start_hashes-hashes :
    (n : ℕ) (rest : Bytes)
    → starts_with rest (codes "#") ≡ false
    → trim_start_hashes (hashes n ++ rest) ≡ rest
unfolding trim_start_hashes starts_with
trim_start_hashes-hashes zero [] h = refl
trim_start_hashes-hashes zero (b ∷ rest) h = ground arith
trim_start_hashes-hashes (suc n) rest h = trim_start_hashes-hashes n rest h

cons_hash : (b : ℕ) (s rest : Bytes) → (b == b'#') ≡ true → s ≡ rest → b ∷ s ≡ b'#' ∷ rest
cons_hash b s rest e q = rw ((==_iff b b'#').0 e) (ap (λ r. b'#' ∷ r) q)

hashes-trim_start_hashes :
    (s : Bytes)
    → (n : ℕ) × (s ≡ hashes n ++ trim_start_hashes s)
      × (starts_with (trim_start_hashes s) (codes "#") ≡ false)
unfolding trim_start_hashes starts_with
hashes-trim_start_hashes [] = (0, refl, refl)
hashes-trim_start_hashes (b ∷ s) = elim (Bool-cases (b == b'#')) [
  | inl e ↦ let (n, q, k) = hashes-trim_start_hashes s in rw e (suc n, cons_hash b s _ e q, k)
  | inr e ↦ rw e (0, refl, rw e refl)
]

marks :
    (s : Bytes)
    → starts_with s (codes "#") ≡ true
    → (n : ℕ) × (s ≡ hashes (suc n) ++ trim_start_hashes s)
      × (starts_with (trim_start_hashes s) (codes "#") ≡ false)
unfolding trim_start_hashes starts_with
marks [] h = cc
marks (b ∷ s) h =
    let e : (b == b'#') ≡ true = ground arith in
    let (n, q, k) = hashes-trim_start_hashes s in rw e (n, cons_hash b s _ e q, k)

heading_of-IsHeading : (line text : Bytes) → IsHeading line text → heading_of line ≡ some text
unfolding heading_of starts_with
heading_of-IsHeading line text h =
    rw (h.marked, trim_start_hashes-hashes (suc h.more) h.rest h.no_more, h.trimmed, h.filled) refl

-- The lines up to the first heading, if there is one.
abbrev FirstHeading : List Bytes → Option Bytes → Type 0
FirstHeading ls none = All NoHeading ls
FirstHeading ls (some text) =
    (before after : List Bytes) × (line : Bytes) × (ls ≡ before ++ line ∷ after)
    × All NoHeading before
    × IsHeading line text

-- Whether a line is a heading.
IsHeading-cases :
    (line : Bytes)
    → ((text : Bytes) × (heading_of line ≡ some text) × IsHeading line text)
      ⊎ ((heading_of line ≡ none) × NoHeading line)
unfolding heading_of
IsHeading-cases line = elim (Bool-cases (starts_with (trim_start line) (codes "#"))) [
  | inl e ↦ elim (Bool-cases (is_empty (trim (trim_start_hashes (trim_start line))))) [
    | inl k ↦ inr (no_heading (rw (e, k) refl))
    | inr k ↦
        let (n, q, k₂) = marks (trim_start line) e in
        inl (
          trim (trim_start_hashes (trim_start line)),
          rw (e, k) refl,
          record {
            more = n;
            rest = trim_start_hashes (trim_start line);
            marked = q;
            no_more = k₂;
            trimmed = refl;
            filled = k;
          },
        )
  ]
  | inr e ↦ inr (no_heading (rw e refl))
]
  where
    none_some : (o : Option Bytes) (x : Bytes) → o ≡ none → o ≡ some x → ⊥
    none_some o x e k = cc

    no_heading : heading_of line ≡ none → (heading_of line ≡ none) × NoHeading line
    no_heading e =
        (e, λ text h. none_some (heading_of line) text e (heading_of-IsHeading line text h))

first_of-FirstHeading : (ls : List Bytes) → FirstHeading ls (first_of ls)
unfolding first_of or_else
first_of-FirstHeading [] = tt
first_of-FirstHeading (l ∷ ls) = elim (IsHeading-cases l) [
  | inl (text, e, is) ↦ rw e ([], ls, l, refl, tt, is)
  | inr (e, free) ↦ rw e (later (first_of ls) free (first_of-FirstHeading ls))
]
  where
    later : (o : Option Bytes) → NoHeading l → FirstHeading ls o → FirstHeading (l ∷ ls) o
    later none free h = (free, h)
    later (some text) free (before, after, line, q, all, is) =
        (l ∷ before, after, line, ap (λ r. l ∷ r) q, (free, all), is)

resolve_title-FirstHeading :
    (fm : Option Frontmatter) (body : Bytes) (stem : Option Bytes) (rel_path : Bytes)
    → NoTitle fm
    → (o : Option Bytes) → FirstHeading (lines body) o
    → IsTitle fm body stem rel_path (resolve_title o stem rel_path)
unfolding resolve_title filename_stem
resolve_title-FirstHeading fm body stem rel_path untitled (some t)
      (before, after, line, q, all, is) =
    from_heading before after line untitled q all is
resolve_title-FirstHeading fm body (some stem) rel_path untitled none all =
    from_stem untitled all refl
resolve_title-FirstHeading fm body none rel_path untitled none all =
    from_path untitled all refl refl

pub resolve_title-IsTitle :
    (fm : Option Frontmatter) (body : Bytes) (stem : Option Bytes) (rel_path : Bytes)
    → IsTitle fm body stem rel_path
        (resolve_title (or_heading (title_of_frontmatter fm) body) stem rel_path)
unfolding or_heading title_of_frontmatter first_heading resolve_title
resolve_title-IsTitle none body stem rel_path =
    resolve_title-FirstHeading none body stem rel_path (λ f e. cc) (first_of (lines body))
      (first_of-FirstHeading (lines body))
resolve_title-IsTitle (some f) body stem rel_path = by_title f.title refl
  where
    by_title :
        (o : Option Bytes)
        → f.title ≡ o
        → IsTitle (some f) body stem rel_path (resolve_title (or_heading o body) stem rel_path)
    by_title (some t) e = from_frontmatter f refl e
    by_title none e =
        resolve_title-FirstHeading (some f) body stem rel_path (λ g k. cc) (first_of (lines body))
          (first_of-FirstHeading (lines body))
