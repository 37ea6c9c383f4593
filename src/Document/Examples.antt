-- ===== src/Document/Examples.antt =====
-- Tests of the documents and of the walk, and their theorems at concrete files.
use rqmd.Common.{
  ◌+◌, ◌≡◌, ◌↔◌, refl, Bool, true, false, none, some, [], ◌∷◌, ◌++◌, arith, ltb, ◌&&◌,
}
use rqmd.Text.{Bytes, codes, newline, ok, is_empty}
use rqmd.Text.Utf8.{Utf8, done, one}
use rqmd.Exclusions.{text}
use rqmd.Document.{
  PreparedDoc, prepare, content, prepared, not_utf8, permission_denied, not_found, io, trusted_stat,
  stat_file,
}
use rqmd.Document.Skips.{SkipCounts, record_all, total, describe, total-record_all-describe}
use rqmd.Document.Clause.{excluded_dirs_clause}
use rqmd.Document.Titled.{IsPrepared, prepare-IsPrepared}
use rqmd.Document.Walk.{
  WalkOptions, Node, file, dir, special, Entries, nil, entry, Found, collect, collect_candidates,
}
use rqmd.Document.Walk.Complete.{every_path, collect_candidates-every_path}

abbrev with_title : Bytes
with_title =
    codes "---"
    ++ newline ∷ codes "tags: [a]"
    ++ newline ∷ codes "---"
    ++ newline ∷ codes "# Head"
    ++ newline ∷ []

heading_is_title :
    prepare (content with_title) (some (codes "x")) (codes "x.md")
    ≡ ok (
        prepared (record {
          rel_path = codes "x.md";
          title = codes "Head";
          indexed_text = codes "# Head" ++ newline ∷ newline ∷ codes "a";
          raw = with_title;
        }))
unfolding prepare rqmd.Frontmatter.split_frontmatter rqmd.Text.Lines.lines rqmd.Text.bytes_eq
    rqmd.Text.slice rqmd.Text.is_char_boundary rqmd.Text.trim rqmd.Text.starts_with
    rqmd.Text.strip_prefix rqmd.Text.Lines.split_on rqmd.Text.Lines.join
heading_is_title = refl

abbrev all_ascii : Bytes → Bool
all_ascii [] = true
all_ascii (b ∷ s) = ltb b 128 && all_ascii s

all_ascii-Utf8 : (s : Bytes) → all_ascii s ≡ true → Utf8 s
all_ascii-Utf8 [] h = done
all_ascii-Utf8 (b ∷ s) h = one b (ground arith) (all_ascii-Utf8 s (ground arith))

with_title-Utf8 : Utf8 with_title
with_title-Utf8 = all_ascii-Utf8 with_title refl

prepare-IsPrepared_example :
    (doc : PreparedDoc) × (prepare (content with_title) (some (codes "x")) (codes "x.md")
      ≡ ok (prepared doc))
    × IsPrepared with_title (some (codes "x")) (codes "x.md") doc
unfolding rqmd.Document.filename_stem
prepare-IsPrepared_example =
    prepare-IsPrepared with_title (some (codes "x")) (codes "x.md") with_title-Utf8 refl

abbrev no_skips : SkipCounts
no_skips = record {
  not_utf8 = 0;
  permission_denied = 0;
  not_found = 0;
  other_io = 0;
  too_large = 0;
}

two_unreadable :
    describe (record_all no_skips (permission_denied ∷ not_utf8 ∷ not_found ∷ []))
    ≡ codes "2 unreadable, 1 not UTF-8"
unfolding describe rqmd.Text.Lines.join record_all rqmd.Document.Skips.record_skip
    rqmd.Text.Decimal.decimal
two_unreadable = refl

two_skips_counted :
    (total (record_all no_skips (not_utf8 ∷ not_found ∷ [])) ≡ total no_skips + 2)
    × ((describe (record_all no_skips (not_utf8 ∷ not_found ∷ [])) ≡ [])
        ↔ (total (record_all no_skips (not_utf8 ∷ not_found ∷ [])) ≡ 0))
two_skips_counted = total-record_all-describe no_skips (not_utf8 ∷ not_found ∷ [])

clause_of_one :
    excluded_dirs_clause ((27 ∷ codes "build") ∷ [])
    ≡ some (codes "left out 1 folder(s) by the built-in rule (?build/)")
unfolding excluded_dirs_clause rqmd.Text.Decimal.decimal rqmd.Text.Lines.join
clause_of_one = refl

recent_stat : trusted_stat 5000000000 (record { size = 1; mtime = 3000000000 }) ≡ none
unfolding trusted_stat
recent_stat = refl

abbrev options : WalkOptions
options = record { allow_hidden = false; respect_gitignore = true; max_file_bytes = 10 }

abbrev small_file : Node
small_file = file (some 3) true

-- a.md, build/b.md, .git/c.md, big.md, d/e.md
abbrev tree : Node
tree = dir (
    entry (text (codes "a.md")) small_file (
      entry (text (codes "build")) (dir (entry (text (codes "b.md")) small_file nil)) (
        entry (text (codes ".git")) (dir (entry (text (codes "c.md")) small_file nil)) (
          entry (text (codes "big.md")) (file (some 11) true)
            (entry (text (codes "d")) (dir (entry (text (codes "e.md")) small_file nil)) nil)))))

candidates_of_tree :
    collect_candidates (λ s. s) options (λ p. false) (λ p. true) (λ p. false) tree ≡ record {
      files = (text (codes "a.md") ∷ []) ∷ (text (codes "d") ∷ text (codes "e.md") ∷ []) ∷ [];
      too_large = 1;
      excluded_dirs = codes "build" ∷ [];
    }
unfolding collect_candidates rqmd.Document.Walk.then_walk rqmd.Document.Walk.visit
    rqmd.Text.starts_with rqmd.Text.contains rqmd.Text.Lines.join
candidates_of_tree = refl

collect_candidates-every_path_example :
    ((collect_candidates (λ s. s) options (λ p. false) (λ p. true) (λ p. false) tree).files
      ≡ (collect options (λ p. true) (λ p. false) (every_path options (λ p. false) tree)).files)
    × ((collect_candidates (λ s. s) options (λ p. false) (λ p. true) (λ p. false) tree).too_large
        ≡ (collect options
            (λ p. true)
            (λ p. false)
            (every_path options (λ p. false) tree)).too_large)
collect_candidates-every_path_example =
    collect_candidates-every_path (λ s. s) options (λ p. false) (λ p. true) (λ p. false) tree
