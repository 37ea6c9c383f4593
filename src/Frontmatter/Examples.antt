-- ===== src/Frontmatter/Examples.antt =====
-- Tests of the frontmatter scan, and its theorem at a concrete document.
use rqmd.Common.{false, ℕ, suc, length, ◌≡◌, ◌⊎◌, refl, true, none, some, [], ◌∷◌, ◌++◌, arith}
use rqmd.Text.{Bytes, codes, newline, ok}
use rqmd.Text.Lines.{lines}
use rqmd.Text.Utf8.{Utf8, done, one}
use rqmd.Frontmatter.Closing.{NoFence}
use rqmd.Frontmatter.{find_byte, parse_block, opens_fence, split_frontmatter}
use rqmd.Frontmatter.Split.{IsSplit, split_frontmatter-IsSplit}
use rqmd.Frontmatter.Terms.{IsFilled, AllFilled, parse_block-IsFilled}

abbrev line : Bytes → Bytes → Bytes
line l rest = l ++ newline ∷ rest

abbrev block_lines : Bytes
block_lines =
    line (codes "title: \"A\"")
      (line (codes "tags: [x, 'y', ]") (line (codes "aliases:") (line (codes "  - z") [])))

block_is_parsed :
    parse_block block_lines
    ≡ record { title = some (codes "A"); terms = codes "x" ∷ codes "y" ∷ codes "z" ∷ [] }
unfolding parse_block lines rqmd.Text.trim rqmd.Text.starts_with rqmd.Text.strip_prefix
    rqmd.Text.bytes_eq rqmd.Text.Lines.split_on
block_is_parsed = refl

abbrev note : Bytes
note = line (codes "---") (line (codes "a: b") (line (codes "---") (codes "body")))

note_is_split :
    split_frontmatter note ≡ ok (some (record { title = none; terms = [] }), codes "body")
unfolding split_frontmatter lines rqmd.Text.bytes_eq rqmd.Text.slice rqmd.Text.is_char_boundary
    rqmd.Text.trim rqmd.Text.starts_with
note_is_split = refl

-- Without a closing fence the document has no frontmatter.
unclosed_is_whole :
    split_frontmatter (line (codes "---") (codes "a: b"))
    ≡ ok (none, line (codes "---") (codes "a: b"))
unfolding split_frontmatter lines rqmd.Text.bytes_eq rqmd.Text.slice rqmd.Text.is_char_boundary
unclosed_is_whole = refl

note-Utf8 : Utf8 note
note-Utf8 = one _ (omega arith) (
    one _ (omega arith) (
      one _ (omega arith) (
        one _ (omega arith) (
          one _ (omega arith) (
            one _ (omega arith) (
              one _ (omega arith) (
                one _ (omega arith) (
                  one _ (omega arith) (
                    one _ (omega arith) (
                      one _ (omega arith) (
                        one _ (omega arith) (
                          one _ (omega arith) (
                            one _ (omega arith) (
                              one _ (omega arith)
                                (one _ (omega arith) (one _ (omega arith) done))))))))))))))))

split_frontmatter-IsSplit_example :
    ((split_frontmatter note ≡ ok (none, note))
      × ((opens_fence (lines note) ≡ false)
          ⊎ ((find_byte newline note ≡ none)
              ⊎ ((i : ℕ) × (find_byte newline note ≡ some i)
                  × NoFence note (suc i) (suc (length note))))))
    ⊎ ((opens_fence (lines note) ≡ true)
        × ((i : ℕ) × (block : Bytes) × (body : Bytes) × (find_byte newline note ≡ some i)
            × (split_frontmatter note ≡ ok (some (parse_block block), body))
            × IsSplit note (suc i) block body))
split_frontmatter-IsSplit_example = split_frontmatter-IsSplit note note-Utf8

parse_block-IsFilled_example :
    IsFilled (parse_block block_lines).title × AllFilled (parse_block block_lines).terms
parse_block-IsFilled_example = parse_block-IsFilled block_lines
