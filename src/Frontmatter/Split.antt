-- ===== src/Frontmatter/Split.antt =====
-- The scan for the closing fence ends, and splits the document.
use rqmd.Common.{
  Bool, false, true, ℕ, zero, suc, ◌+◌, ◌-◌, ◌≤◌, ◌<◌, ◌≡◌, refl, sym, ap, subst, ◌∙◌, ◌⊎◌, inl,
  inr, true, Bool-cases, Option, none, some, Option-cases, arith, length, get_elem?, take, drop,
  get_elem?-drop, lt_of_get_elem?, length-drop,
}
use rqmd.Text.{Bytes, bytes_eq, codes, newline, Run, ok, ◌>>=◌, is_char_boundary}
use rqmd.Text.Lines.{lines}
use rqmd.Text.Slices.{slice_ok}
use rqmd.Text.Utf8.{Utf8, boundary_behind_newline, boundary_at_end, boundary_at_iff}
use rqmd.Frontmatter.{
  find_byte, trim_end_returns, parse_block, opens_fence, close_fence, scan_fence, to_split,
  split_frontmatter,
}
use rqmd.Frontmatter.Closing.{
  find_byte-newline, newline_boundary, take_all_of, closes_at, IsStart, NoFence, NoFence-line,
  NoFence-last,
}

-- Where the text behind the line at an offset begins: behind its newline, or at the text's end.
abbrev pub IsBehindLine : Bytes → ℕ → ℕ → Type 0
IsBehindLine raw p behind =
    ((find_byte newline (drop p raw) ≡ none) × (behind ≡ length raw))
    ⊎ ((i : ℕ) × (find_byte newline (drop p raw) ≡ some i) × (behind ≡ suc (p + i)))

-- The block and the body of a document, by their offsets: the block begins at `from` and ends before the first line that
-- closes it, and the body is the rest of the document behind that line.
pub record IsSplit (raw : Bytes) (from : ℕ) (block body : Bytes) : Type 0 where
  pub to : ℕ
  pub behind : ℕ
  pub le : from ≤ to
  pub starts : IsStart raw from to
  pub closed : closes_at raw to ≡ true
  pub open_before : NoFence raw from to
  pub behind_line : IsBehindLine raw to behind
  pub fits : behind ≤ length raw
  pub block_is : block ≡ take (to - from) (drop from raw)
  pub body_is : body ≡ drop behind raw

-- The scan ends without a panic.
abbrev Scanned : Bytes → ℕ → Run (Option (Bytes × Bytes)) → Type 0
Scanned raw from run =
    ((run ≡ ok none) × NoFence raw from (suc (length raw)))
    ⊎ ((block : Bytes) × (body : Bytes) × (run ≡ ok (some (block, body)))
        × IsSplit raw from block body)

module _ (raw : Bytes) (u : Utf8 raw) where
  abbrev IsBoundary : ℕ → Type 0
  IsBoundary i = is_char_boundary raw i ≡ true

  end-IsBoundary : IsBoundary (length raw)
  end-IsBoundary = boundary_at_iff (length raw) u ∙ boundary_at_end raw

  Scanned-close :
      (from pos behind : ℕ)
      → from ≤ pos
      → pos ≤ behind
      → behind ≤ length raw
      → IsBoundary from
      → IsBoundary pos
      → IsBoundary behind
      → closes_at raw pos ≡ true
      → NoFence raw from pos
      → IsStart raw from pos
      → IsBehindLine raw pos behind
      → Scanned raw from (close_fence raw from pos behind)
  unfolding close_fence
  Scanned-close from pos behind h k l a b c closed open_before st bl =
      let e = slice_ok raw from pos h (omega arith) a b in
      let f = slice_ok raw behind (length raw) l (omega arith) c end-IsBoundary in
      inr (
        take (pos - from) (drop from raw),
        take (length raw - behind) (drop behind raw),
        rw (e, f) refl,
        record {
          to = pos;
          behind = behind;
          le = h;
          starts = st;
          closed = closed;
          behind_line = bl;
          open_before = open_before;
          fits = l;
          block_is = refl;
          body_is =
              take_all_of (drop behind raw) (length raw - behind)
                (omega (arith, length-drop behind raw));
        },
      )

  Scanned-scan_fence :
      (fuel from pos : ℕ)
      → from ≤ pos
      → pos ≤ length raw
      → length raw < fuel + pos
      → IsBoundary from
      → IsBoundary pos
      → NoFence raw from pos
      → IsStart raw from pos
      → Scanned raw from (scan_fence fuel raw from pos)
  unfolding scan_fence
  Scanned-scan_fence zero from pos h k l a b n st = absurd (omega arith)
  Scanned-scan_fence (suc fuel) from pos h k l a b n st =
      let e =
        slice_ok raw pos (length raw) k (omega arith) b end-IsBoundary
        ∙ ap ok
            (take_all_of (drop pos raw) (length raw - pos) (omega (arith, length-drop pos raw))) in
      elim (Option-cases (find_byte newline (drop pos raw))) [
        | inl f ↦ elim (Bool-cases (bytes_eq (trim_end_returns (drop pos raw)) (codes "---"))) [
          | inl c ↦
              rw (e, ◌>>=◌)
                (rw (f, c)
                  (Scanned-close from pos (length raw) h k (omega arith) a b end-IsBoundary (rw f c)
                    n st (inl (f, refl))))
          | inr c ↦
              rw (e, ◌>>=◌)
                (rw (f, c)
                  (inl (refl, NoFence-last raw from pos (suc (length raw)) h f (rw f c) n)))
        ]
        | inr (i, f) ↦
            let at : get_elem? raw (pos + i) ≡ some newline =
              sym (get_elem?-drop pos i (pos + i) raw refl)
              ∙ find_byte-newline (drop pos raw) i f in
            let lt : pos + i < length raw = lt_of_get_elem? (pos + i) raw at in
            let line_end = boundary_at_iff (pos + i) u ∙ newline_boundary raw (pos + i) at in
            let next = boundary_at_iff (suc (pos + i)) u ∙ boundary_behind_newline (pos + i) u at in
            let g = slice_ok raw pos (pos + i) (omega arith) (omega arith) b line_end in
            let same : pos + i - pos ≡ i = omega arith in
            let closes : (r : Bool)
                → pos + i - pos ≡ i
                → bytes_eq (trim_end_returns (take (pos + i - pos) (drop pos raw))) (codes "---")
                  ≡ r
                → closes_at raw pos ≡ r =
              λ r q c. rw f (
                subst (λ m. bytes_eq (trim_end_returns (take m (drop pos raw))) (codes "---") ≡ r) q
                  c) in
            elim (Bool-cases
              (bytes_eq (trim_end_returns (take (pos + i - pos) (drop pos raw))) (codes "---"))) [
                | inl c ↦
                    rw (e, ◌>>=◌)
                      (rw f (
                        rw (g, ◌>>=◌)
                          (rw c (
                            Scanned-close from pos (suc (pos + i)) h (omega arith) (omega arith) a b
                              next (closes true same c) n st (inr (i, f, refl))))))
                | inr c ↦
                    rw (e, ◌>>=◌)
                      (rw f (
                        rw (g, ◌>>=◌)
                          (rw c (
                            Scanned-scan_fence fuel from (suc (pos + i)) (omega arith) (omega arith)
                              (omega arith) a next
                              (NoFence-line raw from pos i h f (closes false same c) n)
                              (inr (pos + i, refl, at))))))
              ]
      ]

-- For every text the scan for the closing fence ends without a panic. Either the document has no frontmatter, its body is the whole text, and it does not begin with a fence line or no later line closes it; or it begins with a fence line, the frontmatter is that of the block between that line and the first later line that closes it, and the body is the text behind that line.
pub split_frontmatter-IsSplit :
    (raw : Bytes)
    → Utf8 raw
    → ((split_frontmatter raw ≡ ok (none, raw))
        × ((opens_fence (lines raw) ≡ false)
            ⊎ ((find_byte newline raw ≡ none)
                ⊎ ((i : ℕ) × (find_byte newline raw ≡ some i)
                    × NoFence raw (suc i) (suc (length raw))))))
      ⊎ ((opens_fence (lines raw) ≡ true)
          × ((i : ℕ) × (block : Bytes) × (body : Bytes) × (find_byte newline raw ≡ some i)
              × (split_frontmatter raw ≡ ok (some (parse_block block), body))
              × IsSplit raw (suc i) block body))
unfolding split_frontmatter to_split
split_frontmatter-IsSplit raw u = elim (Bool-cases (opens_fence (lines raw))) [
  | inr e ↦ inl (rw e refl, inl e)
  | inl e ↦ elim (Option-cases (find_byte newline raw)) [
    | inl f ↦ inl (rw (e, f) refl, inr (inl f))
    | inr (i, f) ↦
        let at = find_byte-newline raw i f in
        let lt = lt_of_get_elem? i raw at in
        let start = boundary_at_iff (suc i) u ∙ boundary_behind_newline i u at in
        elim (Scanned-scan_fence raw u (suc (length raw)) (suc i) (suc i) (omega arith)
          (omega arith) (omega arith) start start (λ p l k. absurd (omega arith)) (inl refl)) [
            | inl (g, n) ↦ inl (rw (e, f, g) refl, inr (inr (i, f, n)))
            | inr (block, body, g, r) ↦ inr (e, (i, block, body, f, rw (e, f, g) refl, r))
          ]
  ]
]
