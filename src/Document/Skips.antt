-- ===== src/Document/Skips.antt =====
-- crates/rqmd-cli/src/document.rs: the count of the files that are left out.
use rqmd.Common.{
  ℕ, suc, ◌+◌, ◌≡◌, ◌↔◌, refl, ap, ap₂, ltb→le, append-nil, ◌∙◌, length, Bool-cases, inl, inr, List,
  [], ◌∷◌, ◌++◌, arith, ltb, if◌then◌else◌,
}
use rqmd.Text.{Bytes, codes}
use rqmd.Text.Lines.{join}
use rqmd.Text.Decimal.{decimal}
use rqmd.Document.{SkipReason, not_utf8, permission_denied, not_found, io}

pub record SkipCounts : Type 0 where
  pub not_utf8 : ℕ
  pub permission_denied : ℕ
  pub not_found : ℕ
  pub other_io : ℕ
  pub too_large : ℕ

unfoldable pub record_skip : SkipCounts → SkipReason → SkipCounts
record_skip c not_utf8 = record c { not_utf8 = suc c.not_utf8 }
record_skip c permission_denied = record c { permission_denied = suc c.permission_denied }
record_skip c not_found = record c { not_found = suc c.not_found }
record_skip c (io kind) = record c { other_io = suc c.other_io }

unfoldable pub total : SkipCounts → ℕ
total c = c.not_utf8 + c.permission_denied + c.not_found + c.other_io + c.too_large

unfoldable pub counted : ℕ → Bytes → List Bytes
counted n what = if ltb 0 n then (decimal n ++ what) ∷ [] else []

unfoldable pub describe : SkipCounts → Bytes
unfolding counted
describe c = join (codes ", ") (
    counted (c.permission_denied + c.not_found + c.other_io) (codes " unreadable")
    ++ (counted c.not_utf8 (codes " not UTF-8")
        ++ counted c.too_large (codes " over the size limit")))

total-record_skip : (c : SkipCounts) (r : SkipReason) → total (record_skip c r) ≡ suc (total c)
unfolding total record_skip
total-record_skip c not_utf8 = omega arith
total-record_skip c permission_denied = omega arith
total-record_skip c not_found = omega arith
total-record_skip c (io kind) = omega arith

unfoldable pub record_all : SkipCounts → List SkipReason → SkipCounts
record_all c [] = c
record_all c (r ∷ rs) = record_all (record_skip c r) rs

total-record_all :
    (c : SkipCounts) (rs : List SkipReason) → total (record_all c rs) ≡ total c + length rs
unfolding record_all
total-record_all c [] = omega arith
total-record_all c (r ∷ rs) =
    omega (arith, total-record_all (record_skip c r) rs, total-record_skip c r)

counted-zero : (n : ℕ) (what : Bytes) → n ≡ 0 → counted n what ≡ []
unfolding counted
counted-zero n what h = rw h refl

join_some :
    (sep p : Bytes) (b : ℕ) (s : Bytes) (ls : List Bytes) → join sep ((p ++ b ∷ s) ∷ ls) ≡ [] → ⊥
unfolding join
join_some sep [] b s [] h = cc
join_some sep [] b s (k ∷ ls) h = cc
join_some sep (a ∷ p) b s [] h = cc
join_some sep (a ∷ p) b s (k ∷ ls) h = cc

-- A count that is not 0 leaves a text, whatever follows it.
counted_first :
    (n b : ℕ) (s : Bytes) (ls : List Bytes)
    → join (codes ", ") (counted n (b ∷ s) ++ ls) ≡ []
    → (n ≡ 0) × (join (codes ", ") ls ≡ [])
unfolding counted
counted_first n b s ls h = elim (Bool-cases (ltb 0 n)) [
  | inl e ↦ absurd (join_some (codes ", ") (decimal n) b s ls (rw e at h))
  | inr e ↦ (omega (arith, ltb→le 0 n e), rw e at h)
]

describe_nothing : (c : SkipCounts) → total c ≡ 0 → describe c ≡ []
unfolding total describe join
describe_nothing c h = ap (join (codes ", ")) (
    ap₂ ◌++◌ (counted-zero _ (codes " unreadable") (omega arith)) (
      ap₂ ◌++◌ (counted-zero c.not_utf8 (codes " not UTF-8") (omega arith))
        (counted-zero c.too_large (codes " over the size limit") (omega arith))))

describe_something : (c : SkipCounts) → describe c ≡ [] → total c ≡ 0
unfolding total describe
describe_something c h =
    let unreadable = c.permission_denied + c.not_found + c.other_io in
    let (a, second) = counted_first unreadable 32 (codes "unreadable") _ h in
    let (b, third) = counted_first c.not_utf8 32 (codes "not UTF-8") _ second in
    let (d, fourth) =
      counted_first c.too_large 32 (codes "over the size limit") []
        (ap (join (codes ", ")) (append-nil _) ∙ third) in
    omega (arith, a, b, d)

-- The total counts every skipped file once, and the summary is empty exactly if the total is 0.
pub total-record_all-describe :
    (c : SkipCounts) (rs : List SkipReason)
    → (total (record_all c rs) ≡ total c + length rs)
      × ((describe (record_all c rs) ≡ []) ↔ (total (record_all c rs) ≡ 0))
total-record_all-describe c rs = (
  total-record_all c rs,
  (describe_something (record_all c rs), describe_nothing (record_all c rs)),
)
