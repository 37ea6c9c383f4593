-- ===== src/Document/Clause.antt =====
-- crates/rqmd-cli/src/document.rs: the folders that a summary names.
use rqmd.Common.{
  ℕ, ◌-◌, Bool, ◌&&◌, ◌||◌, Option, none, some, List, [], ◌∷◌, ◌++◌, ltb, leb, ◌==◌, if◌then◌else◌,
  length, take,
}
use rqmd.Text.{Bytes, codes}
use rqmd.Text.Lines.{join}
use rqmd.Text.Decimal.{decimal}

abbrev pub reported_dirs : ℕ
reported_dirs = 5

abbrev pub is_control_byte : ℕ → Bool
is_control_byte b = ltb b 32 || b == 127

abbrev pub is_control_tail : ℕ → Bool
is_control_tail b = leb 0x80 b && leb b 0x9f

abbrev question_mark : ℕ
question_mark = 63

-- `char::is_control`: U+0000 to U+001F, U+007F, and U+0080 to U+009F in two bytes.
unfoldable pub clean : Bytes → Bytes
clean [] = []
clean (b ∷ []) = (if is_control_byte b then question_mark else b) ∷ []
clean (b ∷ c ∷ s) =
    let rest = clean (c ∷ s) in
    let behind = clean s in
    if b == 0xc2 && is_control_tail c
    then question_mark ∷ behind
    else (if is_control_byte b then question_mark else b) ∷ rest

unfoldable pub slashed : List Bytes → List Bytes
unfolding clean
slashed [] = []
slashed (d ∷ ds) = (clean d ++ codes "/") ∷ slashed ds

unfoldable pub more_dirs : ℕ → Bytes
more_dirs n =
    if ltb reported_dirs n then codes " +" ++ decimal (n - reported_dirs) ++ codes " more" else []

unfoldable pub excluded_dirs_clause : List Bytes → Option Bytes
unfolding slashed more_dirs
excluded_dirs_clause [] = none
excluded_dirs_clause (d ∷ ds) = some (
    codes "left out "
    ++ decimal (length (d ∷ ds))
    ++ codes " folder(s) by the built-in rule ("
    ++ join (codes ", ") (slashed (take reported_dirs (d ∷ ds)))
    ++ more_dirs (length (d ∷ ds))
    ++ codes ")")
