-- ===== src/Document.antt =====
-- crates/rqmd-cli/src/document.rs: reading a file of a collection.
-- What the file system answers is an argument. The names of the files that are read are UTF-8.
pub mod Skips
pub mod Clause
pub mod Walk
pub mod Headings
pub mod Titled
mod Examples
use rqmd.Common.{
  ℕ, zero, suc, ◌+◌, ◌-◌, ◌^◌, Bool, true, false, not, ◌&&◌, Option, none, some, List, [], ◌∷◌,
  ◌++◌, ltb, leb, ◌==◌, if◌then◌else◌,
}
use rqmd.Text.{
  Bytes, codes, newline, Run, ok, panic, out_of_fuel, ◌>>=◌, is_empty, starts_with, trim,
  trim_start,
}
use rqmd.Text.Lines.{lines, join}
use rqmd.Frontmatter.{Frontmatter, split_frontmatter}

pub record PreparedDoc : Type 0 where
  pub rel_path : Bytes
  pub title : Bytes
  pub indexed_text : Bytes
  pub raw : Bytes

-- `io::ErrorKind`, the ones told apart
pub data ErrorKind : Type 0 where
  invalid_data : ErrorKind
  denied : ErrorKind
  missing : ErrorKind
  other : ℕ → ErrorKind

pub data SkipReason : Type 0 where
  not_utf8 : SkipReason
  permission_denied : SkipReason
  not_found : SkipReason
  io : ErrorKind → SkipReason

unfoldable pub from_io_error : ErrorKind → SkipReason
from_io_error invalid_data = not_utf8
from_io_error denied = permission_denied
from_io_error missing = not_found
from_io_error (other n) = io (other n)

-- `trim_start_matches('#')`
unfoldable pub trim_start_hashes : Bytes → Bytes
trim_start_hashes [] = []
trim_start_hashes (b ∷ s) = if b == b'#' then trim_start_hashes s else b ∷ s

-- The heading of a line, if it is one.
unfoldable pub heading_of : Bytes → Option Bytes
unfolding trim_start_hashes
heading_of line =
    if not (starts_with (trim_start line) (codes "#"))
    then none
    else if is_empty (trim (trim_start_hashes (trim_start line)))
    then none
    else some (trim (trim_start_hashes (trim_start line)))

-- `find_map`: the first heading of the lines
unfoldable pub or_else : Option Bytes → Option Bytes → Option Bytes
or_else none next = next
or_else (some h) next = some h

unfoldable pub first_of : List Bytes → Option Bytes
unfolding heading_of or_else
first_of [] = none
first_of (l ∷ ls) = or_else (heading_of l) (first_of ls)

unfoldable pub first_heading : Bytes → Option Bytes
unfolding first_of
first_heading body = first_of (lines body)

-- `stem` is `Path::file_stem`, if it is UTF-8.
unfoldable pub filename_stem : Option Bytes → Bytes → Bytes
filename_stem none rel_path = rel_path
filename_stem (some stem) rel_path = stem

unfoldable pub title_of_frontmatter : Option Frontmatter → Option Bytes
title_of_frontmatter none = none
title_of_frontmatter (some fm) = fm.title

unfoldable pub or_heading : Option Bytes → Bytes → Option Bytes
unfolding first_heading
or_heading none body = first_heading body
or_heading (some t) body = some t

unfoldable pub resolve_title : Option Bytes → Option Bytes → Bytes → Bytes
unfolding filename_stem
resolve_title none stem rel_path = filename_stem stem rel_path
resolve_title (some t) stem rel_path = t

unfoldable pub with_terms : Bytes → List Bytes → Bytes
with_terms body [] = body
with_terms body (t ∷ ts) = body ++ newline ∷ join (codes " ") (t ∷ ts)

unfoldable pub indexed_text_of : Option Frontmatter → Bytes → Bytes
unfolding with_terms
indexed_text_of none body = body
indexed_text_of (some fm) body = with_terms body fm.terms

-- `std::fs::read_to_string`
pub data Read : Type 0 where
  content : Bytes → Read
  error : ErrorKind → Read

pub data Prepared : Type 0 where
  prepared : PreparedDoc → Prepared
  skipped : SkipReason → Prepared

unfoldable pub to_prepared : Bytes → Option Bytes → Bytes → Option Frontmatter → Bytes → PreparedDoc
unfolding or_heading title_of_frontmatter resolve_title indexed_text_of
to_prepared raw stem rel_path frontmatter body = record {
  rel_path = rel_path;
  title = resolve_title (or_heading (title_of_frontmatter frontmatter) body) stem rel_path;
  indexed_text = indexed_text_of frontmatter body;
  raw = raw;
}

unfoldable pub prepare : Read → Option Bytes → Bytes → Run Prepared
unfolding to_prepared from_io_error
prepare (error kind) stem rel_path = ok (skipped (from_io_error kind))
prepare (content raw) stem rel_path = do
  r ← split_frontmatter raw
  ok (prepared (to_prepared raw stem rel_path r.0 r.1))

-- Size and time of the last change in nanoseconds, each an i64.
pub record FileStat : Type 0 where
  pub size : ℕ
  pub mtime : ℕ

abbrev pub mtime_trust_window : ℕ
mtime_trust_window = 2000000000

abbrev i64_max : ℕ
i64_max = 2 ^ 63 - 1

-- `none` is a time before the epoch, or no time.
unfoldable pub stat_file : Option (ℕ × Option ℕ) → Option FileStat
stat_file none = none
stat_file (some (len, none)) = none
stat_file (some (len, some nanos)) =
    if leb len i64_max && leb nanos i64_max
    then some (record { size = len; mtime = nanos })
    else none

unfoldable pub trusted_stat : ℕ → FileStat → Option FileStat
trusted_stat now stat =
    if leb stat.mtime now && ltb mtime_trust_window (now - stat.mtime) then some stat else none
