-- ===== src/Lock.antt =====
-- crates/rqmd-core/src/lock.rs: the lock directory of an index and what is read from it.
-- A time and a duration are in nanoseconds. The files of the directory hold UTF-8.
pub mod Acquire
pub mod Unlock
pub mod Refusal
pub mod System
pub mod Owner
pub mod Safety
pub mod Takeover
mod Examples
use mathlib.Core.Option
use rqmd.Common.{
  ℕ, zero, suc, ◌+◌, ◌-◌, ◌*◌, ◌^◌, Bool, true, false, not, ◌&&◌, Option, none, some, List, [], ◌∷◌,
  ◌++◌, ltb, leb, ◌==◌, if◌then◌else◌,
}
use rqmd.Text.{Bytes, bytes_eq, codes, is_empty, trim}
use rqmd.Text.Decimal.{decimal, parse_uint}

abbrev pub second : ℕ
second = 1000000000

abbrev pub unreadable_pid_grace : ℕ
unreadable_pid_grace = 5 * second

abbrev pub heartbeat_min_interval : ℕ
heartbeat_min_interval = 10 * second

abbrev pub default_stale_after : ℕ
default_stale_after = 600 * second

-- `Duration::MAX`
abbrev pub duration_max : ℕ
duration_max = (2 ^ 64 - 1) * second + 999999999

-- A file with the time of its last change.
pub record Beat : Type 0 where
  pub content : Bytes
  pub modified : ℕ

-- The lock directory: its files and the time of its last change.
pub record LockDir : Type 0 where
  pub pid_tmp : Option Bytes
  pub pid : Option Bytes
  pub host : Option Bytes
  pub heartbeat : Option Beat
  pub modified : ℕ

-- What a process asks of the system: `std::process::id`, `gethostname`, `kill` and the clock.
pub record Machine : Type 0 where
  pub pid : ℕ
  pub hostname : Option Bytes
  pub pid_is_alive : ℕ → Bool
  pub now : ℕ

pub record Holder : Type 0 where
  pub pid : Option ℕ
  pub host : Option Bytes
  pub foreign_host : Bool
  pub heartbeat_age : ℕ

pub data LockState : Type 0 where
  absent : LockState
  dead : Option ℕ → LockState
  held : Holder → LockState

-- A time after `now` has no elapsed time, and a missing file no time.
unfoldable pub modified_age : ℕ → Option ℕ → ℕ
modified_age now none = duration_max
modified_age now (some t) = if leb t now then now - t else duration_max

unfoldable pub heartbeat_age : ℕ → LockDir → ℕ
unfolding modified_age
heartbeat_age now d = elim (d.heartbeat) [
  | none ↦ modified_age now (some d.modified)
  | some b ↦ modified_age now (some b.modified)
]

abbrev pub pid_max : ℕ
pid_max = 2 ^ 31 - 1

abbrev pub u32_max : ℕ
u32_max = 2 ^ 32 - 1

-- `(pid != 0 && pid <= i32::MAX as u32).then_some(pid)`
unfoldable pub usable_pid : ℕ → Option ℕ
usable_pid p = if not (p == 0) && leb p pid_max then some p else none

-- The content of the pid file
unfoldable pub pid_of : Option Bytes → Option ℕ
unfolding usable_pid
pid_of none = none
pid_of (some text) = elim (parse_uint u32_max (trim text)) [ none ↦ none | some p ↦ usable_pid p ]

unfoldable pub read_pid : LockDir → Option ℕ
unfolding pid_of
read_pid d = pid_of d.pid

-- `.map(|h| h.trim().to_string()).filter(|h| !h.is_empty())`
unfoldable pub host_of : Option Bytes → Option Bytes
host_of none = none
host_of (some h) = if is_empty (trim h) then none else some (trim h)

unfoldable pub read_host : LockDir → Option Bytes
unfolding host_of
read_host d = host_of d.host

unfoldable pub is_foreign : Option Bytes → Option Bytes → Bool
is_foreign none ours = false
is_foreign (some theirs) none = false
is_foreign (some theirs) (some ours) = not (bytes_eq theirs ours)

unfoldable pub holder_of : Machine → LockDir → Holder
unfolding read_pid read_host is_foreign heartbeat_age
holder_of m d = record {
  pid = read_pid d;
  host = read_host d;
  foreign_host = is_foreign (read_host d) m.hostname;
  heartbeat_age = heartbeat_age m.now d;
}

-- The `match pid` of `inspect`
unfoldable pub judge : Machine → LockDir → Option ℕ → LockState
unfolding holder_of
judge m d none =
    if ltb (modified_age m.now (some d.modified)) unreadable_pid_grace
    then held (holder_of m d)
    else dead none
judge m d (some p) =
    if is_foreign (read_host d) m.hostname
    then held (holder_of m d)
    else if m.pid_is_alive p
    then held (holder_of m d)
    else dead (some p)

unfoldable pub inspect : Machine → Option LockDir → LockState
unfolding judge
inspect m none = absent
inspect m (some d) = judge m d (read_pid d)

-- U+2014 in UTF-8
abbrev em_dash : Bytes
em_dash = 0xe2 ∷ 0x80 ∷ 0x94 ∷ []

abbrev with_pid : ℕ → Bytes
with_pid p = codes "pid " ++ decimal p

unfoldable who : Holder → Bytes
who h = elim (h.pid) [
  | none ↦ codes "a process that has not identified itself yet"
  | some p ↦ elim (h.host) [
    | none ↦ with_pid p
    | some host ↦ if h.foreign_host then with_pid p ++ codes " on host " ++ host else with_pid p
  ]
]

unfoldable pub busy_message : Holder → Bytes
unfolding who
busy_message h =
    codes "another rqmd embed/update ("
    ++ who h
    ++ codes ") is already writing to this index "
    ++ em_dash
    ++ codes " wait for it to finish. If it is confirmed dead or hung, run `rqmd unlock`."
