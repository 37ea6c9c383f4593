-- ===== src/Lock/Unlock.antt =====
-- crates/rqmd-cli/src/commands/unlock.rs: the `rqmd unlock` command.
use rqmd.Common.{
  ℕ, ◌/◌, ◌^◌, ◌-◌, ◌*◌, Bool, true, false, not, Option, none, some, ◌++◌, ltb, if◌then◌else◌, min,
}
use rqmd.Text.{Bytes, bytes_eq, codes, trim}
use rqmd.Text.Decimal.{decimal, parse_uint}
use rqmd.Lock.{
  Machine, Holder, LockState, absent, dead, held, inspect, second, default_stale_after, u32_max,
}
use rqmd.Lock.Acquire.{Disk, remove_lock}

pub data Decision : Type 0 where
  nothing_to_do : Decision
  remove : Decision
  remove_after_confirm : Decision
  refuse : Bytes → Decision

unfoldable describe : Holder → Bytes
describe h = elim (h.pid) [
  | none ↦ codes "the lock's owner"
  | some p ↦ elim (h.host) [
    | none ↦ codes "the holder (pid " ++ decimal p ++ codes ")"
    | some host ↦
        if h.foreign_host
        then codes "the holder (pid " ++ decimal p ++ codes " on " ++ host ++ codes ")"
        else codes "the holder (pid " ++ decimal p ++ codes ")"
  ]
]

unfoldable pub recent_progress : Holder → Bytes
unfolding describe
recent_progress h =
    describe h
    ++ codes " is alive and made progress "
    ++ decimal (h.heartbeat_age / second)
    ++ codes "s ago; refusing to remove its lock"

unfoldable pub may_be_slow : Holder → Bytes
unfolding describe
may_be_slow h =
    describe h
    ++ codes " has made no progress for "
    ++ decimal (min (h.heartbeat_age / second) u32_max)
    ++ codes "s but may only be slow; pass --force to remove it anyway"

unfoldable pub decide : LockState → ℕ → Bool → Decision
unfolding recent_progress may_be_slow
decide absent stale_after force = nothing_to_do
decide (dead pid) stale_after force = remove
decide (held h) stale_after force =
    if ltb h.heartbeat_age stale_after
    then refuse (recent_progress h)
    else if not force
    then refuse (may_be_slow h)
    else remove_after_confirm

-- The value of RQMD_LOCK_STALE_SECS, a u64.
unfoldable pub stale_after_from_env : Option Bytes → ℕ
stale_after_from_env none = default_stale_after
stale_after_from_env (some v) = elim (parse_uint (2 ^ 64 - 1) (trim v)) [
  | none ↦ default_stale_after
  | some secs ↦ secs * second
]

-- The user at the prompt: whether stdin is a terminal, and the line that is read.
pub record Prompt : Type 0 where
  pub is_terminal : Bool
  pub line : Bytes

-- `none` is the error of a prompt without a terminal.
unfoldable pub confirmed : Bool → Prompt → Option Bool
confirmed true prompt = some true
confirmed false prompt =
    if not prompt.is_terminal
    then none
    else if bytes_eq (trim prompt.line) (codes "y")
    then some true
    else some (bytes_eq (trim prompt.line) (codes "Y"))

-- What is printed, or the error.
pub data Outcome : Type 0 where
  no_lock : Outcome
  removed_stale : Outcome
  removed : Outcome
  refused : Bytes → Outcome
  aborted : Outcome
  no_terminal : Outcome
  io_error : Outcome

unfoldable pub removed_with : Outcome → Disk × Bool → Disk × Outcome
removed_with message (disk, true) = (disk, message)
removed_with message (disk, false) = (disk, io_error)

-- The confirmed removal
unfoldable pub after_confirm : Option Bool → ℕ → Disk → Disk × Outcome
unfolding removed_with
after_confirm none calls disk = (disk, no_terminal)
after_confirm (some true) calls disk = removed_with removed (remove_lock calls disk)
after_confirm (some false) calls disk = (disk, aborted)

unfoldable pub carry_out : Bool → Prompt → ℕ → Disk → Decision → Disk × Outcome
unfolding after_confirm confirmed
carry_out skip prompt calls disk nothing_to_do = (disk, no_lock)
carry_out skip prompt calls disk remove = removed_with removed_stale (remove_lock calls disk)
carry_out skip prompt calls disk remove_after_confirm =
    after_confirm (confirmed skip prompt) calls disk
carry_out skip prompt calls disk (refuse reason) = (disk, refused reason)

-- No other process comes between the look at the lock and its removal.
unfoldable pub run_unlock :
    Machine → Option Bytes → Bool → Bool → Prompt → ℕ → Disk → Disk × Outcome
unfolding decide carry_out
run_unlock m env force skip prompt calls disk =
    carry_out skip prompt calls disk (decide (inspect m disk) (stale_after_from_env env) force)
