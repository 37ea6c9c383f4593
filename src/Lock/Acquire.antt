-- ===== src/Lock/Acquire.antt =====
-- crates/rqmd-core/src/lock.rs: taking, keeping and giving up the lock.
-- An operation is the list of its file-system calls that write, each on the directory as the one before left it.
-- `calls` is how many succeed: with fewer than the list has, the process fails or dies at the next.
-- The guard makes the calls of an operation one step. Removing the directory is one call.
use rqmd.Common.{
  ℕ, zero, suc, ◌-◌, ◌/◌, Bool, true, false, Option, none, some, List, [], ◌∷◌, ◌++◌, leb,
  if◌then◌else◌,
}
use rqmd.Text.{Bytes}
use rqmd.Text.Decimal.{decimal}
use rqmd.Lock.{
  LockDir, Machine, Holder, LockState, absent, dead, held, inspect, busy_message, second,
  heartbeat_min_interval,
}

abbrev pub Disk : Type 0
Disk = Option LockDir

unfoldable pub run_calls : ℕ → List (Disk → Disk) → Disk → Disk × Bool
run_calls calls [] disk = (disk, true)
run_calls zero (f ∷ fs) disk = (disk, false)
run_calls (suc calls) (f ∷ fs) disk = run_calls calls fs (f disk)

-- A call on a file of the directory, which fails silently when that is gone.
abbrev in_dir : (LockDir → LockDir) → Disk → Disk
in_dir f none = none
in_dir f (some d) = some (f d)

-- `fs::create_dir`
unfoldable pub create_dir : ℕ → Disk → Disk
create_dir now disk =
    some (record { pid_tmp = none; pid = none; host = none; heartbeat = none; modified = now })

-- `fs::remove_dir_all`
abbrev pub remove_dir_all : Disk → Disk
remove_dir_all disk = none

-- `fs::File::create` on the temporary pid file
unfoldable pub create_tmp : ℕ → Disk → Disk
create_tmp now = in_dir (λ d. record d { pid_tmp = some []; modified = now })

unfoldable pub write_tmp : ℕ → Disk → Disk
write_tmp pid = in_dir (λ d. record d { pid_tmp = some (decimal pid) })

unfoldable pub publish_pid : ℕ → Disk → Disk
publish_pid now = in_dir (λ d. record d { pid_tmp = none; pid = d.pid_tmp; modified = now })

unfoldable pub write_host : ℕ → Bytes → Disk → Disk
write_host now host = in_dir (λ d. record d { host = some host; modified = now })

-- A file that exists is written over, which leaves the time of the directory.
unfoldable pub write_heartbeat : ℕ → Disk → Disk
write_heartbeat now = in_dir (λ d. record d {
  heartbeat = some (record { content = decimal (now / second); modified = now });
  modified = elim (d.heartbeat) [ none ↦ now | some b ↦ d.modified ];
})

unfoldable pub host_writes : ℕ → Option Bytes → List (Disk → Disk)
host_writes now none = []
host_writes now (some host) = write_host now host ∷ []

unfoldable pub write_metadata : Machine → List (Disk → Disk)
unfolding host_writes
write_metadata m =
    create_tmp m.now ∷ write_tmp m.pid ∷ publish_pid m.now ∷ host_writes m.now m.hostname
    ++ write_heartbeat m.now ∷ []

-- What a process keeps of a lock that it holds.
pub record IndexLock : Type 0 where
  pub last_beat : ℕ

-- How an attempt ends: with the lock, with the holder that keeps it, or with an error.
pub data Attempt : Type 0 where
  acquired : IndexLock → Attempt
  busy : Holder → Attempt
  failed : Attempt

unfoldable pub after_writes : Machine → Disk × Bool → Disk × Attempt
after_writes m (disk, true) = (disk, acquired (record { last_beat = m.now }))
after_writes m (disk, false) = (disk, failed)

unfoldable pub reclaim : Machine → List (Disk → Disk)
unfolding write_metadata
reclaim m = remove_dir_all ∷ create_dir m.now ∷ write_metadata m

-- The branch of a directory that exists
unfoldable pub after_inspect : Machine → ℕ → LockDir → LockState → Disk × Attempt
unfolding after_writes run_calls reclaim
after_inspect m calls d (held holder) = (some d, busy holder)
after_inspect m calls d absent = after_writes m (run_calls calls (reclaim m) (some d))
after_inspect m calls d (dead pid) = after_writes m (run_calls calls (reclaim m) (some d))

-- The first call opens and locks the guard.
unfoldable pub try_acquire : Machine → ℕ → Disk → Disk × Attempt
unfolding after_inspect write_metadata inspect
try_acquire m zero disk = (disk, failed)
try_acquire m (suc calls) none =
    after_writes m (run_calls calls (create_dir m.now ∷ write_metadata m) none)
try_acquire m (suc calls) (some d) = after_inspect m calls d (inspect m (some d))

-- How `acquire` ends: with the lock, with the message, or with another error.
pub data Acquired : Type 0 where
  locked : IndexLock → Acquired
  message : Bytes → Acquired
  io_error : Acquired

unfoldable pub or_message : Attempt → Acquired
unfolding busy_message
or_message (acquired l) = locked l
or_message (busy holder) = message (busy_message holder)
or_message failed = io_error

unfoldable pub acquire : Machine → ℕ → Disk → Disk × Acquired
unfolding or_message try_acquire
acquire m calls disk = let r = try_acquire m calls disk in (r.0, or_message r.1)

-- `heartbeat` and `beat`
unfoldable pub heartbeat : ℕ → IndexLock → Disk → IndexLock × Disk
unfolding write_heartbeat
heartbeat now lock disk =
    if leb heartbeat_min_interval (now - lock.last_beat)
    then (record { last_beat = now }, write_heartbeat now disk)
    else (lock, disk)

-- `Drop`: an error of the guard or of the removal is ignored.
unfoldable pub release : ℕ → Disk → Disk
unfolding run_calls
release calls disk = (run_calls calls (remove_dir_all ∷ []) disk).0

-- The first call is the guard's.
unfoldable pub remove_lock : ℕ → Disk → Disk × Bool
unfolding run_calls
remove_lock calls disk = run_calls calls ((λ d. d) ∷ remove_dir_all ∷ []) disk
