-- ===== src/Lock/System.antt =====
-- crates/rqmd-core/src/lock.rs: processes that use the lock of one index, in any order.
-- A process is an index. Its pid and the name of its machine never change; two processes may have one pid, but for their lifetimes the caller of `kill` sees no live process as gone.
use mathlib.Core.Logic.{ite}
use native.Mathlib.Decide.{ℕ_discrete}
use rqmd.Common.{ℕ, ◌+◌, ◌≤◌, ◌≡◌, ◌≢◌, Bool, true, false, some}
use rqmd.Text.{Bytes, trim, is_empty}
use rqmd.Lock.{Machine, pid_max}
use rqmd.Lock.Acquire.{
  Disk, IndexLock, Attempt, acquired, busy, failed, try_acquire, heartbeat, release,
}

pub record Process : Type 0 where
  pub pid : ℕ
  pub hostname : Bytes

-- A pid of `pid_t`, and a name as `local_hostname` returns it.
pub record IsProcess (p : Process) : Type 0 where
  pub positive : p.pid ≢ 0
  pub small : p.pid ≤ pid_max
  pub trimmed : trim p.hostname ≡ p.hostname
  pub named : is_empty p.hostname ≡ false

pub data Phase : Type 0 where
  idle : Phase
  holding : IndexLock → Phase
  gone : Phase

pub record System : Type 0 where
  pub disk : Disk
  pub phase : ℕ → Phase
  pub now : ℕ

abbrev pub update : (ℕ → Phase) → ℕ → Phase → ℕ → Phase
update phases i p j = ite (ℕ_discrete i j) p (phases j)

abbrev pub is_gone : Phase → Bool
is_gone idle = false
is_gone (holding lock) = false
is_gone gone = true

abbrev pub is_holding : Phase → Bool
is_holding idle = false
is_holding (holding lock) = true
is_holding gone = false

-- Where an attempt leaves the process.
unfoldable pub phase_after : Attempt → Phase
phase_after (acquired lock) = holding lock
phase_after (busy holder) = idle
phase_after failed = idle

module _ (who : ℕ → Process) where
  -- `kill(pid, 0)` on a machine never reports a live process of that machine as gone.
  abbrev pub NoneMissed : System → ℕ → (ℕ → Bool) → Type 0
  NoneMissed s i alive =
      (j : ℕ)
      → is_gone (s.phase j) ≡ false
      → (who j).hostname ≡ (who i).hostname
      → alive (who j).pid ≡ true

  unfoldable pub machine : System → ℕ → (ℕ → Bool) → Machine
  machine s i alive = record {
    pid = (who i).pid;
    hostname = some ((who i).hostname);
    pid_is_alive = alive;
    now = s.now;
  }

  unfoldable pub attempted : System → ℕ → Disk × Attempt → System
  unfolding phase_after
  attempted s i (disk, outcome) = record {
    disk = disk;
    phase = update s.phase i (phase_after outcome);
    now = s.now;
  }

  unfoldable pub beaten : System → ℕ → IndexLock × Disk → System
  beaten s i (lock, disk) = record {
    disk = disk;
    phase = update s.phase i (holding lock);
    now = s.now;
  }

  pub data Step (s : System) : System → Type 0 where
    wait : (n : ℕ) → Step s (record s { now = s.now + n })
    attempt :
        (i : ℕ) (alive : ℕ → Bool) (calls : ℕ)
        → s.phase i ≡ idle
        → NoneMissed s i alive
        → Step s (attempted s i (try_acquire (machine s i alive) calls s.disk))
    beat :
        (i : ℕ) (lock : IndexLock)
        → s.phase i ≡ holding lock
        → Step s (beaten s i (heartbeat s.now lock s.disk))
    drop :
        (i : ℕ) (lock : IndexLock) (calls : ℕ)
        → s.phase i ≡ holding lock
        → Step s
            (record { disk = release calls s.disk; phase = update s.phase i idle; now = s.now })
    die : (i : ℕ) → Step s (record s { phase = update s.phase i gone })

  -- No process has the lock, and the directory is as an earlier run left it.
  pub data Reach : System → Type 0 where
    start : (disk : Disk) (now : ℕ) → Reach (record { disk = disk; phase = λ i. idle; now = now })
    next : {s t : System} → Reach s → Step s t → Reach t
