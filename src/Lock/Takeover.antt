-- ===== src/Lock/Takeover.antt =====
-- When the lock is taken: an attempt whose calls succeed decides by what it reads, and the lock of a dead process does not stay.
use mathlib.Core.Logic.{ite}
use native.Mathlib.Decide.{ℕ_discrete}
use rqmd.Common.{
  ℕ, zero, suc, ◌≤◌, ◌≡◌, refl, ap, ◌∙◌, Bool, true, false, Option, none, some, List, [], ◌∷◌, ◌++◌,
  length, arith,
}
use rqmd.Text.{Bytes}
use rqmd.Text.Equal.{bytes_eq_refl}
use rqmd.Lock.{
  LockDir, Machine, LockState, absent, dead, held, inspect, judge, is_foreign, read_host,
}
use rqmd.Lock.Acquire.{
  Disk, run_calls, create_dir, host_writes, write_metadata, write_heartbeat, reclaim, Attempt,
  acquired, busy, after_writes, after_inspect, try_acquire,
}
use rqmd.Lock.System.{
  Process, IsProcess, Phase, idle, gone, System, update, is_holding, phase_after, NoneMissed,
  machine, attempted, Step, attempt, die, Reach, next,
}
use rqmd.Lock.Owner.{Owns}
use rqmd.Lock.Safety.{Reach-Inv}

run_calls-enough :
    (n : ℕ) (fs : List (Disk → Disk)) (disk : Disk) → length fs ≤ n → (run_calls n fs disk).1 ≡ true
unfolding run_calls
run_calls-enough n [] disk h = refl
run_calls-enough zero (f ∷ fs) disk h = absurd (omega arith)
run_calls-enough (suc n) (f ∷ fs) disk h = run_calls-enough n fs (f disk) (omega arith)

length-host_writes :
    (now : ℕ) (host : Option Bytes) → length (host_writes now host ++ write_heartbeat now ∷ []) ≤ 2
unfolding host_writes
length-host_writes now none = omega arith
length-host_writes now (some host) = omega arith

length-write_metadata : (m : Machine) → length (write_metadata m) ≤ 5
unfolding write_metadata
length-write_metadata m = omega (arith, length-host_writes m.now m.hostname)

length-reclaim : (m : Machine) → length (reclaim m) ≤ 7
unfolding reclaim
length-reclaim m = omega (arith, length-write_metadata m)

after_writes-acquired :
    (m : Machine) (r : Disk × Bool)
    → r.1 ≡ true
    → (after_writes m r).1 ≡ acquired (record { last_beat = m.now })
unfolding after_writes
after_writes-acquired m (disk, true) h = refl
after_writes-acquired m (disk, false) h = absurd (cc)

-- Who gets the lock, by what is read from the directory.
unfoldable pub verdict : ℕ → LockState → Attempt
verdict now absent = acquired (record { last_beat = now })
verdict now (dead pid) = acquired (record { last_beat = now })
verdict now (held holder) = busy holder

after_inspect-verdict :
    (m : Machine) (n : ℕ) (d : LockDir) (st : LockState)
    → 7 ≤ n
    → (after_inspect m n d st).1 ≡ verdict m.now st
unfolding after_inspect verdict
after_inspect-verdict m n d absent h =
    after_writes-acquired m _
      (run_calls-enough n (reclaim m) (some d) (omega (arith, length-reclaim m)))
after_inspect-verdict m n d (dead pid) h =
    after_writes-acquired m _
      (run_calls-enough n (reclaim m) (some d) (omega (arith, length-reclaim m)))
after_inspect-verdict m n d (held holder) h = refl

-- When its calls succeed, of which there are at most eight, an attempt gets a lock that is absent or dead, and returns the holder of a lock that is held.
pub try_acquire-verdict :
    (m : Machine) (calls : ℕ) (disk : Disk)
    → 8 ≤ calls
    → (try_acquire m calls disk).1 ≡ verdict m.now (inspect m disk)
unfolding try_acquire verdict inspect
try_acquire-verdict m zero disk h = absurd (omega arith)
try_acquire-verdict m (suc n) none h = after_writes-acquired m _ (
    run_calls-enough n (create_dir m.now ∷ write_metadata m) none
      (omega (arith, length-write_metadata m)))
try_acquire-verdict m (suc n) (some d) h =
    after_inspect-verdict m n d (inspect m (some d)) (omega arith)

near_dead :
    (m : Machine) (d : LockDir) (pid : ℕ) (host : Bytes)
    → read_host d ≡ some host
    → m.hostname ≡ some host
    → m.pid_is_alive pid ≡ false
    → judge m d (some pid) ≡ dead (some pid)
unfolding judge is_foreign
near_dead m d pid host e f k = rw (e, f, is_foreign, bytes_eq_refl host, k) refl

-- A process of the owner's machine that sees the owner as gone sees the lock as dead.
inspect-dead :
    (p : Process) (m : Machine) (disk : Disk)
    → Owns p disk
    → m.hostname ≡ some p.hostname
    → m.pid_is_alive p.pid ≡ false
    → inspect m disk ≡ dead (some p.pid)
unfolding inspect
inspect-dead p m disk o e k =
    ap (inspect m) o.is ∙ ap (judge m o.dir) o.pid ∙ near_dead m o.dir p.pid p.hostname o.host e k

holding-update : (phases : ℕ → Phase) (i : ℕ) (p : Phase) → update phases i p i ≡ p
holding-update phases i p = elim (ℕ_discrete i i) as (λ d. ite d p (phases i) ≡ p) [
  | yes e ↦ refl
  | no ne ↦ absurd (ne refl)
]

abbrev pub after_death : System → ℕ → System
after_death s j = record s { phase = update s.phase j gone }

verdict-holding :
    (m : Machine) (r : Disk × Attempt) (pid : Option ℕ)
    → r.1 ≡ verdict m.now (dead pid)
    → is_holding (phase_after r.1) ≡ true
unfolding verdict phase_after
verdict-holding m r pid e = ap (λ a. is_holding (phase_after a)) e

-- A process `j` holds the lock and dies. Another process `i` of the same machine, to which `kill` reports the pid of `j` as gone and no live process of the machine as gone, then gets the lock at its next attempt, when the calls of the attempt succeed.
pub takeover :
    (who : ℕ → Process)
    → ((i : ℕ) → IsProcess (who i))
    → {s : System} → Reach who s
    → (i j : ℕ) (alive : ℕ → Bool) (calls : ℕ) → is_holding (s.phase j) ≡ true
    → update s.phase j gone i ≡ idle
    → (who i).hostname ≡ (who j).hostname
    → alive (who j).pid ≡ false
    → NoneMissed who (after_death s j) i alive
    → 8 ≤ calls
    → (t : System) × Step who (after_death s j) t × Reach who t × (is_holding (t.phase i) ≡ true)
unfolding attempted machine
takeover who valid {s} r i j alive calls k free near dead_pid honest enough =
    let st = attempt i alive calls free honest in
    (
      _,
      st,
      next (next r (die j)) st,
      ap is_holding (holding-update (after_death s j).phase i _)
          ∙ verdict-holding m (try_acquire m calls s.disk) (some (who j).pid) (
              try_acquire-verdict m calls s.disk enough
              ∙ ap (verdict s.now) (
                  inspect-dead (who j) m s.disk ((Reach-Inv who valid r).owner j k) (ap some near)
                    dead_pid)),
    )
  where
    m : Machine
    m = machine who (after_death s j) i alive
