-- ===== src/Lock/Examples.antt =====
-- Tests of the lock, and its theorems at concrete processes.
use rqmd.Common.{
  ℕ, ◌≤◌, ◌⊎◌, zero, suc, ◌*◌, ◌≡◌, refl, Bool, true, false, not, none, some, ◌==◌, arith,
}
use rqmd.Text.{Bytes, codes}
use rqmd.Lock.{
  LockDir, Machine, Holder, LockState, absent, dead, held, inspect, second, busy_message,
}
use rqmd.Lock.Acquire.{
  Disk, Attempt, acquired, busy, failed, try_acquire, acquire, remove_lock, heartbeat, release,
}
use rqmd.Lock.Unlock.{Prompt, confirmed, stale_after_from_env, decide, remove, run_unlock}
use rqmd.Lock.System.{
  idle, machine, attempted, NoneMissed, Step, Process, IsProcess, System, is_holding, attempt,
  Reach, start, next,
}
use rqmd.Lock.Safety.{mutual_exclusion}
use rqmd.Lock.Refusal.{run_unlock-spares}
use rqmd.Lock.Takeover.{after_death, takeover, try_acquire-verdict, verdict}

-- Process 0 has pid 7, and every other process pid 8.
abbrev processes : ℕ → Process
processes zero = record { pid = 7; hostname = codes "m" }
processes (suc i) = record { pid = 8; hostname = codes "m" }

processes-IsProcess : (i : ℕ) → IsProcess (processes i)
unfolding rqmd.Text.trim
processes-IsProcess zero = record {
  positive = λ e. omega arith;
  small = omega arith;
  trimmed = refl;
  named = refl;
}
processes-IsProcess (suc i) = record {
  positive = λ e. omega arith;
  small = omega arith;
  trimmed = refl;
  named = refl;
}

abbrev everyone : ℕ → Bool
everyone p = true

-- Process 0 takes a lock that is absent.
abbrev first_hold : System
first_hold =
    attempted processes idle_system 0
      (try_acquire (machine processes idle_system 0 everyone) 8 none)
  where
    idle_system : System
    idle_system = record { disk = none; phase = λ i. idle; now = 0 }

first_hold-Reach : Reach processes first_hold
first_hold-Reach = next (start none 0) (attempt 0 everyone 8 refl (λ j l e. refl))

mutual_exclusion_example : ◌≡◌ {A = ℕ} 0 0
unfolding attempted native.Mathlib.Decide.ℕ_discrete try_acquire machine
mutual_exclusion_example =
    mutual_exclusion processes processes-IsProcess first_hold-Reach 0 0 refl refl

-- Process 0 dies, and process 1 is told that pid 7 is gone.
abbrev pid_8 : ℕ → Bool
pid_8 p = p == 8

true≢false : true ≡ false → ⊥
true≢false e = cc

pid_8-NoneMissed : NoneMissed processes (after_death first_hold 0) 1 pid_8
unfolding native.Mathlib.Decide.ℕ_discrete
pid_8-NoneMissed zero l e = absurd (true≢false l)
pid_8-NoneMissed (suc j) l e = refl

takeover_example :
    (t : System) × Step processes (after_death first_hold 0) t
    × Reach processes t
    × (is_holding (t.phase 1) ≡ true)
unfolding attempted native.Mathlib.Decide.ℕ_discrete try_acquire machine
takeover_example =
    takeover processes processes-IsProcess first_hold-Reach 1 0 pid_8 8 refl refl refl refl
      pid_8-NoneMissed (omega arith)

abbrev fresh_machine : ℕ → Machine
fresh_machine pid = record {
  pid = pid;
  hostname = some (codes "m");
  pid_is_alive = λ p. not (p == 7);
  now = 0;
}

abbrev dead_dir : Disk
dead_dir = first_hold.disk

try_acquire-verdict_example :
    (try_acquire (fresh_machine 8) 8 dead_dir).1 ≡ verdict 0 (inspect (fresh_machine 8) dead_dir)
try_acquire-verdict_example = try_acquire-verdict (fresh_machine 8) 8 dead_dir (omega arith)

-- Between the look of `unlock` at a dead lock and its removal, process 8 takes the lock over; process 9 then gets the lock too.
unlock_race :
    (decide (inspect (fresh_machine 9) dead_dir) 0 false ≡ remove)
    × ((try_acquire (fresh_machine 8) 8 dead_dir).1 ≡ acquired (record { last_beat = 0 }))
    × ((try_acquire
          (fresh_machine 9)
          8
          (remove_lock 2 (try_acquire (fresh_machine 8) 8 dead_dir).0).0).1
        ≡ acquired (record { last_beat = 0 }))
unfolding decide inspect attempted try_acquire machine rqmd.Lock.Acquire.write_heartbeat
    rqmd.Lock.Acquire.write_host rqmd.Lock.Acquire.publish_pid rqmd.Lock.Acquire.write_tmp
    rqmd.Lock.Acquire.create_tmp rqmd.Lock.Acquire.create_dir rqmd.Text.Decimal.parse_uint
    rqmd.Text.trim rqmd.Text.Decimal.decimal rqmd.Text.bytes_eq remove_lock
unlock_race = (refl, refl, refl)

abbrev slow_machine : Machine
slow_machine = record {
  pid = 9;
  hostname = some (codes "m");
  pid_is_alive = everyone;
  now = 700 * second;
}

abbrev at_terminal : Prompt
at_terminal = record { is_terminal = true; line = codes "n" }

run_unlock-spares_example :
    ((run_unlock slow_machine none true false at_terminal 2 dead_dir).0 ≡ dead_dir)
    ⊎ ((stale_after_from_env none ≤ 700 * second)
        × (true ≡ true)
        × (confirmed false at_terminal ≡ some true))
unfolding inspect attempted try_acquire machine rqmd.Lock.Acquire.write_heartbeat
    rqmd.Lock.Acquire.write_host rqmd.Lock.Acquire.publish_pid rqmd.Lock.Acquire.write_tmp
    rqmd.Lock.Acquire.create_tmp rqmd.Lock.Acquire.create_dir rqmd.Text.Decimal.parse_uint
    rqmd.Text.trim rqmd.Text.Decimal.decimal rqmd.Text.bytes_eq
run_unlock-spares_example =
    run_unlock-spares slow_machine none true false at_terminal 2 dead_dir _ refl

-- A failed write after the pid leaves a directory that the process itself then finds held.
blocked_by_itself :
    ((try_acquire (fresh_machine 8) 5 none).1 ≡ failed)
    × ((holder : Holder) × ((try_acquire
            (fresh_machine 8)
            8
            (try_acquire (fresh_machine 8) 5 none).0).1
          ≡ busy holder))
unfolding try_acquire rqmd.Lock.Acquire.publish_pid rqmd.Lock.Acquire.write_tmp
    rqmd.Lock.Acquire.create_tmp rqmd.Lock.Acquire.create_dir rqmd.Text.Decimal.parse_uint
    rqmd.Text.trim rqmd.Text.Decimal.decimal
blocked_by_itself = (refl, (_, refl))
