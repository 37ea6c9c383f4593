-- ===== src/Lock/Owner.antt =====
-- The lock of a process: what its directory holds, and what others read from it.
use rqmd.Common.{
  ℕ, zero, suc, ◌≡◌, refl, sym, ap, subst, ◌∙◌, Bool, true, false, none, some, List, [], ◌∷◌, arith,
  Bool-cases, inl, inr,
}
use rqmd.Text.{Bytes}
use rqmd.Text.Decimal.{decimal, parse_uint-decimal, trim-decimal}
use rqmd.Text.Equal.{bytes_eq_iff}
use rqmd.Lock.{
  LockDir, Machine, Holder, LockState, absent, dead, held, inspect, holder_of, judge, u32_max,
  read_pid, read_host, usable_pid, pid_of, host_of, is_foreign,
}
use rqmd.Lock.Acquire.{
  Disk, run_calls, create_dir, create_tmp, write_tmp, publish_pid, write_host, write_heartbeat,
  write_metadata, reclaim, after_writes, after_inspect, try_acquire,
}
use rqmd.Lock.System.{Process, IsProcess, idle, is_holding, phase_after}

-- The directory names the process.
pub record Owns (p : Process) (disk : Disk) : Type 0 where
  pub dir : LockDir
  pub is : disk ≡ some dir
  pub pid : read_pid dir ≡ some p.pid
  pub host : read_host dir ≡ some p.hostname

usable_pid-IsProcess : (p : Process) → IsProcess p → usable_pid p.pid ≡ some p.pid
unfolding usable_pid
usable_pid-IsProcess p h = ground arith

pid_of-decimal : (p : Process) → IsProcess p → pid_of (some (decimal p.pid)) ≡ some p.pid
unfolding pid_of
pid_of-decimal p h =
    rw
      (
        pid_of,
        trim-decimal p.pid,
        parse_uint-decimal u32_max p.pid (omega (arith, h.small)) (omega (arith, h.small)),
      )
      (usable_pid-IsProcess p h)

host_of-trimmed : (p : Process) → IsProcess p → host_of (some p.hostname) ≡ some p.hostname
unfolding host_of
host_of-trimmed p h = rw (h.trimmed, h.named) refl

-- A pid that cannot be seen as dead makes the lock held.
inspect_dir-held :
    (m : Machine) (d : LockDir) (pid : ℕ)
    → read_pid d ≡ some pid
    → (is_foreign (read_host d) m.hostname ≡ false → m.pid_is_alive pid ≡ true)
    → (h : Holder) × (inspect m (some d) ≡ held h)
unfolding inspect
inspect_dir-held m d pid e alive = elim (Bool-cases (is_foreign (read_host d) m.hostname)) [
  | inl foreign ↦ (holder_of m d, ap (judge m d) e ∙ ground (arith, judge))
  | inr near ↦ (holder_of m d, ap (judge m d) e ∙ ground (arith, judge, alive near))
]

is_foreign-false :
    (theirs ours : Bytes) → is_foreign (some theirs) (some ours) ≡ false → theirs ≡ ours
unfolding is_foreign
is_foreign-false theirs ours h = (bytes_eq_iff theirs ours).0 (ground arith)

-- No process that may run on the owner's machine sees the lock as anything but held.
pub inspect-held :
    (p : Process) (m : Machine) (name : Bytes) (disk : Disk)
    → Owns p disk
    → m.hostname ≡ some name
    → (p.hostname ≡ name → m.pid_is_alive p.pid ≡ true)
    → (h : Holder) × (inspect m disk ≡ held h)
inspect-held p m name disk o e alive =
    subst (λ x. (h : Holder) × (inspect m x ≡ held h)) (sym o.is)
      (inspect_dir-held m o.dir p.pid o.pid
        (λ near. alive (is_foreign-false p.hostname name (rw (o.host, e) at near))))

-- When every call succeeds, the calls have been made in order.
all_calls : List (Disk → Disk) → Disk → Disk
all_calls [] disk = disk
all_calls (f ∷ fs) disk = all_calls fs (f disk)

run_calls-true :
    (n : ℕ) (fs : List (Disk → Disk)) (disk : Disk)
    → (run_calls n fs disk).1 ≡ true
    → (run_calls n fs disk).0 ≡ all_calls fs disk
unfolding run_calls all_calls
run_calls-true n [] disk h = refl
run_calls-true zero (f ∷ fs) disk h = absurd (cc)
run_calls-true (suc n) (f ∷ fs) disk h = run_calls-true n fs (f disk) h

-- The directory that a process makes is its own.
all_calls-Owns :
    (p : Process) (m : Machine) (disk : Disk)
    → IsProcess p
    → m.pid ≡ p.pid
    → m.hostname ≡ some p.hostname
    → Owns p (all_calls (create_dir m.now ∷ write_metadata m) disk)
unfolding all_calls write_metadata create_dir write_heartbeat write_host publish_pid write_tmp
    create_tmp read_pid pid_of read_host host_of
all_calls-Owns p m disk h i e =
    rw (i, e) (record { dir = _; is = refl; pid = pid_of-decimal p h; host = host_of-trimmed p h })

after_writes-holding :
    (m : Machine) (r : Disk × Bool)
    → is_holding (phase_after (after_writes m r).1) ≡ true
    → (r.1 ≡ true) × ((after_writes m r).0 ≡ r.0)
unfolding after_writes phase_after
after_writes-holding m (disk, true) h = (refl, refl)
after_writes-holding m (disk, false) h = absurd (cc)

-- The process of an attempt, as the machine reports it.
pub record IsCaller (p : Process) (m : Machine) : Type 0 where
  pub valid : IsProcess p
  pub pid : m.pid ≡ p.pid
  pub hostname : m.hostname ≡ some p.hostname

written-Owns :
    (p : Process) (m : Machine) (n : ℕ) (fs : List (Disk → Disk)) (disk : Disk)
    → Owns p (all_calls fs disk)
    → is_holding (phase_after (after_writes m (run_calls n fs disk)).1) ≡ true
    → Owns p (after_writes m (run_calls n fs disk)).0
written-Owns p m n fs disk o h =
    let (all, same) = after_writes-holding m (run_calls n fs disk) h in
    subst (Owns p) (sym (same ∙ run_calls-true n fs disk all)) o

after_inspect-Owns :
    (p : Process) (m : Machine) (n : ℕ) (d : LockDir) (st : LockState)
    → IsCaller p m
    → is_holding (phase_after (after_inspect m n d st).1) ≡ true
    → Owns p (after_inspect m n d st).0
unfolding after_inspect phase_after reclaim all_calls
after_inspect-Owns p m n d absent c h =
    written-Owns p m n (reclaim m) (some d) (all_calls-Owns p m none c.valid c.pid c.hostname) h
after_inspect-Owns p m n d (dead pid) c h =
    written-Owns p m n (reclaim m) (some d) (all_calls-Owns p m none c.valid c.pid c.hostname) h
after_inspect-Owns p m n d (held holder) c h = absurd (cc)

-- A process that gets the lock is the owner of the directory.
pub try_acquire-Owns :
    (p : Process) (m : Machine) (n : ℕ) (disk : Disk)
    → IsCaller p m
    → is_holding (phase_after (try_acquire m n disk).1) ≡ true
    → Owns p (try_acquire m n disk).0
unfolding try_acquire phase_after
try_acquire-Owns p m zero disk c h = absurd (cc)
try_acquire-Owns p m (suc n) none c h =
    written-Owns p m n _ none (all_calls-Owns p m none c.valid c.pid c.hostname) h
try_acquire-Owns p m (suc n) (some d) c h = after_inspect-Owns p m n d (inspect m (some d)) c h

-- A lock that is held stays as it is, and the attempt fails.
pub try_acquire-held :
    (m : Machine) (n : ℕ) (disk : Disk) (holder : Holder)
    → inspect m disk ≡ held holder
    → ((try_acquire m n disk).0 ≡ disk) × (phase_after (try_acquire m n disk).1 ≡ idle)
unfolding try_acquire phase_after
try_acquire-held m zero disk holder h = (refl, refl)
try_acquire-held m (suc n) none holder h = absurd (cc)
try_acquire-held m (suc n) (some d) holder h = rw (h, after_inspect) (refl, refl)
