-- ===== src/Lock/Safety.antt =====
-- No two processes hold the lock together.
use mathlib.Core.Logic.{ite}
use native.Mathlib.Decide.{ℕ_discrete}
use rqmd.Common.{
  ℕ, ◌-◌, ◌≡◌, ◌≢◌, refl, sym, ap, subst, ◌∙◌, Bool, true, false, Option, leb, Bool-cases, inl, inr,
  ◌⊎◌,
}
use rqmd.Lock.{Holder, LockState, absent, dead, held, inspect, heartbeat_min_interval}
use rqmd.Lock.Acquire.{Disk, IndexLock, try_acquire, heartbeat, write_heartbeat}
use rqmd.Lock.System.{
  Process, IsProcess, Phase, idle, holding, gone, System, update, is_gone, is_holding, NoneMissed,
  machine, attempted, beaten, Step, wait, attempt, beat, drop, die, Reach, start, next,
}
use rqmd.Lock.Owner.{Owns, inspect-held, try_acquire-Owns, try_acquire-held, IsCaller}

holding_of_ite :
    (i j : ℕ) (d : Dec (i ≡ j)) (p q : Phase)
    → is_holding (ite d p q) ≡ true
    → ((i ≡ j) × (is_holding p ≡ true)) ⊎ ((i ≢ j) × (is_holding q ≡ true))
holding_of_ite i j (yes e) p q h = inl (e, h)
holding_of_ite i j (no ne) p q h = inr (ne, h)

-- The process that has changed, or another.
holding_of_update :
    (phases : ℕ → Phase) (i : ℕ) (p : Phase) (j : ℕ)
    → is_holding (update phases i p j) ≡ true
    → ((i ≡ j) × (is_holding p ≡ true)) ⊎ ((i ≢ j) × (is_holding (phases j) ≡ true))
holding_of_update phases i p j h = holding_of_ite i j (ℕ_discrete i j) p (phases j) h

write_heartbeat-Owns :
    (p : Process) (now : ℕ) (disk : Disk) → Owns p disk → Owns p (write_heartbeat now disk)
unfolding write_heartbeat rqmd.Lock.read_pid rqmd.Lock.read_host
write_heartbeat-Owns p now disk o =
    subst (λ x. Owns p (write_heartbeat now x)) (sym o.is)
      (record { dir = _; is = refl; pid = o.pid; host = o.host })

heartbeat-Owns :
    (p : Process) (now : ℕ) (lock : IndexLock) (disk : Disk)
    → Owns p disk
    → Owns p (heartbeat now lock disk).1
unfolding heartbeat
heartbeat-Owns p now lock disk o =
    elim (Bool-cases (leb heartbeat_min_interval (now - lock.last_beat))) [
      | inl due ↦ rw due (write_heartbeat-Owns p now disk o)
      | inr early ↦ rw early o
    ]

true_and_false : {b : Bool} → b ≡ true → b ≡ false → ⊥
true_and_false e f = cc

not_gone : (p : Phase) → is_holding p ≡ true → is_gone p ≡ false
not_gone idle h = refl
not_gone (holding lock) h = refl
not_gone gone h = absurd (true_and_false h refl)

absent_not_held : ((h : Holder) × (absent ≡ held h)) → ⊥
absent_not_held (h, e) = cc

dead_not_held : (pid : Option ℕ) → ((h : Holder) × (dead pid ≡ held h)) → ⊥
dead_not_held pid (h, e) = cc

module _ (who : ℕ → Process) (valid : (i : ℕ) → IsProcess (who i)) where
  -- Whoever holds the lock owns the directory, and is alone.
  pub record Inv (s : System) : Type 0 where
    pub owner : (i : ℕ) → is_holding (s.phase i) ≡ true → Owns (who i) s.disk
    pub alone : (i j : ℕ) → is_holding (s.phase i) ≡ true → is_holding (s.phase j) ≡ true → i ≡ j

  -- One process may have changed; if it holds the lock now, no other does.
  Inv-update :
      (s : System) (disk : Disk) (now : ℕ) (i : ℕ) (p : Phase)
      → (is_holding p ≡ true → Owns (who i) disk)
      → ((j : ℕ)
          → i ≢ j
          → is_holding (s.phase j) ≡ true
          → (is_holding p ≡ false) × Owns (who j) disk)
      → Inv s
      → Inv (record { disk = disk; phase = update s.phase i p; now = now })
  Inv-update s disk now i p mine others inv = record {
    owner = λ j h. elim (holding_of_update s.phase i p j h) [
      | inl (e, k) ↦ subst (λ x. Owns (who x) disk) e (mine k)
      | inr (ne, k) ↦ (others j ne k).1
    ];
    alone = λ j k h h'. elim (holding_of_update s.phase i p j h) [
      | inl (e, a) ↦ elim (holding_of_update s.phase i p k h') [
        | inl (f, b) ↦ sym e ∙ f
        | inr (ne, b) ↦ absurd (true_and_false a (others k ne b).0)
      ]
      | inr (ne, a) ↦ elim (holding_of_update s.phase i p k h') [
        | inl (f, b) ↦ absurd (true_and_false b (others j ne a).0)
        | inr (nf, b) ↦ inv.alone j k a b
      ]
    ];
  }

  caller : (s : System) (i : ℕ) (alive : ℕ → Bool) → IsCaller (who i) (machine who s i alive)
  unfolding machine
  caller s i alive = record { valid = valid i; pid = refl; hostname = refl }

  -- Nobody holds a lock that can be seen as free or abandoned.
  none_holding :
      (s : System) (i : ℕ) (alive : ℕ → Bool) (st : LockState)
      → NoneMissed who s i alive
      → Inv s
      → inspect (machine who s i alive) s.disk ≡ st
      → (j : ℕ) → is_holding (s.phase j) ≡ true
      → (h : Holder) × (st ≡ held h)
  unfolding machine
  none_holding s i alive st honest inv e j k =
      let (h, is) =
        inspect-held (who j) (machine who s i alive) (who i).hostname s.disk (inv.owner j k) refl
          (honest j (not_gone (s.phase j) k)) in
      (h, sym e ∙ is)

  attempt-Inv :
      (s : System) (i : ℕ) (alive : ℕ → Bool) (calls : ℕ) (st : LockState)
      → NoneMissed who s i alive
      → Inv s
      → inspect (machine who s i alive) s.disk ≡ st
      → Inv (attempted who s i (try_acquire (machine who s i alive) calls s.disk))
  unfolding attempted
  attempt-Inv s i alive calls (held h) honest inv e =
      let (same, free) = try_acquire-held (machine who s i alive) calls s.disk h e in
      Inv-update s _ s.now i _ (λ k. absurd (true_and_false k (ap is_holding free)))
        (λ j ne k. (ap is_holding free, subst (Owns (who j)) (sym same) (inv.owner j k))) inv
  attempt-Inv s i alive calls absent honest inv e =
      Inv-update s _ s.now i _
        (try_acquire-Owns (who i) (machine who s i alive) calls s.disk (caller s i alive))
        (λ j ne k. absurd (absent_not_held (none_holding s i alive absent honest inv e j k))) inv
  attempt-Inv s i alive calls (dead pid) honest inv e =
      Inv-update s _ s.now i _
        (try_acquire-Owns (who i) (machine who s i alive) calls s.disk (caller s i alive))
        (λ j ne k. absurd (dead_not_held pid (none_holding s i alive (dead pid) honest inv e j k)))
        inv

  other_absurd :
      (s : System) (i : ℕ) (lock : IndexLock)
      → s.phase i ≡ holding lock
      → Inv s
      → (j : ℕ) → i ≢ j
      → is_holding (s.phase j) ≡ true
      → ⊥
  other_absurd s i lock e inv j ne k = ne (inv.alone i j (ap is_holding e) k)

  Step-Inv : {s t : System} → Step who s t → Inv s → Inv t
  unfolding beaten
  Step-Inv {s} (wait n) inv = record { owner = inv.owner; alone = inv.alone }
  Step-Inv {s} (attempt i alive calls free honest) inv =
      attempt-Inv s i alive calls _ honest inv refl
  Step-Inv {s} (beat i lock e) inv =
      Inv-update s _ s.now i _
        (λ k. heartbeat-Owns (who i) s.now lock s.disk (inv.owner i (ap is_holding e)))
        (λ j ne k. absurd (other_absurd s i lock e inv j ne k)) inv
  Step-Inv {s} (drop i lock calls e) inv =
      Inv-update s _ s.now i idle (λ k. absurd (true_and_false k refl))
        (λ j ne k. absurd (other_absurd s i lock e inv j ne k)) inv
  Step-Inv {s} (die i) inv =
      Inv-update s s.disk s.now i gone (λ k. absurd (true_and_false k refl))
        (λ j ne k. (refl, inv.owner j k)) inv

  pub Reach-Inv : {s : System} → Reach who s → Inv s
  Reach-Inv (start disk now) = record {
    owner = λ i h. absurd (true_and_false h refl);
    alone = λ i j h k. absurd (true_and_false h refl);
  }
  Reach-Inv (next r st) = Step-Inv st (Reach-Inv r)

-- In every reachable state at most one process holds the lock. The processes have valid pids and trimmed names of machines, and `kill` misses no live process of the machine it runs on.
pub mutual_exclusion :
    (who : ℕ → Process)
    → ((i : ℕ) → IsProcess (who i))
    → {s : System} → Reach who s
    → (i j : ℕ) → is_holding (s.phase i) ≡ true
    → is_holding (s.phase j) ≡ true
    → i ≡ j
mutual_exclusion who valid r = (Reach-Inv who valid r).alone
