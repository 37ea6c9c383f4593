-- ===== src/Lock/Refusal.antt =====
-- `rqmd unlock` on a lock that may be in use.
use rqmd.Common.{
  ℕ, ◌≤◌, ◌≡◌, refl, ap, ◌∙◌, Bool, true, false, Option, none, some, ltb, Bool-cases, inl, inr, ◌⊎◌,
  ltb→le,
}
use rqmd.Text.{Bytes}
use rqmd.Lock.{Machine, Holder, held, inspect}
use rqmd.Lock.Acquire.{Disk}
use rqmd.Lock.Unlock.{
  Decision, recent_progress, may_be_slow, remove_after_confirm, refuse, decide,
  stale_after_from_env, Prompt, Outcome, confirmed, after_confirm, carry_out, run_unlock,
}

decide-held :
    (h : Holder) (stale : ℕ) (force : Bool)
    → ((stale ≤ h.heartbeat_age)
        × (force ≡ true)
        × (decide (held h) stale force ≡ remove_after_confirm))
      ⊎ ((reason : Bytes) × (decide (held h) stale force ≡ refuse reason))
unfolding decide
decide-held h stale force = elim (Bool-cases (ltb h.heartbeat_age stale)) [
  | inl fresh ↦ inr (recent_progress h, rw fresh refl)
  | inr old ↦ elim (Bool-cases force) [
    | inl forced ↦ inl (ltb→le h.heartbeat_age stale old, forced, rw (old, forced) refl)
    | inr kept ↦ inr (may_be_slow h, rw (old, kept) refl)
  ]
]

after_confirm-spares :
    (answer : Option Bool) (calls : ℕ) (disk : Disk)
    → ((after_confirm answer calls disk).0 ≡ disk) ⊎ (answer ≡ some true)
unfolding after_confirm
after_confirm-spares none calls disk = inl refl
after_confirm-spares (some true) calls disk = inr refl
after_confirm-spares (some false) calls disk = inl refl

-- `unlock` leaves a lock that is held as it is, unless its last heartbeat is at least as old as the window for staleness, `--force` is given, and the user confirms or `--yes` is given.
pub run_unlock-spares :
    (m : Machine) (env : Option Bytes) (force skip : Bool) (prompt : Prompt) (calls : ℕ)
    (disk : Disk) (h : Holder)
    → inspect m disk ≡ held h
    → ((run_unlock m env force skip prompt calls disk).0 ≡ disk)
      ⊎ ((stale_after_from_env env ≤ h.heartbeat_age)
          × (force ≡ true)
          × (confirmed skip prompt ≡ some true))
unfolding run_unlock carry_out
run_unlock-spares m env force skip prompt calls disk h e =
    elim (decide-held h (stale_after_from_env env) force) [
      | inl (old, forced, is) ↦ elim (after_confirm-spares (confirmed skip prompt) calls disk) [
        | inl kept ↦ inl (ap (λ x. (after x).0) (decided e is) ∙ kept)
        | inr answer ↦ inr (old, forced, answer)
      ]
      | inr (reason, is) ↦ inl (ap (λ x. (after x).0) (decided e is))
    ]
  where
    after : Decision → Disk × Outcome
    after = carry_out skip prompt calls disk

    decided :
        {d : Decision}
        → inspect m disk ≡ held h
        → decide (held h) (stale_after_from_env env) force ≡ d
        → decide (inspect m disk) (stale_after_from_env env) force ≡ d
    decided e is = ap (λ x. decide x (stale_after_from_env env) force) e ∙ is
