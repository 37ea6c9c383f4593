-- ===== src/ModelCache/Recent.antt =====
-- An eviction deletes the rows that were used longest ago.
use rqmd.Common.{
  ℕ, zero, suc, ◌-◌, ◌≤◌, ◌≡◌, subst, ◌⊎◌, true, List, [], ◌∷◌, ◌++◌, arith, Bool-cases, inl, inr,
  take, drop, take-append-drop,
}
use rqmd.ModelCache.{Cache, Victim, comes_first, insert_victim, sort_victims, evict, count_rows}
use rqmd.ModelCache.Evict.{same_row, others, without, entries}
use rqmd.ModelCache.Limit.{hit, AllHit, AllHit-self, victims, entries-evict}

abbrev pub Each : (Victim → Type 0) → List Victim → Type 0
Each P [] = Unit
Each P (w ∷ ws) = P w × Each P ws

module _ (P : Victim → Type 0) where
  pub Each-insert : (v : Victim) (ws : List Victim) → P v → Each P ws → Each P (insert_victim v ws)
  unfolding insert_victim
  Each-insert v [] h k = (h, tt)
  Each-insert v (w ∷ ws) h (l, k) = elim (Bool-cases (comes_first v w)) [
    | inl e ↦ rw e (h, (l, k))
    | inr e ↦ rw e (l, Each-insert v ws h k)
  ]

  pub Each-sort : (ws : List Victim) → Each P ws → Each P (sort_victims ws)
  unfolding sort_victims
  Each-sort [] h = tt
  Each-sort (w ∷ ws) (h, hs) = Each-insert w (sort_victims ws) h (Each-sort ws hs)

  pub Each-take : (k : ℕ) (ws : List Victim) → Each P ws → Each P (take k ws)
  Each-take zero ws h = tt
  Each-take (suc k) [] h = tt
  Each-take (suc k) (w ∷ ws) (h, hs) = (h, Each-take k ws hs)

  pub Each-append : (xs ys : List Victim) → Each P xs → Each P ys → Each P (xs ++ ys)
  Each-append [] ys h k = k
  Each-append (x ∷ xs) ys (h, hs) k = (h, Each-append xs ys hs k)

  -- Back from the sorted list.
  Each-uninsert : (v : Victim) (ws : List Victim) → Each P (insert_victim v ws) → P v × Each P ws
  unfolding insert_victim
  Each-uninsert v [] (h, k) = (h, tt)
  Each-uninsert v (w ∷ ws) h = elim (Bool-cases (comes_first v w)) [
    | inl e ↦ rw e at h
    | inr e ↦ let (l, k) = split (rw e at h) in let (p, q) = Each-uninsert v ws k in (p, (l, q))
  ]
    where
      split : P w × Each P (insert_victim v ws) → P w × Each P (insert_victim v ws)
      split h = h

  Each-unsort : (ws : List Victim) → Each P (sort_victims ws) → Each P ws
  unfolding sort_victims
  Each-unsort [] h = tt
  Each-unsort (w ∷ ws) h = let (p, q) = Each-uninsert w (sort_victims ws) h in (p, Each-unsort ws q)

abbrev pub Older : List Victim → Victim → Type 0
Older vs w = Each (λ v. v.last_used ≤ w.last_used) vs

abbrev Rising : List Victim → Type 0
Rising [] = Unit
Rising (v ∷ vs) = Each (λ w. v.last_used ≤ w.last_used) vs × Rising vs

Each-weaken :
    (P Q : Victim → Type 0) (ws : List Victim) → ((w : Victim) → P w → Q w) → Each P ws → Each Q ws
Each-weaken P Q [] f h = tt
Each-weaken P Q (w ∷ ws) f (h, hs) = (f w h, Each-weaken P Q ws f hs)

Rising-insert : (v : Victim) (ws : List Victim) → Rising ws → Rising (insert_victim v ws)
unfolding insert_victim comes_first
Rising-insert v [] h = (tt, tt)
Rising-insert v (w ∷ ws) (h, hs) = elim (Bool-cases (comes_first v w)) [
  | inl e ↦
      let le : v.last_used ≤ w.last_used = ground arith in
      rw e (
        (
          le,
          Each-weaken (λ x. w.last_used ≤ x.last_used) (λ x. v.last_used ≤ x.last_used) ws
              (λ x k. omega arith) h,
        ),
        (h, hs),
      )
  | inr e ↦
      let le : w.last_used ≤ v.last_used = ground arith in
      rw e (Each-insert (λ x. w.last_used ≤ x.last_used) v ws le h, Rising-insert v ws hs)
]

Rising-sort : (ws : List Victim) → Rising (sort_victims ws)
unfolding sort_victims
Rising-sort [] = tt
Rising-sort (w ∷ ws) = Rising-insert w (sort_victims ws) (Rising-sort ws)

-- What a row is at the end: named by a victim, or used no earlier than any of them.
abbrev Fate : List Victim → Victim → Type 0
Fate vs w = (hit vs w ≡ true) ⊎ Older vs w

Each-all : (P : Victim → Type 0) (ws : List Victim) → ((w : Victim) → P w) → Each P ws
Each-all P [] f = tt
Each-all P (w ∷ ws) f = (f w, Each-all P ws f)

Each-drop : (P : Victim → Type 0) (k : ℕ) (ws : List Victim) → Each P ws → Each P (drop k ws)
Each-drop P zero ws h = h
Each-drop P (suc k) [] h = tt
Each-drop P (suc k) (w ∷ ws) (h, hs) = Each-drop P k ws hs

Each-both :
    (P Q : Victim → Type 0) (ws : List Victim) → Each P ws → Each Q ws → Each (λ w. P w × Q w) ws
Each-both P Q [] h k = tt
Each-both P Q (w ∷ ws) (h, hs) (k, ks) = ((h, k), Each-both P Q ws hs ks)

Rising-Older : (k : ℕ) (ws : List Victim) → Rising ws → Each (Older (take k ws)) (drop k ws)
Rising-Older zero ws h = Each-all (Older []) ws (λ w. tt)
Rising-Older (suc k) [] h = tt
Rising-Older (suc k) (v ∷ ws) (h, hs) =
    Each-both (λ w. v.last_used ≤ w.last_used) (Older (take k ws)) (drop k ws)
      (Each-drop (λ w. v.last_used ≤ w.last_used) k ws h) (Rising-Older k ws hs)

AllHit-Fate : (vs ws : List Victim) → AllHit vs ws → Each (Fate vs) ws
AllHit-Fate vs [] h = tt
AllHit-Fate vs (w ∷ ws) (h, hs) = (inl h, AllHit-Fate vs ws hs)

first-Fate : (k : ℕ) (ws : List Victim) → Each (Fate (take k (sort_victims ws))) ws
first-Fate k ws =
    let vs = take k (sort_victims ws) in
    Each-unsort (Fate vs) ws (
      subst (Each (Fate vs)) (take-append-drop k (sort_victims ws)) (
        Each-append (Fate vs) vs (drop k (sort_victims ws)) (AllHit-Fate vs vs (AllHit-self vs)) (
          Each-weaken (Older vs) (Fate vs) (drop k (sort_victims ws)) (λ w h. inr h)
            (Rising-Older k (sort_victims ws) (Rising-sort ws)))))

-- What is true of every entry that no victim names is true of all that stay.
others-Each :
    (Q : Victim → Type 0) (v : Victim) (vs ws : List Victim)
    → Each (λ w. (hit (v ∷ vs) w ≡ true) ⊎ Q w) ws
    → Each (λ w. (hit vs w ≡ true) ⊎ Q w) (others v ws)
others-Each Q v vs [] h = tt
others-Each Q v vs (w ∷ ws) (h, hs) = elim (Bool-cases (same_row w v)) [
  | inl e ↦ rw e (others-Each Q v vs ws hs)
  | inr e ↦ rw e (elim h [ inl t ↦ inl (rw e at t) | inr q ↦ inr q ], others-Each Q v vs ws hs)
]

without-Each :
    (Q : Victim → Type 0) (vs ws : List Victim)
    → Each (λ w. (hit vs w ≡ true) ⊎ Q w) ws
    → Each Q (without vs ws)
without-Each Q [] ws h = Each-weaken _ Q ws (λ w k. elim k [ inl e ↦ absurd (cc) | inr q ↦ q ]) h
without-Each Q (v ∷ vs) ws h = without-Each Q vs (others v ws) (others-Each Q v vs ws h)

-- No row that an eviction deletes was used after a row that it leaves, in either table.
pub evict_least_recent : (c : Cache) → Each (Older (victims c)) (entries (evict c))
evict_least_recent c = rw (entries-evict c) (
    without-Each (Older (victims c)) (victims c) (entries c)
      (first-Fate (count_rows c - c.max_rows) (entries c)))
