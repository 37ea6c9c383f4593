-- ===== src/Cjk/Stream.antt =====
-- The filter's stream gives the pieces of the inner tokens, numbered.
use rqmd.Common.{
  ℕ, suc, ◌≡◌, refl, ap, subst, ◌∙◌, Bool, true, false, Option, some, List, [], ◌∷◌, ◌++◌, ◌⊎◌, inl,
  inr,
}
use rqmd.Text.{Run, ok, panic, out_of_fuel, ◌>>=◌}
use rqmd.Cjk.{Token, split, CjkBigramStream, advance_tail, advance}

-- The pieces of all tokens.
abbrev pub splits : List Token → Run (List Token)
splits [] = ok []
splits (token ∷ tokens) = do ps ← split token; qs ← splits tokens; ok (ps ++ qs)

-- What a stream has still to give.
abbrev pub remaining : CjkBigramStream → Run (List Token)
remaining s = do qs ← splits s.tail; ok (s.pending ++ qs)

-- How `advance` ends when the pieces `ps` remain: with the first of them, numbered, or at the end.
abbrev pub Advanced : CjkBigramStream → List Token → Run (Bool × CjkBigramStream) → Type 0
Advanced s [] run =
    (s' : CjkBigramStream) × (run ≡ ok (false, s')) × (s'.next_position ≡ s.next_position)
Advanced s (p ∷ ps) run =
    (s' : CjkBigramStream) × (run ≡ ok (true, s'))
    × (s'.current ≡ some (record p { position = s.next_position }))
    × (s'.next_position ≡ suc s.next_position)
    × (remaining s' ≡ ok ps)

Run-cases : {A : Type 0} (r : Run A) → ((x : A) × (r ≡ ok x)) ⊎ ((r ≡ panic) ⊎ (r ≡ out_of_fuel))
Run-cases (ok x) = inl (x, refl)
Run-cases panic = inr (inl refl)
Run-cases out_of_fuel = inr (inr refl)

ok-injective : {A : Type 0} {a b : A} → ok a ≡ ok b → a ≡ b
ok-injective e = cc

-- A run that appends and succeeds.
append_ok :
    (r : Run (List Token)) (xs ps : List Token)
    → (do qs ← r; ok (xs ++ qs)) ≡ ok ps
    → (qs : List Token) × (r ≡ ok qs) × (xs ++ qs ≡ ps)
append_ok (ok qs) xs ps h = (qs, refl, ok-injective h)
append_ok panic xs ps h = absurd (cc)
append_ok out_of_fuel xs ps h = absurd (cc)

abbrev stream : List Token → Option Token → ℕ → CjkBigramStream
stream tail current next = record {
  tail = tail;
  pending = [];
  current = current;
  next_position = next;
}

abbrev after_pop : ℕ → Token → List Token → List Token → CjkBigramStream
after_pop next p pending tail = record {
  tail = tail;
  pending = pending;
  current = some (record p { position = next });
  next_position = suc next;
}

Advanced-pending :
    (s : CjkBigramStream) (p : Token) (pending : List Token) (tail : List Token)
    (ps qs : List Token)
    → splits tail ≡ ok qs
    → p ∷ pending ++ qs ≡ ps
    → Advanced s ps (ok (true, after_pop s.next_position p pending tail))
Advanced-pending s p pending tail ps qs e h =
    subst (λ r. Advanced s r (ok (true, after_pop s.next_position p pending tail))) h
      (after_pop s.next_position p pending tail, refl, refl, refl, rw e refl)

Advanced-tail :
    (tail : List Token) (current : Option Token) (next : ℕ) (ps : List Token)
    → splits tail ≡ ok ps
    → Advanced
        (record { tail = tail; pending = []; current = current; next_position = next })
        ps
        (advance_tail tail current next)
unfolding advance_tail
Advanced-tail [] current next [] h = (_, refl, refl)
Advanced-tail [] current next (p ∷ ps) h = absurd (cc)
Advanced-tail (token ∷ tail) current next ps h = elim (Run-cases (split token)) [
  | inl (xs, e) ↦
      first xs e (λ rs k. Advanced-tail tail current next rs k)
        (append_ok (splits tail) xs ps (rw e at h))
  | inr (inl e) ↦ absurd (let k = rw e at h in cc)
  | inr (inr e) ↦ absurd (let k = rw e at h in cc)
]
  where
    first :
        (xs : List Token)
        → split token ≡ ok xs
        → ((rs : List Token)
            → splits tail ≡ ok rs
            → Advanced (stream tail current next) rs (advance_tail tail current next))
        → (qs : List Token) × (splits tail ≡ ok qs) × (xs ++ qs ≡ ps)
        → Advanced
            (stream (token ∷ tail) current next)
            ps
            (advance_tail (token ∷ tail) current next)
    first [] e ih (qs, k, l) = rw e (ih ps (k ∙ ap ok l))
    first (x ∷ xs) e ih (qs, k, l) =
        rw e (Advanced-pending (stream (token ∷ tail) current next) x xs tail ps qs k l)

Advanced-fields :
    (tail pending : List Token) (current : Option Token) (next : ℕ) (ps : List Token)
    → remaining (record { tail = tail; pending = pending; current = current; next_position = next })
      ≡ ok ps
    → Advanced
        (record { tail = tail; pending = pending; current = current; next_position = next })
        ps
        (advance
          (record { tail = tail; pending = pending; current = current; next_position = next }))
unfolding advance
Advanced-fields tail [] current next ps h =
    let (qs, e, k) = append_ok (splits tail) [] ps h in
    Advanced-tail tail current next ps (e ∙ ap ok k)
Advanced-fields tail (p ∷ pending) current next ps h =
    let (qs, e, k) = append_ok (splits tail) (p ∷ pending) ps h in
    Advanced-pending
      (record { tail = tail; pending = p ∷ pending; current = current; next_position = next }) p
      pending tail ps qs e k

-- If the pieces of all remaining tokens are `ps`, then `advance` ends at the end of the stream if
-- there are none, and otherwise moves to the first of them, renumbered to the next position, with
-- the others remaining.
pub advance-Advanced :
    (s : CjkBigramStream) (ps : List Token) → remaining s ≡ ok ps → Advanced s ps (advance s)
unfolding advance
advance-Advanced s ps h = Advanced-fields s.tail s.pending s.current s.next_position ps h
