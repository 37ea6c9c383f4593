-- ===== src/ModelCache/Digest.antt =====
-- What a key's hash covers: the length prefixes keep any two lists of parts apart.
use rqmd.Common.{ℕ, zero, suc, ◌/◌, ◌^◌, ◌<◌, ◌≡◌, refl, ap₂, List, [], ◌∷◌, ◌++◌, arith, length}
use native.Mathlib.Nat.{pow-suc}
use rqmd.Text.{Bytes}
use rqmd.ModelCache.{le_bytes, length_prefixed}

-- Every part is shorter than a u64 can say.
abbrev pub AllShort : List Bytes → Type 0
AllShort [] = Unit
AllShort (part ∷ parts) = (length part < 2 ^ 64) × AllShort parts

head_eq : {a b : ℕ} {s t : Bytes} → a ∷ s ≡ b ∷ t → a ≡ b
head_eq h = cc

tail_eq : {a b : ℕ} {s t : Bytes} → a ∷ s ≡ b ∷ t → s ≡ t
tail_eq h = cc

-- The bytes of a number below 256 ^ k determine it, and what follows them.
le_bytes-injective :
    (k n m : ℕ) (s t : Bytes)
    → n < 256 ^ k
    → m < 256 ^ k
    → le_bytes k n ++ s ≡ le_bytes k m ++ t
    → (n ≡ m) × (s ≡ t)
unfolding le_bytes
le_bytes-injective zero n m s t h l q = (omega arith, q)
le_bytes-injective (suc k) n m s t h l q =
    let (i, j) =
      le_bytes-injective k (n / 256) (m / 256) s t (omega (arith, pow-suc 256 k))
        (omega (arith, pow-suc 256 k)) (tail_eq q) in
    (omega (arith, i, head_eq q), j)

append-injective : (p q s t : Bytes) → length p ≡ length q → p ++ s ≡ q ++ t → (p ≡ q) × (s ≡ t)
append-injective [] [] s t h e = (refl, e)
append-injective [] (y ∷ q) s t h e = absurd (omega arith)
append-injective (x ∷ p) [] s t h e = absurd (omega arith)
append-injective (x ∷ p) (y ∷ q) s t h e =
    let (i, j) = append-injective p q s t (omega arith) (tail_eq e) in (ap₂ ◌∷◌ (head_eq e) i, j)

-- What the hasher is fed for one list of parts, each shorter than 2^64 bytes, it is fed for no other.
pub length_prefixed-injective :
    (ps qs : List Bytes)
    → AllShort ps
    → AllShort qs
    → length_prefixed ps ≡ length_prefixed qs
    → ps ≡ qs
unfolding length_prefixed
length_prefixed-injective [] [] h k e = refl
length_prefixed-injective [] (q ∷ qs) h k e = absurd (unfold le_bytes in cc)
length_prefixed-injective (p ∷ ps) [] h k e = absurd (unfold le_bytes in cc)
length_prefixed-injective (p ∷ ps) (q ∷ qs) (h, hs) (k, ks) e =
    let (n, r) =
      le_bytes-injective 8 (length p) (length q) (p ++ length_prefixed ps) (q ++ length_prefixed qs)
        h k e in
    let (i, j) = append-injective p q (length_prefixed ps) (length_prefixed qs) n r in
    ap₂ ◌∷◌ i (length_prefixed-injective ps qs hs ks j)
