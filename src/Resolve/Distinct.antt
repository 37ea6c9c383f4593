-- ===== src/Resolve/Distinct.antt =====
-- Sorting and removing repeats counts the distinct numbers.
use rqmd.Common.{
  ℕ, suc, ◌≤◌, ◌<◌, ◌≡◌, refl, sym, ap, ◌∙◌, Bool, true, false, ◌&&◌, ◌||◌, List, [], ◌∷◌, ◌++◌,
  arith, leb, ◌==◌, ==_iff, if◌then◌else◌, Bool-cases, inl, inr, length,
}
use rqmd.Resolve.{insert_number, sort_numbers, dedup, count_distinct}

abbrev pub has : ℕ → List ℕ → Bool
has i [] = false
has i (n ∷ ns) = n == i || has i ns

pub has-append : (i : ℕ) (xs ys : List ℕ) → has i (xs ++ ys) ≡ has i xs || has i ys
has-append i [] ys = refl
has-append i (x ∷ xs) ys = ground (arith, has-append i xs ys)

has-insert_number : (i n : ℕ) (ns : List ℕ) → has i (insert_number n ns) ≡ (n == i || has i ns)
unfolding insert_number
has-insert_number i n [] = refl
has-insert_number i n (m ∷ ms) = ground (arith, has-insert_number i n ms)

has-sort_numbers : (i : ℕ) (ns : List ℕ) → has i (sort_numbers ns) ≡ has i ns
unfolding sort_numbers
has-sort_numbers i [] = refl
has-sort_numbers i (n ∷ ns) =
    ground (arith, has-insert_number i n (sort_numbers ns), has-sort_numbers i ns)

has-dedup : (i : ℕ) (ns : List ℕ) → has i (dedup ns) ≡ has i ns
unfolding dedup
has-dedup i [] = refl
has-dedup i (n ∷ []) = refl
has-dedup i (n ∷ m ∷ ms) = ground (arith, has-dedup i (m ∷ ms))

-- Numbers from `lo` on, in order.
abbrev Sorted : ℕ → List ℕ → Type 0
Sorted lo [] = Unit
Sorted lo (n ∷ ns) = (lo ≤ n) × Sorted n ns

abbrev Strict : ℕ → List ℕ → Type 0
Strict lo [] = Unit
Strict lo (n ∷ ns) = (lo ≤ n) × Strict (suc n) ns

Sorted-insert_number :
    (lo n : ℕ) (ns : List ℕ) → lo ≤ n → Sorted lo ns → Sorted lo (insert_number n ns)
unfolding insert_number
Sorted-insert_number lo n [] h s = (h, tt)
Sorted-insert_number lo n (m ∷ ms) h (k, s) = elim (Bool-cases (leb n m)) [
  | inl e ↦ rw e (h, (ground arith, s))
  | inr e ↦ rw e (k, Sorted-insert_number m n ms (ground arith) s)
]

Sorted-sort_numbers : (ns : List ℕ) → Sorted 0 (sort_numbers ns)
unfolding sort_numbers
Sorted-sort_numbers [] = tt
Sorted-sort_numbers (n ∷ ns) =
    Sorted-insert_number 0 n (sort_numbers ns) (omega arith) (Sorted-sort_numbers ns)

Strict-weaken : (lo lo' : ℕ) (ns : List ℕ) → lo ≤ lo' → Strict lo' ns → Strict lo ns
Strict-weaken lo lo' [] h s = tt
Strict-weaken lo lo' (n ∷ ns) h (k, s) = (omega arith, s)

-- The first of the numbers that are left is the first.
Strict-dedup : (lo : ℕ) (ns : List ℕ) → Sorted lo ns → Strict lo (dedup ns)
unfolding dedup
Strict-dedup lo [] s = tt
Strict-dedup lo (n ∷ []) (h, s) = (h, tt)
Strict-dedup lo (n ∷ m ∷ ms) (h, (k, s)) = elim (Bool-cases (n == m)) [
  | inl e ↦ rw e (Strict-dedup lo (m ∷ ms) (omega arith, s))
  | inr e ↦ rw e (h, Strict-dedup (suc n) (m ∷ ms) (ground arith, s))
]

module _ {A : Type 0} (test : A → Bool) where
  -- Whether the element at position `i` passes the test, when the list begins at position `n`.
  abbrev pub holds_at : ℕ → List A → ℕ → Bool
  holds_at n [] i = false
  holds_at n (x ∷ xs) i = test x && n == i || holds_at (suc n) xs i

  abbrev pub count_if : List A → ℕ
  count_if [] = 0
  count_if (x ∷ xs) = if test x then suc (count_if xs) else count_if xs

  holds_at_before : (n : ℕ) (xs : List A) (i : ℕ) → i < n → holds_at n xs i ≡ false
  holds_at_before n [] i h = refl
  holds_at_before n (x ∷ xs) i h = ground (arith, holds_at_before (suc n) xs i (omega arith))

  has_before : (n : ℕ) (ns : List ℕ) (i : ℕ) → i < n → Strict n ns → has i ns ≡ false
  has_before n [] i h s = refl
  has_before n (m ∷ ms) i h (k, s) = ground (arith, has_before (suc m) ms i (omega arith) s)

  skip :
      (n : ℕ) (x : A) (xs : List A)
      → test x ≡ false
      → (i : ℕ) → holds_at n (x ∷ xs) i ≡ holds_at (suc n) xs i
  skip n x xs e i = rw e refl

  first_position :
      (n m : ℕ) (ms : List ℕ) (x : A) (xs : List A)
      → n ≤ m
      → Strict (suc m) ms
      → test x ≡ true
      → has n (m ∷ ms) ≡ holds_at n (x ∷ xs) n
      → m ≤ n
  first_position n m ms x xs k s e h = elim (Bool-cases (leb m n)) [
    | inl l ↦ ground arith
    | inr l ↦
        let none_before : has n ms ≡ false = has_before (suc m) ms n (ground arith) s in
        absurd (ground arith)
  ]

  behind :
      (n m : ℕ) (ms : List ℕ) (x : A) (xs : List A)
      → m ≡ n
      → Strict (suc m) ms
      → test x ≡ true
      → (i : ℕ) → has i (m ∷ ms) ≡ holds_at n (x ∷ xs) i
      → has i ms ≡ holds_at (suc n) xs i
  behind n m ms x xs q s e i h = elim (Bool-cases (n == i)) [
    | inl l ↦
        let i_is : n ≡ i = (==_iff n i).0 l in
        has_before (suc m) ms i (omega arith) s ∙ sym (holds_at_before (suc n) xs i (omega arith))
    | inr l ↦ ground arith
  ]

  later :
      (n m : ℕ) (ms : List ℕ) (x : A) (xs : List A)
      → n ≤ m
      → test x ≡ false
      → has n (m ∷ ms) ≡ holds_at n (x ∷ xs) n
      → suc n ≤ m
  later n m ms x xs k e h = elim (Bool-cases (leb m n)) [
    | inl l ↦
        let none_before : holds_at (suc n) xs n ≡ false =
          holds_at_before (suc n) xs n (omega arith) in
        absurd (ground arith)
    | inr l ↦ ground arith
  ]

  length-Strict :
      (n : ℕ) (ns : List ℕ) (xs : List A)
      → Strict n ns
      → ((i : ℕ) → has i ns ≡ holds_at n xs i)
      → length ns ≡ count_if xs
  length-Strict n [] [] s h = refl
  length-Strict n (m ∷ ms) [] s h = absurd (let k = h m in ground arith)
  length-Strict n [] (x ∷ xs) s h = elim (Bool-cases (test x)) [
    | inl e ↦ absurd (let k = h n in ground arith)
    | inr e ↦ rw e (length-Strict (suc n) [] xs tt (λ i. h i ∙ skip n x xs e i))
  ]
  length-Strict n (m ∷ ms) (x ∷ xs) (k, s) h = elim (Bool-cases (test x)) [
    | inl e ↦
        let first : m ≤ n = first_position n m ms x xs k s e (h n) in
        rw e (
          ap suc (
            length-Strict (suc n) ms xs (Strict-weaken (suc n) (suc m) ms (omega arith) s)
              (λ i. behind n m ms x xs (omega arith) s e i (h i))))
    | inr e ↦ rw e (
        length-Strict (suc n) (m ∷ ms) xs (later n m ms x xs k e (h n), s)
          (λ i. h i ∙ skip n x xs e i))
  ]

  -- The distinct positions of the elements that pass the test are as many as those elements.
  pub count_distinct-count_if :
      (hits : List ℕ) (xs : List A)
      → ((i : ℕ) → has i hits ≡ holds_at 0 xs i)
      → count_distinct hits ≡ count_if xs
  unfolding count_distinct
  count_distinct-count_if hits xs h =
      length-Strict 0 (dedup (sort_numbers hits)) xs
        (Strict-dedup 0 (sort_numbers hits) (Sorted-sort_numbers hits))
        (λ i. has-dedup i (sort_numbers hits) ∙ has-sort_numbers i hits ∙ h i)
