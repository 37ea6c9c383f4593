-- ===== src/ModelCache/Recall.antt =====
-- An expansion that was just stored is found.
use rqmd.Common.{
  ℕ, zero, suc, ◌-◌, ◌≤◌, ◌<◌, ◌≡◌, refl, ap, ◌∙◌, false, some, List, [], ◌∷◌, ◌++◌, arith, ◌==◌,
  Bool-cases, inl, inr, length, take, length-append,
}
use rqmd.Text.{Bytes, bytes_eq}
use rqmd.Text.Equal.{bytes_eq_refl}
use rqmd.ModelCache.{
  Row, Cache, Victim, tag, comes_first, insert_victim, sort_victims, delete_row, delete_victim,
  delete_victims, evict, count_rows, find_row, is_row, without_key, last_rowid, newest,
  insert_or_replace, next_tick,
}
use rqmd.ModelCache.Evict.{same_row, entries}
use rqmd.ModelCache.Limit.{hit, victims, length-sort_victims, length-tag}
use rqmd.ModelCache.Recent.{Each, Each-sort, Each-take, Each-append}
use rqmd.ModelCache.Ops.{get_expansion, put_expansion, expansion_key, expansion_prompt_version}

-- A row that no victim names stays at the front of its table.
delete_row-front :
    (rowid : ℕ) (r : Row Bytes) (rows : List (Row Bytes))
    → (r.rowid == rowid) ≡ false
    → delete_row rowid (r ∷ rows) ≡ r ∷ delete_row rowid rows
unfolding delete_row
delete_row-front rowid r rows h = rw h

front_stays :
    (vs : List Victim) (c : Cache) (r : Row Bytes) (rows : List (Row Bytes))
    → c.expansion ≡ r ∷ rows
    → hit vs (record { table = 0; rowid = r.rowid; last_used = r.last_used }) ≡ false
    → (rows' : List (Row Bytes)) × ((delete_victims vs c).expansion ≡ r ∷ rows')
unfolding delete_victims delete_victim
front_stays [] c r rows e h = (rows, e)
front_stays (v ∷ vs) c r rows e h = elim (Bool-cases (v.table == 0)) [
  | inl z ↦
      front_stays vs (delete_victim v c) r (delete_row v.rowid rows)
        (rw z (ap (delete_row v.rowid) e ∙ delete_row-front v.rowid r rows (ground arith)))
        (ground arith)
  | inr z ↦ front_stays vs (delete_victim v c) r rows (rw z e) (ground arith)
]

-- Entries of the one table with bounded numbers.
abbrev Bounded : ℕ → ℕ → ℕ → Victim → Type 0
Bounded n a b w = (w.table ≡ n) × (w.rowid ≤ a) × (w.last_used ≤ b)

tag-Bounded :
    {A : Type 0} (n a b : ℕ) (rows : List (Row A))
    → last_rowid rows ≤ a
    → newest rows ≤ b
    → Each (Bounded n a b) (tag n rows)
unfolding tag last_rowid newest
tag-Bounded n a b [] h k = tt
tag-Bounded n a b (r ∷ rows) h k =
    ((refl, omega arith, omega arith), tag-Bounded n a b rows (omega arith) (omega arith))

without_key-bounds :
    {A : Type 0} (key : Bytes) (rows : List (Row A))
    → (last_rowid (without_key key rows) ≤ last_rowid rows)
      × (newest (without_key key rows) ≤ newest rows)
unfolding without_key last_rowid newest
without_key-bounds key [] = (omega arith, omega arith)
without_key-bounds key (r ∷ rows) = elim (Bool-cases (bytes_eq r.key key)) [
  | inl e ↦ let (h, k) = without_key-bounds key rows in rw e (omega arith, omega arith)
  | inr e ↦ let (h, k) = without_key-bounds key rows in rw e (omega arith, omega arith)
]

-- An entry of another row, used before `n`.
abbrev Before : Victim → Victim → Type 0
Before n w = (w.last_used < n.last_used) × (same_row w n ≡ false)

Before-Bounded :
    (n : Victim) (t a b : ℕ) (ws : List Victim)
    → b < n.last_used
    → (t ≡ n.table → a < n.rowid)
    → Each (Bounded t a b) ws
    → Each (Before n) ws
Before-Bounded n t a b [] h k e = tt
Before-Bounded n t a b (w ∷ ws) h k ((x, y, z), e) =
    ((omega arith, other), Before-Bounded n t a b ws h k e)
  where
    other : same_row w n ≡ false
    other = elim (Bool-cases (w.table == n.table)) [
      | inl s ↦ let l : a < n.rowid = k (ground arith) in ground arith
      | inr s ↦ rw s
    ]

-- The newest entry stands last in the order of the query.
insert_victim-last :
    (n : Victim) (ws : List Victim) → Each (Before n) ws → insert_victim n ws ≡ ws ++ n ∷ []
unfolding insert_victim comes_first
insert_victim-last n [] h = refl
insert_victim-last n (w ∷ ws) ((l, s), h) =
    let e : comes_first n w ≡ false = ground arith in
    rw e (ap (λ r. w ∷ r) (insert_victim-last n ws h))

take-append : (k : ℕ) (xs ys : List Victim) → k ≤ length xs → take k (xs ++ ys) ≡ take k xs
take-append zero xs ys h = refl
take-append (suc k) [] ys h = absurd (omega arith)
take-append (suc k) (x ∷ xs) ys h = ap (λ r. x ∷ r) (take-append k xs ys (omega arith))

not_hit : (n : Victim) (vs : List Victim) → Each (Before n) vs → hit vs n ≡ false
not_hit n [] h = refl
not_hit n (v ∷ vs) ((l, s), h) = ground (arith, not_hit n vs h)

-- Among the first of the sorted entries the newest one is not, if one fewer than all are taken.
newest_not_hit :
    (n : Victim) (ws : List Victim) (k : ℕ)
    → Each (Before n) ws
    → k ≤ length ws
    → hit (take k (sort_victims (n ∷ ws))) n ≡ false
unfolding sort_victims
newest_not_hit n ws k h le =
    ap (λ r. hit (take k r) n) (insert_victim-last n (sort_victims ws) (Each-sort (Before n) ws h))
    ∙ ap (λ r. hit r n)
        (take-append k (sort_victims ws) (n ∷ []) (omega (arith, length-sort_victims ws)))
    ∙ not_hit n (take k (sort_victims ws))
        (Each-take (Before n) k (sort_victims ws) (Each-sort (Before n) ws h))

module _ (c : Cache) (key model version output : Bytes) where
  abbrev old_rows : List (Row Bytes)
  old_rows = without_key key c.expansion

  abbrev new_row : Row Bytes
  new_row = record {
    rowid = suc (last_rowid c.expansion);
    key = key;
    model = model;
    prompt_version = version;
    value = output;
    last_used = next_tick c;
  }

  -- The file before the eviction.
  abbrev stored : Cache
  stored = record c {
    expansion = insert_or_replace key model version output (next_tick c) c.expansion;
  }

  abbrev new_entry : Victim
  new_entry = record { table = 0; rowid = suc (last_rowid c.expansion); last_used = next_tick c }

  old_entries : List Victim
  old_entries = tag 0 old_rows ++ tag 1 c.rerank

  old_entries-Before : Each (Before new_entry) old_entries
  unfolding old_entries next_tick
  old_entries-Before =
      let (h, k) = without_key-bounds key c.expansion in
      Each-append (Before new_entry) (tag 0 old_rows) (tag 1 c.rerank)
        (Before-Bounded new_entry 0 (last_rowid c.expansion) (newest c.expansion) (tag 0 old_rows)
          (omega arith) (λ _. omega arith)
          (tag-Bounded 0 (last_rowid c.expansion) (newest c.expansion) old_rows h k))
        (Before-Bounded new_entry 1 (last_rowid c.rerank) (newest c.rerank) (tag 1 c.rerank)
          (omega arith) (λ e. absurd (omega arith))
          (tag-Bounded 1 (last_rowid c.rerank) (newest c.rerank) c.rerank (omega arith)
            (omega arith)))

  entries-stored : entries stored ≡ new_entry ∷ old_entries
  unfolding old_entries insert_or_replace tag
  entries-stored = refl

  excess-le : 0 < c.max_rows → count_rows stored - c.max_rows ≤ length old_entries
  unfolding old_entries count_rows insert_or_replace
  excess-le h = ground (
    arith,
    length-append (tag 0 old_rows) (tag 1 c.rerank),
    length-tag 0 old_rows,
    length-tag 1 c.rerank,
  )

  new_row_stays :
      0 < c.max_rows → (rows : List (Row Bytes)) × ((evict stored).expansion ≡ new_row ∷ rows)
  unfolding evict insert_or_replace
  new_row_stays h = front_stays (victims stored) stored new_row old_rows refl (
      ap (λ es. hit (take (count_rows stored - c.max_rows) (sort_victims es)) new_entry)
        entries-stored
      ∙ newest_not_hit new_entry old_entries (count_rows stored - c.max_rows) old_entries-Before
          (excess-le h))

  find_row-evict :
      0 < c.max_rows → find_row key model version (evict stored).expansion ≡ some output
  unfolding find_row is_row
  find_row-evict h =
      let (rows, e) = new_row_stays h in
      ap (find_row key model version) e
      ∙ ground (arith, bytes_eq_refl key, bytes_eq_refl model, bytes_eq_refl version)

-- With a limit of at least one row, an expansion that was just stored is found again, under the
-- same prompt and model, whatever the file held before and however full it was.
pub get_expansion-put_expansion :
    (sha256 : Bytes → Bytes) (pkg_version : Bytes) (c : Cache) (prompt model output : Bytes)
    → 0 < c.max_rows
    → get_expansion sha256 pkg_version
        (put_expansion sha256 pkg_version c prompt model output)
        prompt
        model
      ≡ some output
unfolding get_expansion put_expansion
get_expansion-put_expansion sha256 pkg_version c prompt model output h =
    find_row-evict c (expansion_key sha256 pkg_version prompt) model
      (expansion_prompt_version sha256 pkg_version) output h
