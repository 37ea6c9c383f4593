-- ===== src/Resolve.antt =====
-- crates/rqmd-core/src/resolve.rs: the index that counts what a plain `multi-get` entry matches, and the
-- clause of crates/rqmd-core/src/db.rs that it repeats.
pub mod Distinct
pub mod Lockstep
pub mod MultiGet
pub mod Queries
mod Examples
use rqmd.Common.{
  ℕ, zero, suc, ◌+◌, Bool, true, false, ◌&&◌, ◌||◌, List, [], ◌∷◌, ◌++◌, map, ltb, leb, ◌==◌,
  if◌then◌else◌, length,
}
use rqmd.Text.{Bytes, bytes_eq}

-- `Document` of types.rs
pub record Document : Type 0 where
  pub id : ℕ
  pub collection : Bytes
  pub path : Bytes
  pub title : Bytes
  pub hash : Bytes
  pub active : Bool

-- `to_ascii_lowercase`
unfoldable pub lowercase : Bytes → Bytes
lowercase s = map (λ b. if leb b'A' b && leb b b'Z' then b + 32 else b) s

abbrev pub Positions : Type 0
Positions = List (Bytes × List ℕ)

-- `map.entry(key).or_default().push(i)`
unfoldable pub push_position : Bytes → ℕ → Positions → Positions
push_position key i [] = (key, i ∷ []) ∷ []
push_position key i ((k, is) ∷ entries) =
    if bytes_eq k key then (k, is ++ i ∷ []) ∷ entries else (k, is) ∷ push_position key i entries

-- `map.get(key)`, without entries for a missing key
unfoldable pub positions_of : Bytes → Positions → List ℕ
positions_of key [] = []
positions_of key ((k, is) ∷ entries) = if bytes_eq k key then is else positions_of key entries

pub record NeedleIndex : Type 0 where
  pub exact : Positions
  pub suffix : Positions

-- The text behind each '/'.
unfoldable pub after_slashes : Bytes → List Bytes
after_slashes [] = []
after_slashes (b ∷ s) = let rest = after_slashes s in if b == b'/' then s ∷ rest else rest

-- The loop over the matches of '/'.
unfoldable pub push_suffixes : List Bytes → ℕ → Positions → Positions
unfolding push_position
push_suffixes [] i entries = entries
push_suffixes (s ∷ ss) i entries = push_suffixes ss i (push_position s i entries)

unfoldable pub add_key : ℕ → Bytes → NeedleIndex → NeedleIndex
unfolding push_position push_suffixes after_slashes lowercase
add_key i key index = record {
  exact = push_position key i index.exact;
  suffix = push_suffixes (after_slashes (lowercase key)) i index.suffix;
}

-- `{collection}/{path}`
unfoldable pub full_path : Document → Bytes
full_path doc = doc.collection ++ b'/' ∷ doc.path

unfoldable pub add_document : ℕ → Document → NeedleIndex → NeedleIndex
unfolding add_key full_path
add_document i doc index = add_key i (full_path doc) (add_key i doc.path index)

-- The loop over the documents.
unfoldable pub add_documents : ℕ → List Document → NeedleIndex → NeedleIndex
unfolding add_document
add_documents i [] index = index
add_documents i (doc ∷ docs) index = add_documents (suc i) docs (add_document i doc index)

-- `NeedleIndex::new`
unfoldable pub new_index : List Document → NeedleIndex
unfolding add_documents
new_index docs = add_documents 0 docs (record { exact = []; suffix = [] })

insert_number : ℕ → List ℕ → List ℕ
insert_number n [] = n ∷ []
insert_number n (m ∷ ms) = if leb n m then n ∷ m ∷ ms else m ∷ insert_number n ms

-- `sort_unstable`
sort_numbers : List ℕ → List ℕ
unfolding insert_number
sort_numbers [] = []
sort_numbers (n ∷ ns) = insert_number n (sort_numbers ns)

-- `dedup`
dedup : List ℕ → List ℕ
dedup [] = []
dedup (n ∷ []) = n ∷ []
dedup (n ∷ m ∷ ms) = let rest = dedup (m ∷ ms) in if n == m then rest else n ∷ rest

unfoldable pub needle_hits : NeedleIndex → Bytes → List ℕ
unfolding positions_of lowercase
needle_hits index needle =
    positions_of needle index.exact ++ positions_of (lowercase needle) index.suffix

unfoldable pub count_distinct : List ℕ → ℕ
unfolding sort_numbers dedup
count_distinct hits = length (dedup (sort_numbers hits))

-- `NeedleIndex::count`
unfoldable pub count_needle : NeedleIndex → Bytes → ℕ
unfolding needle_hits count_distinct
count_needle index needle = count_distinct (needle_hits index needle)

-- `text LIKE '%/' || needle`: some '/' has the needle behind it, up to ASCII case.
unfoldable pub ends_like : Bytes → Bytes → Bool
unfolding lowercase
ends_like needle [] = false
ends_like needle (b ∷ s) =
    b == b'/' && bytes_eq (lowercase s) (lowercase needle) || ends_like needle s

-- `NEEDLE_CLAUSE`
unfoldable pub matches_needle : Bytes → Document → Bool
unfolding ends_like full_path
matches_needle needle doc =
    bytes_eq doc.path needle
    || bytes_eq (full_path doc) needle
    || ends_like needle doc.path
    || ends_like needle (full_path doc)
