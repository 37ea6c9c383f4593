-- ===== src/Store/Script.antt =====
-- crates/rqmd-core/src/store.rs: the guard against expansion lines in another script than the query.
use rqmd.Common.{
  ℕ, zero, suc, ◌+◌, ◌-◌, ◌*◌, Bool, true, false, ◌&&◌, ◌||◌, List, [], ◌∷◌, ltb, leb,
  if◌then◌else◌,
}
use rqmd.Text.{Bytes}

-- `text.chars()` as code points: how many bytes of a character are to come, and its bits so far.
unfoldable pub chars_from : ℕ → ℕ → Bytes → List ℕ
chars_from k acc [] = []
chars_from zero acc (b ∷ s) =
    let one = chars_from 0 0 s in
    let two = chars_from 1 (b - 0xc0) s in
    let three = chars_from 2 (b - 0xe0) s in
    let four = chars_from 3 (b - 0xf0) s in
    if ltb b 0x80 then b ∷ one else if ltb b 0xe0 then two else if ltb b 0xf0 then three else four
chars_from (suc zero) acc (b ∷ s) = (acc * 64 + (b - 0x80)) ∷ chars_from 0 0 s
chars_from (suc (suc k)) acc (b ∷ s) = chars_from (suc k) (acc * 64 + (b - 0x80)) s

unfoldable pub chars : Bytes → List ℕ
unfolding chars_from
chars s = chars_from 0 0 s

pub data Script : Type 0 where
  latin : Script
  cjk : Script
  other_script : Script

abbrev between : ℕ → ℕ → ℕ → Bool
between low high c = leb low c && leb c high

unfoldable pub script_of : ℕ → Script
script_of c =
    if between 0x3040 0x30ff c
      || between 0x3400 0x4dbf c
      || between 0x4e00 0x9fff c
      || between 0xac00 0xd7af c
    then cjk
    else if between b'A' b'Z' c || between b'a' b'z' c || between 0xc0 0x24f c
    then latin
    else other_script

-- The counts of the loop.
pub record Letters : Type 0 where
  pub latin_count : ℕ
  pub cjk_count : ℕ
  pub other_count : ℕ

unfoldable pub count_letter : Script → Letters → Letters
count_letter latin n = record n { latin_count = suc n.latin_count }
count_letter cjk n = record n { cjk_count = 2 + n.cjk_count }
count_letter other_script n = record n { other_count = suc n.other_count }

module _ (is_alphabetic : ℕ → Bool) where
  unfoldable pub count_letters : List ℕ → Letters
  unfolding count_letter script_of
  count_letters [] = record { latin_count = 0; cjk_count = 0; other_count = 0 }
  count_letters (c ∷ cs) =
      let rest = count_letters cs in
      if is_alphabetic c then count_letter (script_of c) rest else rest

  unfoldable pub dominant_script : Bytes → Script
  unfolding count_letters chars
  dominant_script s =
      let n = count_letters (chars s) in
      if leb n.latin_count n.cjk_count && leb n.other_count n.cjk_count && ltb 0 n.cjk_count
      then cjk
      else if leb n.other_count n.latin_count && ltb 0 n.latin_count
      then latin
      else other_script

  unfoldable pub differ : Script → Script → Bool
  differ latin cjk = true
  differ cjk latin = true
  differ latin latin = false
  differ latin other_script = false
  differ cjk cjk = false
  differ cjk other_script = false
  differ other_script s = false

  unfoldable pub expansion_language_mismatch : Bytes → Bytes → Bool
  unfolding dominant_script differ
  expansion_language_mismatch query line = differ (dominant_script query) (dominant_script line)
