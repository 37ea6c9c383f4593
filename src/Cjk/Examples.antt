-- ===== src/Cjk/Examples.antt =====
-- Tests of the CJK filter, and its theorems at concrete tokens.
use rqmd.Common.{ℕ, ◌≡◌, ◌⊎◌, refl, true, false, none, List, [], ◌∷◌, ◌++◌, arith}
use rqmd.Text.{Bytes, Run, ok, codes}
use rqmd.Text.Utf8.{Utf8, done, one, three}
use rqmd.Cjk.{Token, CjkBigramStream, split, any_cjk, char_indices, advance}
use rqmd.Cjk.Pieces.{Span, split_lem}
use rqmd.Cjk.Stream.{Advanced, remaining, advance-Advanced}

-- "v東京都", ten bytes into a text.
abbrev tokyo : Token
tokyo = record {
  offset_from = 10;
  offset_to = 20;
  position = 3;
  text = b'v' ∷ 0xe6 ∷ 0x9d ∷ 0xb1 ∷ 0xe4 ∷ 0xba ∷ 0xac ∷ 0xe9 ∷ 0x83 ∷ 0xbd ∷ [];
  position_length = 1;
}

abbrev latin : Token
latin = record {
  offset_from = 21;
  offset_to = 23;
  position = 4;
  text = codes "ab";
  position_length = 1;
}

abbrev piece_of : ℕ → ℕ → Bytes → Token
piece_of from to text = record {
  offset_from = from;
  offset_to = to;
  position = 0;
  text = text;
  position_length = 1;
}

abbrev tokyo_pieces : List Token
tokyo_pieces =
    piece_of 10 11 (b'v' ∷ [])
    ∷ piece_of 11 17 (0xe6 ∷ 0x9d ∷ 0xb1 ∷ 0xe4 ∷ 0xba ∷ 0xac ∷ [])
    ∷ piece_of 14 20 (0xe4 ∷ 0xba ∷ 0xac ∷ 0xe9 ∷ 0x83 ∷ 0xbd ∷ [])
    ∷ []

split-tokyo : split tokyo ≡ ok tokyo_pieces
unfolding split rqmd.Cjk.is_cjk rqmd.Cjk.code_point rqmd.Text.slice rqmd.Text.is_char_boundary
split-tokyo = refl

tokyo-Utf8 : Utf8 (tokyo.text)
tokyo-Utf8 = one _ (omega arith) (
    three _ _ _ (omega arith, omega arith) (omega arith, omega arith) (omega arith, omega arith)
      (three _ _ _ (omega arith, omega arith) (omega arith, omega arith) (omega arith, omega arith)
        (three _ _ _ (omega arith, omega arith) (omega arith, omega arith)
          (omega arith, omega arith) done)))

split_lem_example :
    ((any_cjk (char_indices 0 tokyo.text) ≡ false) × (split tokyo ≡ ok (tokyo ∷ [])))
    ⊎ ((any_cjk (char_indices 0 tokyo.text) ≡ true)
        × ((ps : List Token) × (split tokyo ≡ ok ps) × Span tokyo 0 ps 10))
split_lem_example = split_lem tokyo tokyo-Utf8

abbrev stream : CjkBigramStream
stream = record { tail = tokyo ∷ latin ∷ []; pending = []; current = none; next_position = 7 }

stream-remaining : remaining stream ≡ ok (tokyo_pieces ++ latin ∷ [])
unfolding split rqmd.Cjk.is_cjk rqmd.Cjk.code_point rqmd.Text.slice rqmd.Text.is_char_boundary
stream-remaining = refl

advance-Advanced_example : Advanced stream (tokyo_pieces ++ latin ∷ []) (advance stream)
advance-Advanced_example = advance-Advanced stream (tokyo_pieces ++ latin ∷ []) stream-remaining
