-- ===== src/Exclusions/Examples.antt =====
-- Tests of the exclusions, and the theorem on masks at a concrete one.
use rqmd.Common.{◌≡◌, refl, true, false, [], ◌∷◌}
use rqmd.Text.{Bytes, codes}
use rqmd.Text.Lines.{join}
use rqmd.Exclusions.{
  text, raw, prunes_dir, is_excluded, split_top_level_commas, glob, globs, build_include_set,
}
use rqmd.Exclusions.Commas.{AllCut, split_top_level_commas_lem}

mask_parts : split_top_level_commas (codes "*.{md,txt},a") ≡ codes "*.{md,txt}" ∷ codes "a" ∷ []
unfolding split_top_level_commas
mask_parts = refl

split_top_level_commas_lem_example :
    (join (b',' ∷ []) (split_top_level_commas (codes "*.{md,txt},a")) ≡ codes "*.{md,txt},a")
    × AllCut 0 0 (split_top_level_commas (codes "*.{md,txt},a"))
split_top_level_commas_lem_example = split_top_level_commas_lem (codes "*.{md,txt},a")

hidden_names :
    (prunes_dir (text (codes ".git")) false ≡ true)
    × (prunes_dir (text (codes ".git")) true ≡ false)
    × (is_excluded (text (codes "a") ∷ text (codes "target") ∷ []) (λ p. false) true ≡ true)
    × (is_excluded (raw (255 ∷ []) ∷ []) (λ p. false) true ≡ true)
unfolding prunes_dir rqmd.Text.starts_with rqmd.Text.contains is_excluded
hidden_names = (refl, refl, refl, refl)

mask_with_empty_part :
    build_include_set (λ p. glob p) (λ gs. true) (codes "*.md, ,*.txt")
    ≡ globs (codes "*.md" ∷ codes "*.txt" ∷ [])
unfolding build_include_set rqmd.Text.trim
mask_with_empty_part = refl
