-- ===== src/QueryCache/Expansion.antt =====
-- Expanding a query with the cache.
use rqmd.Common.{◌<◌, ◌≡◌, refl, ap, ◌∙◌, Option, none, some, Option-cases, inl, inr}
use rqmd.Text.{Bytes}
use rqmd.ModelCache.{Cache}
use rqmd.ModelCache.Ops.{get_expansion}
use rqmd.ModelCache.Recall.{get_expansion-put_expansion}
use rqmd.QueryCache.{
  Outcome, done, failed, Fault, store_expansion, generate_and_store, use_lookup, generate_expansion,
}

module _ (sha256 : Bytes → Bytes) (pkg_version : Bytes) (model prompt : Bytes) where
  -- What a later call finds: with the cache on and no failure, the output that was returned.
  abbrev Recalls : Outcome Bytes × Option Cache → Type 0
  Recalls (result, state) =
      (generated : Outcome Bytes) (write : Option Fault)
      → (output : Bytes) → result ≡ done output
      → (generate_expansion sha256 pkg_version generated (some model) none write prompt state).0
        ≡ done output

  found :
      (c : Cache) (generated : Outcome Bytes) (write : Option Fault) (output : Bytes)
      → get_expansion sha256 pkg_version c prompt model ≡ some output
      → (generate_expansion sha256 pkg_version generated (some model) none write prompt (some c)).0
        ≡ done output
  unfolding generate_expansion use_lookup
  found c generated write output e = rw e refl

  done-injective : {a b : Bytes} → done a ≡ done b → a ≡ b
  done-injective e = cc

  Recalls-use_lookup :
      (generated : Outcome Bytes) (c : Cache) (o : Option Bytes)
      → 0 < c.max_rows
      → Recalls (use_lookup sha256 pkg_version generated model none prompt c o)
  unfolding use_lookup store_expansion generate_and_store
  Recalls-use_lookup generated c (some x) h later write output e = found _ later write output (
      get_expansion-put_expansion sha256 pkg_version c prompt model x h
      ∙ ap some (done-injective e))
  Recalls-use_lookup (done x) c none h later write output e = found _ later write output (
      get_expansion-put_expansion sha256 pkg_version c prompt model x h
      ∙ ap some (done-injective e))
  Recalls-use_lookup failed c none h later write output e = absurd (cc)

-- With a limit of at least one row, once an expansion was returned and the cache did not fail, the
-- next call for the same prompt and model returns the same output, whatever the model would give.
pub generate_expansion-again :
    (sha256 : Bytes → Bytes) (pkg_version model prompt : Bytes) (first later : Outcome Bytes)
    (write : Option Fault) (c : Cache) (output : Bytes)
    → 0 < c.max_rows
    → (generate_expansion sha256 pkg_version first (some model) none none prompt (some c)).0
      ≡ done output
    → (generate_expansion sha256 pkg_version later
        (some model)
        none
        write
        prompt
        (generate_expansion sha256 pkg_version first (some model) none none prompt (some c)).1).0
      ≡ done output
generate_expansion-again sha256 pkg_version model prompt first later write c output h e =
    Recalls-first later write output e
  where
    Recalls-first :
        Recalls sha256 pkg_version model prompt
          (generate_expansion sha256 pkg_version first (some model) none none prompt (some c))
    Recalls-first =
        unfold generate_expansion in
        Recalls-use_lookup sha256 pkg_version model prompt first c
          (get_expansion sha256 pkg_version c prompt model) h

-- No other output of this model for the prompt is cached.
abbrev pub OutputAgree :
    (Bytes → Bytes) → Bytes → Bytes → Bytes → Option Bytes → Option Cache → Type 0
OutputAgree sha256 pkg_version prompt output identity none = Unit
OutputAgree sha256 pkg_version prompt output none (some c) = Unit
OutputAgree sha256 pkg_version prompt output (some model) (some c) =
    (x : Bytes) → get_expansion sha256 pkg_version c prompt model ≡ some x → x ≡ output

-- If the model answers a prompt and the cache holds no other answer to it, the expansion with the
-- cache is the model's answer, whatever the cache holds and whether or not it fails.
pub generate_expansion-generated :
    (sha256 : Bytes → Bytes) (pkg_version prompt output : Bytes) (identity : Option Bytes)
    (read write : Option Fault) (state : Option Cache)
    → OutputAgree sha256 pkg_version prompt output identity state
    → (generate_expansion sha256 pkg_version (done output) identity read write prompt state).0
      ≡ done output
unfolding generate_expansion generate_and_store
generate_expansion-generated sha256 pkg_version prompt output identity read write none h = refl
generate_expansion-generated sha256 pkg_version prompt output none read write (some c) h = refl
generate_expansion-generated sha256 pkg_version prompt output (some model) (some fault) write
      (some c) h =
    refl
generate_expansion-generated sha256 pkg_version prompt output (some model) none write (some c) h =
    elim (Option-cases (get_expansion sha256 pkg_version c prompt model)) [
      | inl e ↦ rw e (unfold use_lookup in refl)
      | inr (x, e) ↦ rw e (unfold use_lookup in ap done (h x e))
    ]
