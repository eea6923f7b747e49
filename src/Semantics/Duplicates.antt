-- ===== src/Semantics/Duplicates.antt =====
-- When the check of duplicates has nothing to say
-- (src/comfyui_docker_helper/config/authored/validation/semantics.py).
use text.Mathlib.TextEquality.{eq_iff}
use comfyui_docker_helper.Prelude.{
  String, Bool, List, [], ◌∷◌, ◌++◌, Option, none, arith, ◌≡◌, ◌≢◌, ◌↔◌, refl, Option-cases, inl,
  inr, All,
}
use comfyui_docker_helper.Merge.{Origin}
use comfyui_docker_helper.Semantics.{LocatedValue, lookup}
use comfyui_docker_helper.Semantics.Checks.{duplicates_after, duplicate_diagnostics}

-- No two values stand in the relation, the earlier one first.
unfoldable pub Pairwise : (LocatedValue → LocatedValue → Type 0) → List LocatedValue → Type 0
Pairwise R [] = Unit
Pairwise R (v ∷ values) = All (R v) values × Pairwise R values

-- `lookup` in a dictionary with one more key at its end.
pub lookup-snoc {ℓ} :
    {A : Type ℓ} (k j : String)
    → (v : A) → (seen : List (String × A))
    → (lookup j (seen ++ (k, v) ∷ []) ≡ none) ↔ ((lookup j seen ≡ none) × (k ≢ j))
unfolding lookup
lookup-snoc k j v [] = ground (arith, eq_iff k j)
lookup-snoc k j v ((i, w) ∷ seen) = ground (arith, lookup-snoc k j v seen)

module _ (origins : Option Origin) (code : String) (display : Bool)
    (normalize : String → String) where
  Fresh : List (String × LocatedValue) → LocatedValue → Type 0
  Fresh seen v = lookup (normalize v.value) seen ≡ none

  Differ : LocatedValue → LocatedValue → Type 0
  Differ v w = normalize v.value ≢ normalize w.value

  Fresh-snoc :
      (seen : List (String × LocatedValue))
      → (v w : LocatedValue)
      → Fresh (seen ++ (normalize v.value, v) ∷ []) w ↔ (Fresh seen w × Differ v w)
  unfolding Fresh Differ
  Fresh-snoc seen v w = lookup-snoc (normalize v.value) (normalize w.value) v seen

  All-both :
      (seen : List (String × LocatedValue))
      → (v : LocatedValue) → (values : List LocatedValue)
      → All (Fresh (seen ++ (normalize v.value, v) ∷ [])) values
        ↔ (All (Fresh seen) values × All (Differ v) values)
  All-both seen v [] = (λ h. (tt, tt), λ h. tt)
  All-both seen v (w ∷ values) =
      let (to, from) = Fresh-snoc seen v w in
      let (tos, froms) = All-both seen v values in
      (
        λ (h, hs). (((to h).0, (tos hs).0), ((to h).1, (tos hs).1)),
        λ ((h, hs), (d, ds)). (from (h, d), froms (hs, ds)),
      )

  nothing-Pairwise :
      (seen : List (String × LocatedValue))
      → (values : List LocatedValue)
      → duplicates_after origins code display normalize seen values ≡ []
      → All (Fresh seen) values × Pairwise Differ values
  unfolding duplicates_after Pairwise Fresh
  nothing-Pairwise seen [] e = (tt, tt)
  nothing-Pairwise seen (v ∷ values) e = elim (Option-cases (lookup (normalize v.value) seen)) [
    | inr (established, found) ↦ ground (arith, found, e)
    | inl fresh ↦
        let (all, pairs) =
          nothing-Pairwise (seen ++ (normalize v.value, v) ∷ []) values
            (ground (arith, fresh, e)) in
        let (fresh_rest, differ) = (All-both seen v values).0 all in
        ((fresh, fresh_rest), (differ, pairs))
  ]

  Pairwise-nothing :
      (seen : List (String × LocatedValue))
      → (values : List LocatedValue) → All (Fresh seen) values
      → Pairwise Differ values
      → duplicates_after origins code display normalize seen values ≡ []
  unfolding duplicates_after Pairwise Fresh
  Pairwise-nothing seen [] all pairs = refl
  Pairwise-nothing seen (v ∷ values) (fresh, all) (differ, pairs) =
      rw (fresh, duplicates_after)
        (Pairwise-nothing (seen ++ (normalize v.value, v) ∷ []) values
          ((All-both seen v values).1 (all, differ)) pairs)

  -- The check of duplicates reports nothing exactly where no two values are equal once they are
  -- normalized.
  pub no_duplicate_iff :
      (values : List LocatedValue)
      → (duplicate_diagnostics origins code display normalize values ≡ [])
        ↔ Pairwise (λ v w. normalize v.value ≢ normalize w.value) values
  unfolding duplicate_diagnostics Differ Fresh lookup
  no_duplicate_iff values = (
    λ e. (nothing-Pairwise [] values e).1,
    λ h. Pairwise-nothing [] values (nothing_seen values) h,
  )
    where
      nothing_seen : (values : List LocatedValue) → All (Fresh []) values
      nothing_seen [] = tt
      nothing_seen (v ∷ values) = (refl, nothing_seen values)
