-- ===== src/Semantics/Overlaps.antt =====
-- When the check of overlapping file targets has nothing to say
-- (src/comfyui_docker_helper/config/authored/validation/semantics.py).
use comfyui_docker_helper.Prelude.{
  String, false, List, [], ◌∷◌, ◌++◌, Option, none, arith, ◌≡◌, ◌↔◌, refl, Option-cases, inl, inr,
  All,
}
use comfyui_docker_helper.Merge.{Origin}
use comfyui_docker_helper.Semantics.{LocatedValue}
use comfyui_docker_helper.Semantics.Routes.{relative_file_targets_overlap}
use comfyui_docker_helper.Semantics.Duplicates.{Pairwise}
use comfyui_docker_helper.Semantics.Checks.{
  first_overlap, overlaps_after, file_target_overlap_diagnostics,
}

module _ (origins : Option Origin) (parts : String → List String) where
  Apart : LocatedValue → LocatedValue → Type 0
  Apart v w = relative_file_targets_overlap (parts v.value) (parts w.value) ≡ false

  first_overlap_iff :
      (v : LocatedValue)
      → (established : List LocatedValue)
      → (first_overlap origins parts v established ≡ none) ↔ All (λ w. Apart w v) established
  unfolding first_overlap Apart
  first_overlap_iff v [] = (λ e. tt, λ h. refl)
  first_overlap_iff v (w ∷ established) = ground (arith, first_overlap_iff v established)

  All-snoc :
      (v w : LocatedValue)
      → (established : List LocatedValue)
      → All (λ u. Apart u w) (established ++ v ∷ [])
        ↔ (All (λ u. Apart u w) established × Apart v w)
  All-snoc v w [] = (λ (h, t). (tt, h), λ (t, h). (h, tt))
  All-snoc v w (u ∷ established) =
      let (to, from) = All-snoc v w established in
      (λ (h, hs). ((h, (to hs).0), (to hs).1), λ ((h, hs), a). (h, from (hs, a)))

  -- Each of the values is apart from all the established ones.
  AllApart : List LocatedValue → List LocatedValue → Type 0
  AllApart established values = All (λ w. All (λ u. Apart u w) established) values

  AllApart-snoc :
      (v : LocatedValue)
      → (established values : List LocatedValue)
      → AllApart (established ++ v ∷ []) values
        ↔ (AllApart established values × All (Apart v) values)
  unfolding AllApart
  AllApart-snoc v established [] = (λ h. (tt, tt), λ h. tt)
  AllApart-snoc v established (w ∷ values) =
      let (to, from) = All-snoc v w established in
      let (tos, froms) = AllApart-snoc v established values in
      (
        λ (h, hs). (((to h).0, (tos hs).0), ((to h).1, (tos hs).1)),
        λ ((h, hs), (d, ds)). (from (h, d), froms (hs, ds)),
      )

  no_overlap-Pairwise :
      (established values : List LocatedValue)
      → overlaps_after origins parts established values ≡ []
      → AllApart established values × Pairwise Apart values
  unfolding overlaps_after Pairwise AllApart
  no_overlap-Pairwise established [] e = (tt, tt)
  no_overlap-Pairwise established (v ∷ values) e =
      elim (Option-cases (first_overlap origins parts v established)) [
        | inr (earlier, found) ↦ ground (arith, found, e)
        | inl apart ↦
            let (all, pairs) =
              no_overlap-Pairwise (established ++ v ∷ []) values (ground (arith, apart, e)) in
            let (rest, differ) = (AllApart-snoc v established values).0 all in
            (((first_overlap_iff v established).0 apart, rest), (differ, pairs))
      ]

  Pairwise-no_overlap :
      (established values : List LocatedValue)
      → AllApart established values
      → Pairwise Apart values
      → overlaps_after origins parts established values ≡ []
  unfolding overlaps_after Pairwise AllApart
  Pairwise-no_overlap established [] all pairs = refl
  Pairwise-no_overlap established (v ∷ values) (apart, all) (differ, pairs) =
      rw ((first_overlap_iff v established).1 apart, overlaps_after)
        (Pairwise-no_overlap (established ++ v ∷ []) values
          ((AllApart-snoc v established values).1 (all, differ)) pairs)

  nothing_established : (values : List LocatedValue) → AllApart [] values
  unfolding AllApart
  nothing_established [] = tt
  nothing_established (v ∷ values) = (tt, nothing_established values)

  -- The check of file targets reports nothing exactly where no target is equal to, contains or lies
  -- in an earlier one.
  pub no_overlap_iff :
      (values : List LocatedValue)
      → (file_target_overlap_diagnostics origins parts values ≡ [])
        ↔ Pairwise
            (λ v w. relative_file_targets_overlap (parts v.value) (parts w.value) ≡ false)
            values
  unfolding file_target_overlap_diagnostics Apart
  no_overlap_iff values = (
    λ e. (no_overlap-Pairwise [] values e).1,
    λ h. Pairwise-no_overlap [] values (nothing_established values) h,
  )
