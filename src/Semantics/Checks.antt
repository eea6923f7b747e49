-- ===== src/Semantics/Checks.antt =====
-- The checks of src/comfyui_docker_helper/config/authored/validation/semantics.py. Each returns the
-- diagnostics that it appends.
use text.Mathlib.Text.{◌==◌}
use comfyui_docker_helper.Prelude as P
use comfyui_docker_helper.Prelude.{
  ℕ, zero, suc, String, Bool, true, false, not, ◌&&◌, ◌||◌, List, [], ◌∷◌, ◌++◌, take, Option, none,
  some, if◌then◌else◌, is_some,
}
use comfyui_docker_helper.Merge.{Origin}
use comfyui_docker_helper.Semantics.{
  error, warning, Diagnostic, LocatedValue, lookup, is_member, comparison,
}
use comfyui_docker_helper.Semantics.Routes.{relative_file_targets_overlap}

abbrev shown : Bool → String → Option String
shown display value = if display then some value else none

module _ (origins : Option Origin) where
  -- The diagnostic of a duplicate.
  abbrev pub duplicate : String → Bool → LocatedValue → LocatedValue → Diagnostic
  duplicate code display established later = record {
    path = later.path;
    code = code;
    severity = error;
    source_context =
        comparison established.path later.path origins (shown display established.value)
          (shown display later.value);
  }

  -- `_duplicate_diagnostics`, from `seen` on.
  unfoldable pub duplicates_after :
      String
      → Bool
      → (String → String)
      → List (String × LocatedValue)
      → List LocatedValue
      → List Diagnostic
  duplicates_after code display normalize seen [] = []
  duplicates_after code display normalize seen (v ∷ values) =
      elim (lookup (normalize v.value) seen) [
        | some established ↦
            duplicate code display established v
            ∷ duplicates_after code display normalize seen values
        | none ↦
            duplicates_after code display normalize (seen ++ (normalize v.value, v) ∷ []) values
      ]

  unfoldable pub duplicate_diagnostics :
      String → Bool → (String → String) → List LocatedValue → List Diagnostic
  duplicate_diagnostics code display normalize values =
      duplicates_after code display normalize [] values

  -- The first established target that overlaps; `parts` is `PurePosixPath(...).parts`, empty at `.`.
  unfoldable pub first_overlap :
      (String → List String) → LocatedValue → List LocatedValue → Option LocatedValue
  first_overlap parts v [] = none
  first_overlap parts v (earlier ∷ established) =
      if relative_file_targets_overlap (parts earlier.value) (parts v.value)
      then some earlier
      else first_overlap parts v established

  -- `_file_target_overlap_diagnostics`, from `established` on.
  unfoldable pub overlaps_after :
      (String → List String) → List LocatedValue → List LocatedValue → List Diagnostic
  overlaps_after parts established [] = []
  overlaps_after parts established (v ∷ values) =
      let rest = overlaps_after parts (established ++ v ∷ []) values in
      elim (first_overlap parts v established) [
        | none ↦ rest
        | some earlier ↦ duplicate "file.overlapping_target" false earlier v ∷ rest
      ]

  unfoldable pub file_target_overlap_diagnostics :
      (String → List String) → List LocatedValue → List Diagnostic
  file_target_overlap_diagnostics parts values = overlaps_after parts [] values

  -- os_packages.py: `DEFAULT_OS_PACKAGES`
  abbrev pub default_os_packages : List String
  default_os_packages =
      "bash" ∷ "ca-certificates" ∷ "curl" ∷ "git" ∷ "build-essential" ∷ "aria2" ∷ "openssh-server"
      ∷ "tini" ∷ "tzdata" ∷ []

  unfoldable pub count_value : String → List LocatedValue → ℕ
  count_value value [] = 0
  count_value value (v ∷ values) =
      if v.value == value then suc (count_value value values) else count_value value values

  -- `_apt_package_diagnostics`, from `established` on; `all` are all the packages.
  unfoldable pub apt_after :
      List LocatedValue → List (String × LocatedValue) → List LocatedValue → List Diagnostic
  apt_after all established [] = []
  apt_after all established (v ∷ values) = elim (lookup v.value established) [
    | some earlier ↦
        duplicate "system.duplicate_apt_package" true earlier v ∷ apt_after all established values
    | none ↦
        (let rest = apt_after all (established ++ (v.value, v) ∷ []) values in
          if P.◌==◌ (count_value v.value all) 1 && is_member v.value default_os_packages
          then record {
            path = v.path;
            code = "system.redundant_default_apt_package";
            severity = warning;
            source_context = none;
          }
            ∷ rest
          else rest)
  ]

  unfoldable pub apt_package_diagnostics : List LocatedValue → List Diagnostic
  apt_package_diagnostics values = apt_after values [] values

  -- `_registry_distribution_identity_diagnostics`, from `established` on.
  unfoldable pub distributions_after :
      (String → String)
      → (String → String)
      → List (String × LocatedValue)
      → List LocatedValue
      → List Diagnostic
  distributions_after distribution resource established [] = []
  distributions_after distribution resource established (v ∷ values) =
      elim (lookup (distribution v.value) established) [
        | none ↦
            distributions_after distribution resource
              (established ++ (distribution v.value, v) ∷ []) values
        | some earlier ↦
            (let rest = distributions_after distribution resource established values in
              if resource earlier.value == resource v.value
              then rest
              else duplicate "custom_node.registry_distribution_identity_collision" true earlier v
                ∷ rest)
      ]

  unfoldable pub registry_distribution_identity_diagnostics :
      (String → String) → (String → String) → List LocatedValue → List Diagnostic
  registry_distribution_identity_diagnostics distribution resource values =
      distributions_after distribution resource [] values
