-- ===== src/Semantics.antt =====
-- src/comfyui_docker_helper/config/authored/validation/semantics.py: the semantic validation of an
-- authored configuration. A diagnostic is known by its code: its message and hint are left out.
pub mod Routes
pub mod Checks
pub mod Owners
pub mod Config
pub mod Duplicates
pub mod Overlaps
pub mod Selection
pub mod Matching
pub mod Credentials
pub mod Safety
pub mod Ownership
pub mod Separation
mod Examples
use text.Mathlib.Text.{◌==◌}
use comfyui_docker_helper.Prelude.{
  ℕ, String, Bool, true, false, List, [], ◌∷◌, Option, none, some, if◌then◌else◌, ◌||◌,
}
use comfyui_docker_helper.Merge.{Part, SourceLocation, Origin, exact_location}

-- config/diagnostics.py
pub data DiagnosticSeverity : Type 0 where
  error warning : DiagnosticSeverity

pub record DiagnosticComparisonSite : Type 0 where
  pub location : SourceLocation
  pub display_value : Option String

pub record DiagnosticComparison : Type 0 where
  pub earlier : DiagnosticComparisonSite
  pub later : DiagnosticComparisonSite

pub record Diagnostic : Type 0 where
  pub path : List Part
  pub code : String
  pub severity : DiagnosticSeverity
  pub source_context : Option DiagnosticComparison

-- config/authored/validation/result.py
pub record LocatedValue : Type 0 where
  pub path : List Part
  pub value : String

pub record NormalizedRequirement : Type 0 where
  pub path : List Part
  pub value : String
  pub name : String
  pub direct_reference : Option String

-- A dictionary with text as keys: a key is put where it is not yet there.
unfoldable pub lookup {ℓ} : {A : Type ℓ} → String → List (String × A) → Option A
lookup key [] = none
lookup key ((k, a) ∷ rest) = if k == key then some a else lookup key rest

unfoldable pub is_member : String → List String → Bool
is_member key [] = false
is_member key (k ∷ rest) = (k == key) || is_member key rest

-- `_comparison`
unfoldable pub comparison :
    List Part
    → List Part
    → Option Origin
    → Option String
    → Option String
    → Option DiagnosticComparison
comparison earlier_path later_path none earlier_value later_value = none
comparison earlier_path later_path (some origins) earlier_value later_value =
    elim (exact_location origins earlier_path) [
      | none ↦ none
      | some at ↦ elim (exact_location origins later_path) [
        | none ↦ none
        | some other ↦ some (record {
          earlier = record { location = at; display_value = earlier_value };
          later = record { location = other; display_value = later_value };
        })
      ]
    ]
