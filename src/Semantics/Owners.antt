-- ===== src/Semantics/Owners.antt =====
-- The owners of packages,
-- src/comfyui_docker_helper/config/authored/validation/semantics.py.
use comfyui_docker_helper.Prelude.{
  String, Bool, ◌&&◌, ◌||◌, List, [], ◌∷◌, ◌++◌, take, Option, none, some, if◌then◌else◌, is_some,
}
use comfyui_docker_helper.Merge.{Part, name, Origin, same_path}
use comfyui_docker_helper.Semantics.{
  error, Diagnostic, NormalizedRequirement, lookup, is_member, comparison,
}

-- exact_ledger.py: `CUDA_PROTECTED_REQUIREMENTS`
abbrev pub cuda_protected_requirements : List String
cuda_protected_requirements = "torch" ∷ "torchaudio" ∷ "torchvision" ∷ []

abbrev pub plain_error : List Part → String → Diagnostic
plain_error path code = record { path = path; code = code; severity = error; source_context = none }

-- `requirement.path[:2] == (section, key)`
unfoldable pub is_under : String → String → NormalizedRequirement → Bool
is_under section key r = same_path (take 2 r.path) (name section ∷ name key ∷ [])

unfoldable pub application_owners : List String
application_owners = "torch" ∷ "pip" ∷ "setuptools" ∷ "comfyui-docker-helper" ∷ "comfy-cli" ∷ []

unfoldable pub tool_owners : List String
tool_owners = "comfyui-docker-helper" ∷ "comfy-cli" ∷ []

-- Whether `reserved` is not none: by the reserved names of the extra packages, or by the owners.
unfoldable pub is_reserved : NormalizedRequirement → Bool
is_reserved r =
    (is_under "python" "extra_packages" r && is_member r.name cuda_protected_requirements)
    || is_member r.name (if is_under "python" "uv_tools" r then tool_owners else application_owners)

unfoldable pub is_protected_conflict : NormalizedRequirement → Bool
is_protected_conflict r =
    is_under "pytorch" "extra_packages" r
    && is_member r.name cuda_protected_requirements
    && is_some r.direct_reference

module _ (origins : Option Origin) where
  -- `_package_owner_diagnostics`, from the authored owners of the application and of the tools on.
  unfoldable pub owners_after :
      List (String × NormalizedRequirement)
      → List (String × NormalizedRequirement)
      → List NormalizedRequirement
      → List Diagnostic
  owners_after application tools [] = []
  owners_after application tools (r ∷ requirements) =
      let tool = is_under "python" "uv_tools" r in
      let rest = owners_after application tools requirements in
      let owned =
        owners_after (if tool then application else application ++ (r.name, r) ∷ [])
          (if tool then tools ++ (r.name, r) ∷ [] else tools) requirements in
      if is_protected_conflict r
      then plain_error r.path "pytorch.protected_requirement_conflict" ∷ rest
      else if is_reserved r
      then plain_error r.path "python.duplicate_package_owner" ∷ rest
      else elim (lookup r.name (if tool then tools else application)) [
        | some existing ↦
            record {
              path = r.path;
              code = "python.conflicting_package_requirement";
              severity = error;
              source_context =
                  comparison existing.path r.path origins (some existing.value) (some r.value);
            }
            ∷ rest
        | none ↦ owned
      ]

  unfoldable pub package_owner_diagnostics : List NormalizedRequirement → List Diagnostic
  package_owner_diagnostics requirements = owners_after [] [] requirements
