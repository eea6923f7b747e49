-- ===== src/Semantics/Examples.antt =====
-- Tests and witnesses of the semantic validation
-- (src/comfyui_docker_helper/config/authored/validation/semantics.py).
use comfyui_docker_helper.Prelude.{
  String, true, false, List, [], ◌∷◌, none, some, ◌≡◌, ◌≢◌, ◌↔◌, refl, All,
}
use comfyui_docker_helper.Merge.{name, index, same_path, same_part}
use comfyui_docker_helper.Semantics.{LocatedValue, NormalizedRequirement, lookup, is_member}
use comfyui_docker_helper.Semantics.Routes.{
  DownloaderCredentialContext, relative_file_targets_overlap, select_downloader_credential_context,
  select_from, route_matches, same_texts, is_deeper,
}
use comfyui_docker_helper.Semantics.Checks.{duplicate_diagnostics, file_target_overlap_diagnostics}
use comfyui_docker_helper.Semantics.Owners.{
  package_owner_diagnostics, owners_after, is_reserved, is_protected_conflict, is_under,
  application_owners, tool_owners,
}
use comfyui_docker_helper.Semantics.Config.{
  FinalConfig, Texts, authenticated_downloader_diagnostics,
}
use comfyui_docker_helper.Semantics.Duplicates.{Pairwise, no_duplicate_iff}
use comfyui_docker_helper.Semantics.Overlaps.{no_overlap_iff}
use comfyui_docker_helper.Semantics.Selection.{IsBest, select-IsBest}
use comfyui_docker_helper.Semantics.Safety.{Protected, no_unsafe_download_iff}
use comfyui_docker_helper.Semantics.Ownership.{Unowned}
use comfyui_docker_helper.Semantics.Separation.{AllApart, owners_iff}

abbrev located : String → LocatedValue
located value = record { path = name "files" ∷ index 0 ∷ []; value = value }

abbrev targets : List LocatedValue
targets = located "models" ∷ located "custom" ∷ []

abbrev one_part : String → List String
one_part value = value ∷ []

abbrev any_path : DownloaderCredentialContext
any_path = record { scheme = "https"; host = "example.org"; port = 443; path_segments = [] }

abbrev team_path : DownloaderCredentialContext
team_path = record {
  scheme = "https";
  host = "example.org";
  port = 443;
  path_segments = "team" ∷ [];
}

abbrev team_file : DownloaderCredentialContext
team_file = record {
  scheme = "https";
  host = "example.org";
  port = 443;
  path_segments = "team" ∷ "model" ∷ [];
}

abbrev texts : Texts
texts = record {
  is_secret_name = λ s. true;
  registry_resource_identity = λ s. s;
  registry_distribution_identity = λ s. s;
  parse_context = λ s. some team_path;
  parse_request = λ s. some team_file;
  parts = one_part;
}

abbrev config : FinalConfig
config = record {
  git_secrets = [];
  downloader_credentials = ("https://example.org/team", "token") ∷ [];
  secrets = "token" ∷ [];
  files = some ("https://example.org/team/model", some "aria2") ∷ none ∷ [];
  default_downloader = "aria2";
  install_manager = true;
}

no_duplicate_iff_example :
    (duplicate_diagnostics none "custom_node.duplicate_git_url" false (λ s. s) targets ≡ [])
    ↔ Pairwise (λ v w. v.value ≢ w.value) targets
no_duplicate_iff_example =
    no_duplicate_iff none "custom_node.duplicate_git_url" false (λ s. s) targets

no_overlap_iff_example :
    (file_target_overlap_diagnostics none one_part targets ≡ [])
    ↔ Pairwise
        (λ v w. relative_file_targets_overlap (one_part v.value) (one_part w.value) ≡ false)
        targets
no_overlap_iff_example = no_overlap_iff none one_part targets

longest_route : select_downloader_credential_context (any_path ∷ team_path ∷ []) team_file ≡ some 1
unfolding select_downloader_credential_context select_from route_matches same_texts is_deeper
longest_route = refl

select-IsBest_example :
    IsBest
      (any_path ∷ team_path ∷ [])
      team_file
      (select_downloader_credential_context (any_path ∷ team_path ∷ []) team_file)
select-IsBest_example = select-IsBest (any_path ∷ team_path ∷ []) team_file

no_unsafe_download_iff_example :
    (authenticated_downloader_diagnostics texts config ≡ [])
    ↔ All (Protected texts config) config.files
no_unsafe_download_iff_example = no_unsafe_download_iff texts config

abbrev numpy : List NormalizedRequirement
numpy =
    record {
      path = name "python" ∷ name "extra_packages" ∷ index 0 ∷ [];
      value = "numpy==2";
      name = "numpy";
      direct_reference = none;
    }
    ∷ []

owners_iff_example :
    (package_owner_diagnostics none numpy ≡ []) ↔ (All Unowned numpy × AllApart numpy)
owners_iff_example = owners_iff none numpy

numpy_silent : package_owner_diagnostics none numpy ≡ []
unfolding package_owner_diagnostics owners_after is_reserved is_protected_conflict is_under
    is_member application_owners tool_owners lookup same_path same_part
numpy_silent = refl
