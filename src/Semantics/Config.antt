-- ===== src/Semantics/Config.antt =====
-- Secret references, authenticated downloads and the whole validation,
-- src/comfyui_docker_helper/config/authored/validation/semantics.py.
use text.Mathlib.Text.{◌==◌}
use comfyui_docker_helper.Prelude.{
  ℕ, suc, String, Bool, true, false, not, ◌&&◌, List, [], ◌∷◌, ◌++◌, map, Option, none, some,
  if◌then◌else◌, is_some,
}
use comfyui_docker_helper.Merge.{Part, name, index, Origin}
use comfyui_docker_helper.Semantics.{Diagnostic, LocatedValue, NormalizedRequirement, is_member}
use comfyui_docker_helper.Semantics.Routes.{
  DownloaderCredentialContext, select_downloader_credential_context,
}
use comfyui_docker_helper.Semantics.Checks.{
  duplicate_diagnostics, file_target_overlap_diagnostics, apt_package_diagnostics,
  registry_distribution_identity_diagnostics,
}
use comfyui_docker_helper.Semantics.Owners.{plain_error, package_owner_diagnostics}

-- What the checks read of the configuration: the credentials, by their `match` and the name of
-- their secret; the names of the secrets; the files, `none` where a file is not an HTTP file, else
-- its source and its downloader.
pub record FinalConfig : Type 0 where
  pub git_secrets : List String
  pub downloader_credentials : List (String × String)
  pub secrets : List String
  pub files : List (Option (String × Option String))
  pub default_downloader : String
  pub install_manager : Bool

-- `FinalConfigDomainResult`, with what the semantic pass reads.
pub record FinalConfigDomainResult : Type 0 where
  pub platforms : List LocatedValue
  pub package_requirements : List NormalizedRequirement
  pub authored_apt_packages : List LocatedValue
  pub registry_ids : List LocatedValue
  pub registry_nodes : List (List Part)
  pub git_urls : List LocatedValue
  pub node_targets : List LocatedValue
  pub file_targets : List LocatedValue
  pub controlled_extra_args : List LocatedValue
  pub git_credential_contexts : List LocatedValue
  pub downloader_credential_contexts : List LocatedValue
  pub workspace : Option String
  pub comfyui_path : Option String

-- What the checks take from regular expressions, from `packaging`, from `httpx` and from `pathlib`.
pub record Texts : Type 0 where
  pub is_secret_name : String → Bool
  pub registry_resource_identity : String → String
  pub registry_distribution_identity : String → String
  pub parse_context : String → Option DownloaderCredentialContext
  pub parse_request : String → Option DownloaderCredentialContext
  pub parts : String → List String

module _ (texts : Texts) where
  -- The unknown secrets of one list of credentials, from index `i` on.
  unfoldable pub unknown_secrets :
      List Part → String → ℕ → List String → List String → List Diagnostic
  unknown_secrets route field i [] secrets = []
  unknown_secrets route field i (secret ∷ names) secrets =
      let rest = unknown_secrets route field (suc i) names secrets in
      if texts.is_secret_name secret && not (is_member secret secrets)
      then plain_error (route ++ index i ∷ name field ∷ name "secret" ∷ [])
          "secret.unknown_reference"
        ∷ rest
      else rest

  -- `_secret_reference_diagnostics`
  unfoldable pub secret_reference_diagnostics : FinalConfig → List Diagnostic
  secret_reference_diagnostics config =
      unknown_secrets (name "cdh" ∷ name "git" ∷ name "credentials" ∷ []) "password" 0
        config.git_secrets config.secrets
      ++ unknown_secrets (name "cdh" ∷ name "downloader" ∷ name "credentials" ∷ []) "token" 0
          (map (λ route. route.1) config.downloader_credentials) config.secrets

  -- The routes that parse.
  unfoldable pub parsed_routes : List (String × String) → List DownloaderCredentialContext
  parsed_routes [] = []
  parsed_routes ((pattern, secret) ∷ routes) = elim (texts.parse_context pattern) [
    | none ↦ parsed_routes routes
    | some context ↦ context ∷ parsed_routes routes
  ]

  -- `(item.downloader or config.cdh.default_downloader) != "httpx"`; an empty name is no name.
  unfoldable pub uses_httpx : Option String → String → Bool
  uses_httpx none default = default == "httpx"
  uses_httpx (some downloader) default =
      if downloader == "" then default == "httpx" else downloader == "httpx"

  -- Whether a file is downloaded with a credential that its downloader cannot constrain.
  unfoldable pub is_unsafe_download :
      List DownloaderCredentialContext → String → Option (String × Option String) → Bool
  is_unsafe_download routes default none = false
  is_unsafe_download routes default (some (source, downloader)) =
      elim (texts.parse_request source) [
        | none ↦ false
        | some request ↦
            is_some (select_downloader_credential_context routes request)
            && not (uses_httpx downloader default)
      ]

  unfoldable pub unsafe_downloads :
      List DownloaderCredentialContext
      → String
      → ℕ
      → List (Option (String × Option String))
      → List Diagnostic
  unsafe_downloads routes default i [] = []
  unsafe_downloads routes default i (file ∷ files) =
      let rest = unsafe_downloads routes default (suc i) files in
      if is_unsafe_download routes default file
      then plain_error (name "files" ∷ index i ∷ name "downloader" ∷ [])
          "file.authenticated_downloader_requires_httpx"
        ∷ rest
      else rest

  -- `_authenticated_downloader_diagnostics`
  unfoldable pub authenticated_downloader_diagnostics : FinalConfig → List Diagnostic
  authenticated_downloader_diagnostics config = elim (parsed_routes config.downloader_credentials) [
    | [] ↦ []
    | route ∷ routes ↦ unsafe_downloads (route ∷ routes) config.default_downloader 0 config.files
  ]

  -- `domains.workspace is not None and domains.comfyui_path == domains.workspace`
  unfoldable pub same_directory : Option String → Option String → Bool
  same_directory (some workspace) (some path) = path == workspace
  same_directory workspace path = false

  -- `validate_final_config_semantics`
  unfoldable pub validate_final_config_semantics :
      FinalConfig → FinalConfigDomainResult → Option Origin → List Diagnostic
  validate_final_config_semantics config domains origins =
      duplicate_diagnostics origins "build.duplicate_platform" true (λ s. s) domains.platforms
      ++ (package_owner_diagnostics origins domains.package_requirements
          ++ (apt_package_diagnostics origins domains.authored_apt_packages
              ++ (duplicate_diagnostics origins "custom_node.duplicate_registry_id" true
                    texts.registry_resource_identity domains.registry_ids
                  ++ (registry_distribution_identity_diagnostics origins
                        texts.registry_distribution_identity texts.registry_resource_identity
                        domains.registry_ids
                      ++ (duplicate_diagnostics origins "custom_node.duplicate_git_url" false
                            (λ s. s) domains.git_urls
                          ++ (duplicate_diagnostics origins "git_credential.duplicate_match" false
                                (λ s. s) domains.git_credential_contexts
                              ++ (duplicate_diagnostics origins
                                    "downloader_credential.duplicate_match" false (λ s. s)
                                    domains.downloader_credential_contexts
                                  ++ (secret_reference_diagnostics config
                                      ++ (authenticated_downloader_diagnostics config
                                          ++ (duplicate_diagnostics origins
                                                "custom_node.duplicate_git_target_dir" false
                                                (λ s. s) domains.node_targets
                                              ++ (file_target_overlap_diagnostics origins
                                                    texts.parts domains.file_targets
                                                  ++ ((if same_directory domains.workspace
                                                          domains.comfyui_path
                                                        then plain_error
                                                            (name "system"
                                                            ∷ name "comfyui_path"
                                                            ∷ [])
                                                            "system.comfyui_path_equals_workspace"
                                                          ∷ []
                                                        else [])
                                                      ++ ((if config.install_manager
                                                            then []
                                                            else map
                                                            (λ path.
                                                            plain_error path
                                                            "custom_node.manager_required")
                                                            domains.registry_nodes)
                                                          ++ map
                                                            (λ v.
                                                            plain_error v.path
                                                            "comfyui.controlled_extra_arg")
                                                            domains.controlled_extra_args)))))))))))))
