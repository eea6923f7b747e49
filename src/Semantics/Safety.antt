-- ===== src/Semantics/Safety.antt =====
-- When the check of authenticated downloads has nothing to say
-- (src/comfyui_docker_helper/config/authored/validation/semantics.py).
use text.Mathlib.Text.{◌==◌}
use text.Mathlib.TextEquality.{eq_iff}
use comfyui_docker_helper.Prelude.{
  ℕ, suc, String, Bool, true, false, not, ◌&&◌, List, [], ◌∷◌, get_elem?, Option, none, some,
  is_some, arith, ◌≡◌, ◌⊎◌, ◌↔◌, refl, Option-cases, Bool-cases, inl, inr, All, subst, sym,
}
use comfyui_docker_helper.Semantics.{Diagnostic}
use comfyui_docker_helper.Semantics.Routes.{
  DownloaderCredentialContext, select_from, select_downloader_credential_context,
}
use comfyui_docker_helper.Semantics.Matching.{Covers, selected_iff}
use comfyui_docker_helper.Semantics.Credentials.{route-ReadFrom, ReadFrom-route}
use comfyui_docker_helper.Semantics.Config.{
  FinalConfig, Texts, parsed_routes, uses_httpx, is_unsafe_download, unsafe_downloads,
  authenticated_downloader_diagnostics,
}

-- The downloader of a file, by its own name or, without one, by the default, is httpx.
abbrev pub UsesHttpx : Option String → String → Type 0
UsesHttpx none default = default ≡ "httpx"
UsesHttpx (some downloader) default =
    ((downloader ≡ "") × (default ≡ "httpx")) ⊎ (downloader ≡ "httpx")

module _ (texts : Texts) where
  uses_httpx_iff :
      (downloader : Option String) (default : String)
      → (uses_httpx texts downloader default ≡ true) ↔ UsesHttpx downloader default
  unfolding uses_httpx
  uses_httpx_iff none default = eq_iff default "httpx"
  uses_httpx_iff (some downloader) default = elim (Bool-cases (downloader == "")) [
    | inl nameless ↦
        let empty : downloader ≡ "" = (eq_iff downloader "").0 nameless in
        let (to, from) = eq_iff default "httpx" in
        rw nameless (
          λ e. inl (empty, to e),
          λ h. elim h [ inl (_, http) ↦ from http | inr http ↦ absurd (never empty http) ],
        )
    | inr named ↦
        let (to, from) = eq_iff downloader "httpx" in
        rw named (
          λ e. inr (to e),
          λ h. elim h [
            | inl (empty, _) ↦ absurd (cc ((eq_iff downloader "").1 empty, named))
            | inr http ↦ from http
          ],
        )
  ]
    where
      never : downloader ≡ "" → downloader ≡ "httpx" → ⊥
      never empty http = cc (empty, http)

  -- A credential of the configuration, read as a route, covers the request.
  abbrev pub Authenticated : FinalConfig → DownloaderCredentialContext → Type 0
  Authenticated config request =
      (i : ℕ) × (pattern secret : String) × (route : DownloaderCredentialContext) × (get_elem?
          config.downloader_credentials i
        ≡ some (pattern, secret))
      × (texts.parse_context pattern ≡ some route)
      × Covers route request

  -- A file that is downloaded with a credential is downloaded by httpx.
  abbrev pub Protected : FinalConfig → Option (String × Option String) → Type 0
  Protected config none = Unit
  Protected config (some (source, downloader)) =
      (request : DownloaderCredentialContext)
      → texts.parse_request source ≡ some request
      → Authenticated config request
      → UsesHttpx downloader config.default_downloader

  guard_iff :
      {A B : Type 0} (selected http : Bool)
      → (selected ≡ true) ↔ A
      → (http ≡ true) ↔ B
      → ((selected && not http) ≡ false) ↔ (A → B)
  guard_iff true true (f, g) (h, k) = (λ e a. h refl, λ i. refl)
  guard_iff true false (f, g) (h, k) = (λ e. absurd (cc e), λ i. absurd (cc (k (i (f refl)))))
  guard_iff false http (f, g) (h, k) = (λ e a. absurd (cc (g a)), λ i. refl)

  Authenticated-iff :
      (config : FinalConfig) (request : DownloaderCredentialContext)
      → (is_some (
            select_downloader_credential_context
              (parsed_routes texts config.downloader_credentials)
              request)
          ≡ true)
        ↔ Authenticated config request
  Authenticated-iff config request =
      let pairs = config.downloader_credentials in
      let (to, from) = selected_iff (parsed_routes texts pairs) request in
      (
        λ e.
            let (i, route, at, covers) = to e in
            let (k, pattern, secret, found, parsed) = route-ReadFrom texts pairs i route at in
            (k, pattern, secret, route, found, parsed, covers),
        λ (k, pattern, secret, route, found, parsed, covers).
            let (i, at) = ReadFrom-route texts pairs k pattern secret route found parsed in
            from (i, route, at, covers),
      )

  file_iff :
      (config : FinalConfig) (file : Option (String × Option String))
      → (is_unsafe_download texts
            (parsed_routes texts config.downloader_credentials)
            config.default_downloader
            file
          ≡ false)
        ↔ Protected config file
  unfolding is_unsafe_download
  file_iff config none = (λ e. tt, λ h. refl)
  file_iff config (some (source, downloader)) = elim (Option-cases (texts.parse_request source)) [
    | inl unread ↦
        rw (unread, is_unsafe_download) (λ e request parsed. absurd (cc parsed), λ h. refl)
    | inr (request, read) ↦
        let (to, from) =
          guard_iff _ _ (Authenticated-iff config request)
            (uses_httpx_iff downloader config.default_downloader) in
        rw (read, is_unsafe_download)
          (
            λ e other parsed known.
                let same : request ≡ other = cc parsed in
                to e (subst (λ r. Authenticated config r) (sym same) known),
            λ h. from (h request refl),
          )
  ]

  unsafe_downloads_iff :
      (routes : List DownloaderCredentialContext)
      → (default : String) → (i : ℕ) → (files : List (Option (String × Option String)))
      → (unsafe_downloads texts routes default i files ≡ [])
        ↔ All (λ file. is_unsafe_download texts routes default file ≡ false) files
  unfolding unsafe_downloads
  unsafe_downloads_iff routes default i [] = (λ e. tt, λ h. refl)
  unsafe_downloads_iff routes default i (file ∷ files) =
      ground (arith, unsafe_downloads_iff routes default (suc i) files)

  -- Without routes no download is authenticated.
  no_route-safe :
      (default : String)
      → (file : Option (String × Option String)) → is_unsafe_download texts [] default file ≡ false
  unfolding is_unsafe_download select_downloader_credential_context select_from
  no_route-safe default none = refl
  no_route-safe default (some (source, downloader)) =
      elim (Option-cases (texts.parse_request source)) [
        | inl e ↦ rw (e, is_unsafe_download) refl
        | inr (request, e) ↦ rw (e, is_unsafe_download) refl
      ]

  no_route-All :
      (default : String)
      → (files : List (Option (String × Option String)))
      → All (λ file. is_unsafe_download texts [] default file ≡ false) files
  no_route-All default [] = tt
  no_route-All default (file ∷ files) = (no_route-safe default file, no_route-All default files)

  All-iff :
      (config : FinalConfig) (files : List (Option (String × Option String)))
      → All
          (λ file.
            is_unsafe_download texts
              (parsed_routes texts config.downloader_credentials)
              config.default_downloader
              file
            ≡ false)
          files
        ↔ All (Protected config) files
  All-iff config [] = (λ h. tt, λ h. tt)
  All-iff config (file ∷ files) =
      let (to, from) = file_iff config file in
      let (tos, froms) = All-iff config files in
      (λ (h, hs). (to h, tos hs), λ (h, hs). (from h, froms hs))

  by_routes :
      (config : FinalConfig) (routes : List DownloaderCredentialContext)
      → ((elim routes as (λ _. List Diagnostic) [
        | [] ↦ []
        | route ∷ more ↦
            unsafe_downloads texts (route ∷ more) config.default_downloader 0 config.files
      ])
          ≡ [])
        ↔ All
            (λ file. is_unsafe_download texts routes config.default_downloader file ≡ false)
            config.files
  by_routes config [] = (λ e. no_route-All config.default_downloader config.files, λ h. refl)
  by_routes config (route ∷ more) =
      unsafe_downloads_iff (route ∷ more) config.default_downloader 0 config.files

  -- The check of authenticated downloads reports nothing exactly where each HTTP file whose source lies
  -- below the pattern of a configured credential, with its scheme, host and port, is downloaded by httpx,
  -- which its own downloader names or, if it names none, the default.
  pub no_unsafe_download_iff :
      (config : FinalConfig)
      → (authenticated_downloader_diagnostics texts config ≡ [])
        ↔ All (Protected config) config.files
  unfolding authenticated_downloader_diagnostics
  no_unsafe_download_iff config =
      let (to, from) = by_routes config (parsed_routes texts config.downloader_credentials) in
      let (tos, froms) = All-iff config config.files in (λ e. tos (to e), λ h. from (froms h))
