-- ===== src/Semantics/Credentials.antt =====
-- The routes that the configured credentials are read as
-- (src/comfyui_docker_helper/config/authored/validation/semantics.py).
use comfyui_docker_helper.Prelude.{
  ℕ, zero, suc, String, List, [], ◌∷◌, get_elem?, none, some, ◌≡◌, refl, Option-cases, inl, inr,
}
use comfyui_docker_helper.Semantics.Routes.{DownloaderCredentialContext}
use comfyui_docker_helper.Semantics.Config.{Texts, parsed_routes}

module _ (texts : Texts) where
  -- A route that one of the credentials is read as.
  abbrev pub ReadFrom : List (String × String) → DownloaderCredentialContext → Type 0
  ReadFrom pairs route =
      (k : ℕ) × (pattern secret : String) × (get_elem? pairs k ≡ some (pattern, secret))
      × (texts.parse_context pattern ≡ some route)

  first_or_later :
      (pattern secret : String) (pairs : List (String × String))
      (context route : DownloaderCredentialContext) (later : List DownloaderCredentialContext)
      (i : ℕ)
      → texts.parse_context pattern ≡ some context
      → ((j : ℕ) → get_elem? later j ≡ some route → ReadFrom pairs route)
      → get_elem? (context ∷ later) i ≡ some route
      → ReadFrom ((pattern, secret) ∷ pairs) route
  first_or_later pattern secret pairs context route later zero here rest at =
      let same : context ≡ route = cc at in (0, pattern, secret, refl, cc (here, same))
  first_or_later pattern secret pairs context route later (suc j) here rest at =
      let (k, p, q, found, parsed) = rest j at in (suc k, p, q, found, parsed)

  parsed-none :
      (pattern secret : String) (pairs : List (String × String))
      → texts.parse_context pattern ≡ none
      → parsed_routes texts ((pattern, secret) ∷ pairs) ≡ parsed_routes texts pairs
  unfolding parsed_routes
  parsed-none pattern secret pairs e = rw (e, parsed_routes) refl

  parsed-some :
      (pattern secret : String) (pairs : List (String × String))
      (route : DownloaderCredentialContext)
      → texts.parse_context pattern ≡ some route
      → parsed_routes texts ((pattern, secret) ∷ pairs) ≡ route ∷ parsed_routes texts pairs
  unfolding parsed_routes
  parsed-some pattern secret pairs route e = rw (e, parsed_routes) refl

  pub route-ReadFrom :
      (pairs : List (String × String)) (i : ℕ) (route : DownloaderCredentialContext)
      → get_elem? (parsed_routes texts pairs) i ≡ some route
      → ReadFrom pairs route
  unfolding parsed_routes
  route-ReadFrom [] i route at = absurd (cc at)
  route-ReadFrom ((pattern, secret) ∷ pairs) i route at =
      elim (Option-cases (texts.parse_context pattern)) [
        | inl unread ↦
            let (k, p, q, found, parsed) =
              route-ReadFrom pairs i route (cc (at, parsed-none pattern secret pairs unread)) in
            (suc k, p, q, found, parsed)
        | inr (context, here) ↦
            first_or_later pattern secret pairs context route (parsed_routes texts pairs) i here
              (λ j later. route-ReadFrom pairs j route later)
              (cc (at, parsed-some pattern secret pairs context here))
      ]

  pub ReadFrom-route :
      (pairs : List (String × String)) (k : ℕ) (pattern secret : String)
      → (route : DownloaderCredentialContext) → get_elem? pairs k ≡ some (pattern, secret)
      → texts.parse_context pattern ≡ some route
      → (i : ℕ) × (get_elem? (parsed_routes texts pairs) i ≡ some route)
  unfolding parsed_routes
  ReadFrom-route [] k pattern secret route at parsed = absurd (cc at)
  ReadFrom-route ((p, q) ∷ pairs) zero pattern secret route at parsed =
      let same : p ≡ pattern = cc at in
      let here : texts.parse_context p ≡ some route = cc (same, parsed) in
      (0, rw (parsed-some p q pairs route here) refl)
  ReadFrom-route ((p, q) ∷ pairs) (suc k) pattern secret route at parsed =
      let (i, found) = ReadFrom-route pairs k pattern secret route at parsed in
      elim (Option-cases (texts.parse_context p)) [
        | inl unread ↦ (i, rw (parsed-none p q pairs unread) found)
        | inr (context, here) ↦ (suc i, rw (parsed-some p q pairs context here) found)
      ]
