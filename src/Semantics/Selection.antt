-- ===== src/Semantics/Selection.antt =====
-- Which credential route a request selects
-- (src/comfyui_docker_helper/config/credentials/downloader.py).
use comfyui_docker_helper.Prelude.{
  ℕ, zero, suc, ◌+◌, ◌≤◌, ◌<◌, true, false, ◌&&◌, List, [], ◌∷◌, length, get_elem?, Option, none,
  some, if◌then◌else◌, arith, ◌≡◌, refl, sym, subst, Bool-cases, inl, inr,
}
use comfyui_docker_helper.Semantics.Routes.{
  DownloaderCredentialContext, route_matches, is_deeper, select_from,
  select_downloader_credential_context,
}

abbrev depth_of : DownloaderCredentialContext → ℕ
depth_of candidate = length candidate.path_segments

-- What is selected with its depth is a route that matches, and no route that matches, from index
-- `from` on, is deeper, nor as deep and earlier.
Selects : (List DownloaderCredentialContext) → DownloaderCredentialContext → Option (ℕ × ℕ) → Type 0
Selects all request none = Unit
Selects all request (some (i, depth)) =
    (candidate : DownloaderCredentialContext) × (get_elem? all i ≡ some candidate)
    × (route_matches candidate request ≡ true)
    × (depth_of candidate ≡ depth)

-- `candidate`, at index `j`, does not beat what is selected.
Yields : ℕ → ℕ → Option (ℕ × ℕ) → Type 0
Yields j depth none = ⊥
Yields j depth (some (i, selected)) = (depth ≤ selected) × ((j < i) → depth < selected)

-- The selection that goes on is no shallower and, if it is later, deeper.
Improves : Option (ℕ × ℕ) → Option (ℕ × ℕ) → Type 0
unfolding Yields
Improves none later = Unit
Improves (some (i, depth)) later = Yields i depth later

Improves-Yields :
    (j depth : ℕ)
    → (earlier later : Option (ℕ × ℕ)) → Yields j depth earlier
    → Improves earlier later
    → Yields j depth later
unfolding Yields Improves
Improves-Yields j depth none later h g = absurd h
Improves-Yields j depth (some (i, d)) none h g = absurd g
Improves-Yields j depth (some (i, d)) (some (k, e)) h g = ground (arith, h, g)

-- What is selected so far stands before `index`.
Before : ℕ → Option (ℕ × ℕ) → Type 0
Before index none = Unit
Before index (some (i, d)) = i < index

-- A route that is taken improves on what was selected before; one that is not leaves it.
take_route-Yields :
    (c request : DownloaderCredentialContext)
    → (index : ℕ) → (selected : Option (ℕ × ℕ)) → Before index selected
    → route_matches c request ≡ true
    → Yields index (depth_of c) (
        if route_matches c request && is_deeper (depth_of c) selected
        then some (index, depth_of c)
        else selected)
unfolding Yields is_deeper Before
take_route-Yields c request index none h matches = ground (arith, matches)
take_route-Yields c request index (some (i, d)) h matches = ground (arith, h, matches)

take_route-Improves :
    (c request : DownloaderCredentialContext)
    → (index : ℕ) → (selected : Option (ℕ × ℕ))
    → Improves selected (
        if route_matches c request && is_deeper (depth_of c) selected
        then some (index, depth_of c)
        else selected)
unfolding Yields Improves is_deeper
take_route-Improves c request index none = tt
take_route-Improves c request index (some (i, d)) = ground arith

take_route-Before :
    (c request : DownloaderCredentialContext)
    → (index : ℕ) → (selected : Option (ℕ × ℕ)) → Before index selected
    → Before (suc index) (
        if route_matches c request && is_deeper (depth_of c) selected
        then some (index, depth_of c)
        else selected)
unfolding Before is_deeper
take_route-Before c request index none h = ground arith
take_route-Before c request index (some (i, d)) h = ground (arith, h)

Improves-trans : (a b c : Option (ℕ × ℕ)) → Improves a b → Improves b c → Improves a c
unfolding Improves
Improves-trans none b c g h = tt
Improves-trans (some (i, d)) b c g h = Improves-Yields i d b c g h

nothing-Before : Before 0 none
unfolding Before
nothing-Before = tt

nothing-Selects :
    (all : List DownloaderCredentialContext)
    → (request : DownloaderCredentialContext) → Selects all request none
unfolding Selects
nothing-Selects all request = tt

Improves-refl : (a : Option (ℕ × ℕ)) → Improves a a
unfolding Improves Yields
Improves-refl none = tt
Improves-refl (some (i, d)) = ground arith

module _ (request : DownloaderCredentialContext) where
  select_from-Improves :
      (rest : List DownloaderCredentialContext)
      → (index : ℕ) → (selected : Option (ℕ × ℕ))
      → Improves selected (select_from index selected rest request)
  unfolding select_from
  select_from-Improves [] index selected = Improves-refl selected
  select_from-Improves (c ∷ rest) index selected =
      Improves-trans selected _ _ (take_route-Improves c request index selected)
        (select_from-Improves rest (suc index) _)

  select_from-Yields :
      (rest : List DownloaderCredentialContext)
      → (index j : ℕ) → (selected : Option (ℕ × ℕ)) → (c : DownloaderCredentialContext)
      → Before index selected
      → get_elem? rest j ≡ some c
      → route_matches c request ≡ true
      → Yields (index + j) (depth_of c) (select_from index selected rest request)
  unfolding select_from
  select_from-Yields [] index j selected c h at matches = ground (arith, at)
  select_from-Yields (b ∷ rest) index zero selected c h at matches =
      subst (λ i. Yields i (depth_of c) (select_from index selected (b ∷ rest) request))
        (omega arith)
        (subst (λ x. Yields index (depth_of x) (select_from index selected (b ∷ rest) request)) same
          (Improves-Yields index (depth_of b) _ _
            (take_route-Yields b request index selected h
              (subst (λ x. route_matches x request ≡ true) (sym same) matches))
            (select_from-Improves rest (suc index) _)))
    where
      same : b ≡ c
      same = cc at
  select_from-Yields (b ∷ rest) index (suc j) selected c h at matches =
      subst (λ i. Yields i (depth_of c) (select_from index selected (b ∷ rest) request))
        (omega arith)
        (select_from-Yields rest (suc index) j _ c (take_route-Before b request index selected h) at
          matches)

  module _ (all : List DownloaderCredentialContext) where
    take_route-Selects :
        (c : DownloaderCredentialContext)
        → (index : ℕ) → (selected : Option (ℕ × ℕ)) → get_elem? all index ≡ some c
        → Selects all request selected
        → Selects all request (
            if route_matches c request && is_deeper (depth_of c) selected
            then some (index, depth_of c)
            else selected)
    unfolding Selects
    take_route-Selects c index selected at h = elim (Bool-cases (route_matches c request)) [
      | inr other ↦ rw other h
      | inl matches ↦ elim (Bool-cases (is_deeper (depth_of c) selected)) [
        | inl deeper ↦ rw matches (rw deeper (c, at, matches, refl))
        | inr shallow ↦ rw matches (rw shallow h)
      ]
    ]

    select_from-Selects :
        (rest : List DownloaderCredentialContext)
        → (index : ℕ) → (selected : Option (ℕ × ℕ))
        → ((j : ℕ)
            → (c : DownloaderCredentialContext) → get_elem? rest j ≡ some c
            → get_elem? all (index + j) ≡ some c)
        → Selects all request selected
        → Selects all request (select_from index selected rest request)
    unfolding select_from
    select_from-Selects [] index selected place h = h
    select_from-Selects (c ∷ rest) index selected place h =
        select_from-Selects rest (suc index) _
          (λ j d at. subst (λ i. get_elem? all i ≡ some d) (omega arith) (place (suc j) d at))
          (take_route-Selects c index selected
            (subst (λ i. get_elem? all i ≡ some c) (omega arith) (place 0 c refl)) h)

-- A selection is the first of the longest routes that match, and none only if no route matches.
unfoldable pub IsBest :
    List DownloaderCredentialContext → DownloaderCredentialContext → Option ℕ → Type 0
IsBest candidates request none =
    (j : ℕ)
    → (c : DownloaderCredentialContext) → get_elem? candidates j ≡ some c
    → route_matches c request ≡ false
IsBest candidates request (some i) =
    (best : DownloaderCredentialContext) × (get_elem? candidates i ≡ some best)
    × (route_matches best request ≡ true)
    × ((j : ℕ)
        → (c : DownloaderCredentialContext) → get_elem? candidates j ≡ some c
        → route_matches c request ≡ true
        → (depth_of c ≤ depth_of best) × ((j < i) → depth_of c < depth_of best))

IsBest-select_from :
    (candidates : List DownloaderCredentialContext)
    → (request : DownloaderCredentialContext) → (selected : Option (ℕ × ℕ))
    → Selects candidates request selected
    → ((j : ℕ)
        → (c : DownloaderCredentialContext) → get_elem? candidates j ≡ some c
        → route_matches c request ≡ true
        → Yields (0 + j) (depth_of c) selected)
    → IsBest candidates request (elim selected [ none ↦ none | some (index, depth) ↦ some index ])
unfolding Selects Yields IsBest
IsBest-select_from candidates request none h all = λ j c at.
    elim (Bool-cases (route_matches c request)) [
      | inl matches ↦ absurd (all j c at matches)
      | inr other ↦ other
    ]
IsBest-select_from candidates request (some (i, d)) (best, at, matches, depth) all =
    (best, at, matches, λ j c at' matches'. ground (arith, depth, all j c at' matches'))

-- `select_downloader_credential_context` selects the first of the longest routes that match the
-- request, and selects none only if no route matches.
pub select-IsBest :
    (candidates : List DownloaderCredentialContext)
    → (request : DownloaderCredentialContext)
    → IsBest candidates request (select_downloader_credential_context candidates request)
unfolding select_downloader_credential_context
select-IsBest candidates request =
    IsBest-select_from candidates request (select_from 0 none candidates request)
      (select_from-Selects request candidates candidates 0 none
        (λ j c at. subst (λ i. get_elem? candidates i ≡ some c) (omega arith) at)
        (nothing-Selects candidates request))
      (λ j c at matches. select_from-Yields request candidates 0 j none c nothing-Before at matches)
