-- ===== src/Semantics/Matching.antt =====
-- What a credential route covers (src/comfyui_docker_helper/config/credentials/downloader.py).
use text.Mathlib.Text.{◌==◌}
use text.Mathlib.TextEquality.{eq_iff}
use comfyui_docker_helper.Prelude as P
use comfyui_docker_helper.Prelude.{
  ℕ, zero, suc, String, Bool, true, false, ◌&&◌, List, [], ◌∷◌, ◌++◌, length, take, get_elem?,
  Option, none, some, is_some, leb, arith, ◌≡◌, ◌↔◌, refl, ==_iff, Option-cases, inl, inr,
}
use comfyui_docker_helper.Semantics.Routes.{
  DownloaderCredentialContext, same_texts, route_matches, select_downloader_credential_context,
}
use comfyui_docker_helper.Semantics.Selection.{IsBest, select-IsBest}

-- The same scheme, host and port, and a path that begins with the route's.
abbrev pub Covers : DownloaderCredentialContext → DownloaderCredentialContext → Type 0
Covers route request =
    (route.scheme ≡ request.scheme)
    × ((route.host ≡ request.host)
        × ((route.port ≡ request.port)
            × ((rest : List String) × (request.path_segments ≡ route.path_segments ++ rest))))

and_iff {κ μ} :
    {A : Type κ} {B : Type μ} (a b : Bool)
    → (a ≡ true) ↔ A
    → (b ≡ true) ↔ B
    → ((a && b) ≡ true) ↔ (A × B)
and_iff true b (f, g) (h, k) = (λ e. (f refl, h e), λ (x, y). k y)
and_iff false b (f, g) (h, k) = (λ e. absurd (cc e), λ (x, y). absurd (cc (g x)))

-- The last two conditions of a match: a path no longer than the request's, which begins with it.
prefix_iff :
    (p q : List String)
    → ((leb (length p) (length q) && same_texts (take (length p) q) p) ≡ true)
      ↔ ((rest : List String) × (q ≡ p ++ rest))
unfolding same_texts
prefix_iff [] q = (λ e. (q, refl), λ h. ground arith)
prefix_iff (a ∷ p) [] = (λ e. ground (arith, e), λ (rest, e). absurd (cc e))
prefix_iff (a ∷ p) (b ∷ q) =
    let (to, from) = prefix_iff p q in
    (
      λ e.
          let (rest, same) = to (ground (arith, e)) in
          let first : b ≡ a = (eq_iff b a).0 (ground (arith, e)) in (rest, cc (first, same)),
      λ (rest, e).
          let first : (b == a) ≡ true = (eq_iff b a).1 (cc e) in
          let later = from (rest, cc e) in ground (arith, first, later),
    )

regroup :
    (a b c d e : Bool) → ((a && b && c && d && e) ≡ true) ↔ ((a && (b && (c && (d && e)))) ≡ true)
regroup a b c d e = ground arith

pub matches_iff :
    (route request : DownloaderCredentialContext)
    → (route_matches route request ≡ true) ↔ Covers route request
unfolding route_matches
matches_iff route request =
    let (to, from) = and_iff _ _ (eq_iff route.scheme request.scheme) (
      and_iff _ _ (eq_iff route.host request.host) (
        and_iff _ _ (==_iff route.port request.port)
          (prefix_iff route.path_segments request.path_segments))) in
    let (inward, outward) =
      regroup (route.scheme == request.scheme) (route.host == request.host)
        (P.◌==◌ route.port request.port)
        (leb (length route.path_segments) (length request.path_segments))
        (same_texts (take (length route.path_segments) request.path_segments)
          route.path_segments) in
    (λ e. to (inward e), λ covers. outward (from covers))

-- Something is selected exactly where a route covers the request.
pub selected_iff :
    (routes : List DownloaderCredentialContext) (request : DownloaderCredentialContext)
    → (is_some (select_downloader_credential_context routes request) ≡ true) ↔ (
        (i : ℕ) × (route : DownloaderCredentialContext) × (get_elem? routes i ≡ some route)
        × Covers route request)
unfolding IsBest
selected_iff routes request =
    by_best (select_downloader_credential_context routes request) (select-IsBest routes request)
  where
    by_best :
        (o : Option ℕ)
        → IsBest routes request o
        → (is_some o ≡ true) ↔ (
            (i : ℕ) × (route : DownloaderCredentialContext) × (get_elem? routes i ≡ some route)
            × Covers route request)
    by_best none best = (
      λ e. absurd (cc e),
      λ (i, route, at, covers).
          let no = best i route at in
          let yes = (matches_iff route request).1 covers in absurd (cc (no, yes)),
    )
    by_best (some i) (route, at, matches, longest) =
        (λ e. (i, route, at, (matches_iff route request).0 matches), λ h. refl)
