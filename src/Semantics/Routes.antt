-- ===== src/Semantics/Routes.antt =====
-- Credential routes (src/comfyui_docker_helper/config/credentials/downloader.py) and file target
-- regions (src/comfyui_docker_helper/config/validation/runtime_files.py).
use text.Mathlib.Text.{◌==◌}
use comfyui_docker_helper.Prelude as P
use comfyui_docker_helper.Prelude.{
  ℕ, suc, String, Bool, true, false, ◌&&◌, ◌||◌, List, [], ◌∷◌, length, take, Option, none, some,
  if◌then◌else◌, leb, ltb, not,
}

-- `DownloaderCredentialContext`
pub record DownloaderCredentialContext : Type 0 where
  pub scheme : String
  pub host : String
  pub port : ℕ
  pub path_segments : List String

unfoldable pub same_texts : List String → List String → Bool
same_texts [] [] = true
same_texts (a ∷ p) (b ∷ q) = (a == b) && same_texts p q
same_texts p q = false

-- The condition under which the loop goes on without looking at the depth is the negation of this.
unfoldable pub route_matches : DownloaderCredentialContext → DownloaderCredentialContext → Bool
route_matches candidate request =
    (candidate.scheme == request.scheme)
    && (candidate.host == request.host)
    && P.◌==◌ candidate.port request.port
    && leb (length candidate.path_segments) (length request.path_segments)
    && same_texts (take (length candidate.path_segments) request.path_segments)
        candidate.path_segments

-- Whether `depth > selected_depth`, where nothing selected stands for the depth -1.
unfoldable pub is_deeper : ℕ → Option (ℕ × ℕ) → Bool
is_deeper depth none = true
is_deeper depth (some (i, selected)) = ltb selected depth

-- The loop of `select_downloader_credential_context` from `index` on: the index that is selected
-- with its depth.
unfoldable pub select_from :
    ℕ
    → Option (ℕ × ℕ)
    → List DownloaderCredentialContext
    → DownloaderCredentialContext
    → Option (ℕ × ℕ)
select_from index selected [] request = selected
select_from index selected (candidate ∷ rest) request =
    select_from (suc index)
      (if route_matches candidate request && is_deeper (length candidate.path_segments) selected
        then some (index, length candidate.path_segments)
        else selected)
      rest request

unfoldable pub select_downloader_credential_context :
    List DownloaderCredentialContext → DownloaderCredentialContext → Option ℕ
select_downloader_credential_context candidates request =
    elim (select_from 0 none candidates request) [ none ↦ none | some (index, depth) ↦ some index ]

-- `relative_file_targets_overlap`, on the parts of the two paths.
unfoldable pub relative_file_targets_overlap : List String → List String → Bool
relative_file_targets_overlap earlier later =
    same_texts (take (length later) earlier) later
    || same_texts (take (length earlier) later) earlier
