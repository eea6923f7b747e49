-- ===== src/Downloads/Comparing.antt =====
-- The comparisons of an entry with a planned download decide equality
-- (src/comfyui_docker_helper/container/runtime/files/reconciliation.py).
use comfyui_docker_helper.Prelude.{
  ℕ, Bool, true, false, List, [], ◌∷◌, Option, none, some, ◌==◌, ◌&&◌, ==_iff, ◌≡◌, ◌↔◌, refl,
}
use comfyui_docker_helper.Targets.{Text, same_text}
use comfyui_docker_helper.Targets.Planning.{DownloadMode, sync_mode, async_mode, same_path}
use comfyui_docker_helper.Downloads.{
  EntryStatus, pending, completed, cleanup_pending, RuntimeDownloadEntry, Digests,
  entry_resume_authority, PlannedDownload, same_option_text, same_bool, same_mode, same_authority,
  is_pending, entry_agrees,
}

pub and_iff {κ μ} :
    {A : Type κ} {B : Type μ} (a b : Bool)
    → (a ≡ true) ↔ A
    → (b ≡ true) ↔ B
    → ((a && b) ≡ true) ↔ (A × B)
and_iff true b (f, g) (h, k) = (λ e. (f refl, h e), λ (x, y). k y)
and_iff false b (f, g) (h, k) = (λ e. absurd (cc e), λ (x, y). absurd (cc (g x)))

same_text_iff : (p q : Text) → (same_text p q ≡ true) ↔ (p ≡ q)
unfolding same_text
same_text_iff [] [] = (λ e. refl, λ e. refl)
same_text_iff [] (b ∷ q) = (λ e. absurd (cc e), λ e. absurd (cc e))
same_text_iff (a ∷ p) [] = (λ e. absurd (cc e), λ e. absurd (cc e))
same_text_iff (a ∷ p) (b ∷ q) =
    let (to, from) = and_iff (a == b) (same_text p q) (==_iff a b) (same_text_iff p q) in
    (λ e. let (x, y) = to e in cc (x, y), λ e. from (cc e, cc e))

same_path_iff : (p q : List Text) → (same_path p q ≡ true) ↔ (p ≡ q)
unfolding same_path
same_path_iff [] [] = (λ e. refl, λ e. refl)
same_path_iff [] (b ∷ q) = (λ e. absurd (cc e), λ e. absurd (cc e))
same_path_iff (a ∷ p) [] = (λ e. absurd (cc e), λ e. absurd (cc e))
same_path_iff (a ∷ p) (b ∷ q) =
    let (to, from) =
      and_iff (same_text a b) (same_path p q) (same_text_iff a b) (same_path_iff p q) in
    (λ e. let (x, y) = to e in cc (x, y), λ e. from (cc e, cc e))

same_option_text_iff : (p q : Option Text) → (same_option_text p q ≡ true) ↔ (p ≡ q)
same_option_text_iff none none = (λ e. refl, λ e. refl)
same_option_text_iff none (some b) = (λ e. absurd (cc e), λ e. absurd (cc e))
same_option_text_iff (some a) none = (λ e. absurd (cc e), λ e. absurd (cc e))
same_option_text_iff (some a) (some b) =
    let (to, from) = same_text_iff a b in (λ e. let x = to e in cc x, λ e. from (cc e))

same_authority_iff : (p q : Option ℕ) → (same_authority p q ≡ true) ↔ (p ≡ q)
same_authority_iff none none = (λ e. refl, λ e. refl)
same_authority_iff none (some b) = (λ e. absurd (cc e), λ e. absurd (cc e))
same_authority_iff (some a) none = (λ e. absurd (cc e), λ e. absurd (cc e))
same_authority_iff (some a) (some b) =
    let (to, from) = ==_iff a b in (λ e. let x = to e in cc x, λ e. from (cc e))

same_bool_iff : (a b : Bool) → (same_bool a b ≡ true) ↔ (a ≡ b)
same_bool_iff true true = (λ e. refl, λ e. refl)
same_bool_iff true false = (λ e. absurd (cc e), λ e. absurd (cc e))
same_bool_iff false true = (λ e. absurd (cc e), λ e. absurd (cc e))
same_bool_iff false false = (λ e. refl, λ e. refl)

same_mode_iff : (a b : DownloadMode) → (same_mode a b ≡ true) ↔ (a ≡ b)
same_mode_iff sync_mode sync_mode = (λ e. refl, λ e. refl)
same_mode_iff sync_mode async_mode = (λ e. absurd (cc e), λ e. absurd (cc e))
same_mode_iff async_mode sync_mode = (λ e. absurd (cc e), λ e. absurd (cc e))
same_mode_iff async_mode async_mode = (λ e. refl, λ e. refl)

is_pending_iff : (s : EntryStatus) → (is_pending s ≡ true) ↔ (s ≡ pending)
is_pending_iff pending = (λ e. refl, λ e. refl)
is_pending_iff completed = (λ e. absurd (cc e), λ e. absurd (cc e))
is_pending_iff cleanup_pending = (λ e. absurd (cc e), λ e. absurd (cc e))

-- The entry is pending and has what the planned download has, with this downloader.
abbrev pub Agrees : Digests → Text → RuntimeDownloadEntry → PlannedDownload → Type 0
Agrees d downloader e p =
    (e.url ≡ p.item.url)
    × ((e.target ≡ p.item.parts)
        × ((e.checksum ≡ p.item.checksum)
            × ((e.overwrite ≡ p.item.overwrite)
                × ((e.downloader ≡ downloader)
                    × ((e.download_mode ≡ p.item.download_mode)
                        × ((entry_resume_authority d e ≡ p.resume_authority)
                            × (e.status ≡ pending)))))))

pub Agrees-iff :
    (d : Digests) (downloader : Text) (e : RuntimeDownloadEntry) (p : PlannedDownload)
    → (entry_agrees d downloader e p ≡ true) ↔ Agrees d downloader e p
unfolding entry_agrees
Agrees-iff d downloader e p = and_iff _ _ (same_text_iff e.url p.item.url) (
    and_iff _ _ (same_path_iff e.target p.item.parts) (
      and_iff _ _ (same_option_text_iff e.checksum p.item.checksum) (
        and_iff _ _ (same_bool_iff e.overwrite p.item.overwrite) (
          and_iff _ _ (same_text_iff e.downloader downloader) (
            and_iff _ _ (same_mode_iff e.download_mode p.item.download_mode) (
              and_iff _ _ (same_authority_iff (entry_resume_authority d e) p.resume_authority)
                (is_pending_iff e.status)))))))
