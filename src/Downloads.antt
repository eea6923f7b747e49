-- ===== src/Downloads.antt =====
-- src/comfyui_docker_helper/container/runtime/files/reconciliation.py: the admission of the state of the
-- runtime's downloads (`_validate_runtime_state_entries`) and of a download plan against it
-- (`validate_runtime_file_state_plan`). The digests (hashlib) and the authority that an entry's resume
-- state stands for are parameters; the dictionary of entries is a list with different keys.
pub mod Comparing
pub mod Admission
mod Examples
use comfyui_docker_helper.Prelude.{
  ℕ, Bool, true, false, not, List, [], ◌∷◌, Option, none, some, if◌then◌else◌, ◌==◌, ◌&&◌,
}
use comfyui_docker_helper.Targets.{Text, same_text}
use comfyui_docker_helper.Targets.Planning.{
  DownloadMode, sync_mode, async_mode, RuntimeFilePlanItem, same_path,
}

pub data EntryStatus : Type 0 where
  pending completed cleanup_pending : EntryStatus

-- `RuntimeDownloadEntry`; the target is given by its parts.
pub record RuntimeDownloadEntry : Type 0 where
  pub url : Text
  pub target : List Text
  pub checksum : Option Text
  pub overwrite : Bool
  pub downloader : Text
  pub download_mode : DownloadMode
  pub status : EntryStatus
  pub resume : Option ℕ

pub record RuntimeState : Type 0 where
  pub run_id : ℕ
  pub downloads : List (ℕ × RuntimeDownloadEntry)

-- The digests below one root, and `as_authority` of a resume state and a transfer digest.
pub record Digests : Type 0 where
  pub desired : Text → List Text → Option Text → Bool → Text → ℕ
  pub transfer : Text → List Text → Option Text → ℕ
  pub as_authority : ℕ → ℕ → ℕ

abbrev pub desired_digest : Digests → RuntimeDownloadEntry → ℕ
desired_digest d e = d.desired e.url e.target e.checksum e.overwrite e.downloader

-- `_entry_transfer_identity`
abbrev pub entry_transfer_digest : Digests → RuntimeDownloadEntry → ℕ
entry_transfer_digest d e = d.transfer e.url e.target e.checksum

abbrev pub authority_of : Digests → ℕ → Option ℕ → Option ℕ
authority_of d digest none = none
authority_of d digest (some resume) = some (d.as_authority resume digest)

-- `_entry_resume_authority` of an entry that there is.
abbrev pub entry_resume_authority : Digests → RuntimeDownloadEntry → Option ℕ
entry_resume_authority d e = authority_of d (entry_transfer_digest d e) e.resume

unfoldable pub find_owner : ℕ → List (ℕ × ℕ) → Option ℕ
find_owner namespace [] = none
find_owner namespace ((n, owner) ∷ owners) =
    let rest = find_owner namespace owners in if n == namespace then some owner else rest

abbrev pub is_other : Option ℕ → ℕ → Bool
is_other none digest = false
is_other (some owner) digest = not (owner == digest)

abbrev pub with_namespace : ℕ → ℕ → Option (List (ℕ × ℕ)) → Option (List (ℕ × ℕ))
with_namespace digest namespace none = none
with_namespace digest namespace (some rest) = some ((digest, namespace) ∷ rest)

-- The loop of `_validate_runtime_state_entries`, from the owners so far; none is the error.
unfoldable pub validate_entries :
    Digests → List (ℕ × ℕ) → List (ℕ × RuntimeDownloadEntry) → Option (List (ℕ × ℕ))
validate_entries d owners [] = some []
validate_entries d owners ((digest, e) ∷ entries) =
    let namespace = entry_transfer_digest d e in
    let rest = validate_entries d ((namespace, digest) ∷ owners) entries in
    if not (desired_digest d e == digest)
    then none
    else if is_other (find_owner namespace owners) digest
    then none
    else with_namespace digest namespace rest

unfoldable pub validate_runtime_state_entries : Digests → RuntimeState → Option (List (ℕ × ℕ))
validate_runtime_state_entries d s = validate_entries d [] s.downloads

-- An item of a download plan with the authority to resume that it carries.
pub record PlannedDownload : Type 0 where
  pub item : RuntimeFilePlanItem
  pub resume_authority : Option ℕ

abbrev pub or_downloader : Text → Option Text → Text
or_downloader default_downloader none = default_downloader
or_downloader default_downloader (some downloader) = downloader

abbrev pub same_option_text : Option Text → Option Text → Bool
same_option_text none none = true
same_option_text (some a) (some b) = same_text a b
same_option_text a b = false

abbrev pub same_bool : Bool → Bool → Bool
same_bool true b = b
same_bool false b = not b

abbrev pub same_mode : DownloadMode → DownloadMode → Bool
same_mode sync_mode sync_mode = true
same_mode async_mode async_mode = true
same_mode a b = false

abbrev pub same_authority : Option ℕ → Option ℕ → Bool
same_authority none none = true
same_authority (some a) (some b) = a == b
same_authority a b = false

abbrev pub is_pending : EntryStatus → Bool
is_pending pending = true
is_pending other = false

-- None of the differences for which `validate_runtime_file_state_plan` refuses an entry.
unfoldable pub entry_agrees : Digests → Text → RuntimeDownloadEntry → PlannedDownload → Bool
entry_agrees d downloader e p =
    same_text e.url p.item.url
    && (same_path e.target p.item.parts
        && (same_option_text e.checksum p.item.checksum
            && (same_bool e.overwrite p.item.overwrite
                && (same_text e.downloader downloader
                    && (same_mode e.download_mode p.item.download_mode
                        && (same_authority (entry_resume_authority d e) p.resume_authority
                            && is_pending e.status))))))

unfoldable pub find_entry : ℕ → List (ℕ × RuntimeDownloadEntry) → Option RuntimeDownloadEntry
find_entry digest [] = none
find_entry digest ((k, e) ∷ entries) =
    let rest = find_entry digest entries in if k == digest then some e else rest

pub data Admitted : Type 0 where
  admitted invalid_state another_start entry_missing identity_differs : Admitted

abbrev pub check_entry :
    Digests → Text → PlannedDownload → Option RuntimeDownloadEntry → Admitted → Admitted
check_entry d downloader p none rest = entry_missing
check_entry d downloader p (some e) rest =
    if not (entry_agrees d downloader e p) then identity_differs else rest

-- The digest of an item with the downloader that it gets.
abbrev pub item_digest : Digests → Text → PlannedDownload → ℕ
item_digest d downloader p =
    d.desired p.item.url p.item.parts p.item.checksum p.item.overwrite downloader

unfoldable pub check_items : Digests → Text → RuntimeState → List PlannedDownload → Admitted
check_items d default_downloader s [] = admitted
check_items d default_downloader s (p ∷ plan) =
    let downloader = or_downloader default_downloader p.item.downloader in
    let rest = check_items d default_downloader s plan in
    check_entry d downloader p (find_entry (item_digest d downloader p) s.downloads) rest

abbrev pub after_entries : Option (List (ℕ × ℕ)) → Bool → Admitted → Admitted
after_entries none same_run rest = invalid_state
after_entries (some namespaces) same_run rest = if not same_run then another_start else rest

-- `validate_runtime_file_state_plan`
unfoldable pub validate_runtime_file_state_plan :
    Digests → Text → ℕ → List PlannedDownload → RuntimeState → Admitted
validate_runtime_file_state_plan d default_downloader expected_run_id plan s =
    after_entries (validate_runtime_state_entries d s) (s.run_id == expected_run_id)
      (check_items d default_downloader s plan)
