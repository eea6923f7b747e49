-- ===== src/Downloads/Examples.antt =====
-- Tests and witnesses of the admission of a download plan
-- (src/comfyui_docker_helper/container/runtime/files/reconciliation.py).
use comfyui_docker_helper.Prelude.{
  ℕ, ◌+◌, ◌*◌, Bool, true, false, List, [], ◌∷◌, length, All, Option, none, some, arith, ◌≡◌, ◌↔◌,
  refl,
}
use comfyui_docker_helper.Targets.{Text, same_text}
use comfyui_docker_helper.Targets.Planning.{sync_mode, RuntimeFilePlanItem, same_path}
use comfyui_docker_helper.Downloads.{
  EntryStatus, pending, completed, RuntimeDownloadEntry, RuntimeState, Digests, PlannedDownload,
  find_owner, validate_entries, validate_runtime_state_entries, entry_agrees, find_entry,
  check_items, Admitted, admitted, invalid_state, another_start, identity_differs,
  validate_runtime_file_state_plan,
}
use comfyui_docker_helper.Downloads.Admission.{
  AllDifferent, key_of, SoundState, HasEntry, admission_iff,
}

abbrev bit : Bool → ℕ
bit true = 1
bit false = 0

-- Digests that tell the entries below apart.
abbrev digests : Digests
digests = record {
  desired = λ url target checksum overwrite downloader. 10 * length url + bit overwrite;
  transfer = λ url target checksum. length url;
  as_authority = λ resume digest. 100 * digest + resume;
}

abbrev entry_of : Text → EntryStatus → Option ℕ → RuntimeDownloadEntry
entry_of url status resume = record {
  url = url;
  target = (97 ∷ []) ∷ [];
  checksum = none;
  overwrite = false;
  downloader = 104 ∷ [];
  download_mode = sync_mode;
  status = status;
  resume = resume;
}

-- Two entries, one of which waits with an authority to resume.
abbrev two_entries : RuntimeState
two_entries = record {
  run_id = 7;
  downloads =
      (10, entry_of (1 ∷ []) pending (some 5)) ∷ (20, entry_of (1 ∷ 2 ∷ []) completed none) ∷ [];
}

abbrev item_of : Text → RuntimeFilePlanItem
item_of url = record {
  url = url;
  parts = (97 ∷ []) ∷ [];
  overwrite = false;
  checksum = none;
  download_mode = sync_mode;
  downloader = none;
}

abbrev resumed : Option ℕ → List PlannedDownload
resumed authority = record { item = item_of (1 ∷ []); resume_authority = authority } ∷ []

abbrev run_plan : ℕ → List PlannedDownload → RuntimeState → Admitted
run_plan = validate_runtime_file_state_plan digests (104 ∷ [])

-- It is admitted with its authority and run, and refused with another one; a copy of an entry under
-- another key makes the state invalid.
admissions :
    (run_plan 7 (resumed (some 105)) two_entries ≡ admitted)
    × (run_plan 7 (resumed none) two_entries ≡ identity_differs)
    × (run_plan 8 (resumed (some 105)) two_entries ≡ another_start)
    × (run_plan 7 [] (record two_entries { downloads = (11, entry_of (1 ∷ []) pending none) ∷ [] })
        ≡ invalid_state)
unfolding validate_runtime_file_state_plan validate_runtime_state_entries validate_entries
    find_owner check_items find_entry entry_agrees same_text same_path
admissions = (refl, refl, refl, refl)

keys_differ : AllDifferent key_of two_entries.downloads
keys_differ = (((λ e. omega (arith, e)), tt), (tt, tt))

admission_iff_example :
    (validate_runtime_file_state_plan digests (104 ∷ []) 7 (resumed (some 105)) two_entries
      ≡ admitted)
    ↔ (SoundState digests two_entries
        × ((two_entries.run_id ≡ 7)
            × All (HasEntry digests (104 ∷ []) two_entries) (resumed (some 105))))
admission_iff_example =
    admission_iff digests (104 ∷ []) 7 (resumed (some 105)) two_entries keys_differ
