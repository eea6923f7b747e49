-- ===== src/Storage/Rotation.antt =====
-- The rotation of the raw log files: `_rotate` and `_create_active`
-- (src/comfyui_docker_helper/container/runtime/log_storage.py).
use comfyui_docker_helper.Prelude.{
  ℕ, zero, suc, ◌+◌, true, false, not, List, [], ◌∷◌, ◌++◌, length, none, some, if◌then◌else◌, leb,
  ltb,
}
use comfyui_docker_helper.Storage.{
  rotation_failure, sync_failure, storage_error, os_error, Check, active_name,
  log_max_catalog_files, sequence_limit, FileSpan, RawLogStore, Ended, finished, raised,
  RotateAnswers, write_file,
}

-- A turn of the loop that removes `span`.
abbrev pub after_removal : Check → List FileSpan → Check × List FileSpan → Check × List FileSpan
after_removal none spans rest = rest
after_removal (some t) spans rest = (some t, spans)

-- The loop of `_create_active` that removes the oldest spans, on fuel.
unfoldable pub remove_oldest : ℕ → (FileSpan → Check) → ℕ → List FileSpan → Check × List FileSpan
remove_oldest zero removed max_files spans = (none, spans)
remove_oldest (suc fuel) removed max_files [] = (none, [])
remove_oldest (suc fuel) removed max_files (span ∷ spans) =
    let rest = remove_oldest fuel removed max_files spans in
    if ltb (length (span ∷ spans)) max_files
    then (none, span ∷ spans)
    else after_removal (removed span) (span ∷ spans) rest

-- A check that raises ends the call with the state that there is.
abbrev pub check_then : Check → RawLogStore → Ended × RawLogStore → Ended × RawLogStore
check_then none s next = next
check_then (some t) s next = (raised t, s)

-- `_create_active` behind the removals.
unfoldable pub open_active : RotateAnswers → RawLogStore → Ended × RawLogStore
open_active a s = check_then a.anchor_again s (
    if leb log_max_catalog_files (length s.spans)
    then (raised (storage_error rotation_failure), s)
    else check_then a.opened s (
      finished,
      record s {
        is_open = true;
        disk = write_file (a.inode s.spans) [] s.disk;
        spans =
            s.spans
            ++ record {
              name = active_name;
              inode = a.inode s.spans;
              start = s.acknowledged;
              end = s.acknowledged;
              offset = 0;
            }
              ∷ [];
      },
    ))

unfoldable pub create_active : RotateAnswers → RawLogStore → Ended × RawLogStore
create_active a s =
    let result = remove_oldest (length s.spans) a.removed s.max_files s.spans in
    check_then result.0 (record s { spans = result.1 })
      (open_active a (record s { spans = result.1 }))

-- `_rotate`, where `active` is the last span and `before` are the others.
unfoldable pub rotate : RotateAnswers → List FileSpan → FileSpan → RawLogStore → Ended × RawLogStore
rotate a before active s =
    let next = record s { sequence = s.sequence + 1 } in
    check_then a.anchor s (
      check_then a.examined s (
        if not a.same_file
        then (raised (storage_error rotation_failure), s)
        else if leb sequence_limit (s.sequence + 1)
        then (raised (storage_error rotation_failure), next)
        else check_then a.name_free next (
            if not a.synced
            then (raised (storage_error sync_failure), next)
            else if not a.renamed
            then (raised os_error, next)
            else if not a.closed
            then (
              raised os_error,
              record next { spans = before ++ record active { name = s.sequence + 1 } ∷ [] },
            )
            else create_active a (record next {
              is_open = false;
              spans = before ++ record active { name = s.sequence + 1 } ∷ [];
            }))))
