-- ===== src/Storage/Appending.antt =====
-- `append`: one turn of its loop, and the turns
-- (src/comfyui_docker_helper/container/runtime/log_storage.py).
use comfyui_docker_helper.Prelude.{
  split_last, ℕ, ◌+◌, ◌-◌, Bool, not, List, [], ◌∷◌, ◌++◌, length, take, drop, Option, none, some,
  if◌then◌else◌, leb, ltb, ◌==◌, ◌||◌,
}
use comfyui_docker_helper.Storage.{
  write_failure, rotation_failure, Trouble, storage_error, os_error, Check, FileSpan, RawLogStore,
  Ended, finished, raised, no_active_span, RotateAnswers, write_file,
}
use comfyui_docker_helper.Storage.Rotation.{rotate}

pub data WriteAnswer : Type 0 where
  interrupted : WriteAnswer
  refused_write : WriteAnswer
  wrote : ℕ → WriteAnswer

-- The answers to one turn of the loop of `append`.
pub record TurnAnswers : Type 0 where
  pub anchor : Check
  pub examined : Check
  pub same_file : Bool
  pub rotation : RotateAnswers
  pub write : WriteAnswer

-- A turn goes on with what remains, or raises.
pub data Turn : Type 0 where
  going_on : List ℕ → Turn
  stopped : Ended → Turn

-- The error that `append` makes of what is raised outside a rotation, and in one.
abbrev pub as_write_error : Trouble → Ended
as_write_error (storage_error r) = raised (storage_error r)
as_write_error os_error = raised (storage_error write_failure)

abbrev pub as_rotation_error : Trouble → Ended
as_rotation_error (storage_error r) = raised (storage_error r)
as_rotation_error os_error = raised (storage_error rotation_failure)

abbrev pub after_rotation : List ℕ → Ended × RawLogStore → Turn × RawLogStore
after_rotation remaining (finished, s) = (going_on remaining, s)
after_rotation remaining (raised t, s) = (stopped (as_rotation_error t), s)
after_rotation remaining (no_active_span, s) = (stopped no_active_span, s)

-- `remaining[: self._max_size - expected_size]`; a negative bound counts from the end.
abbrev pub offered : ℕ → ℕ → List ℕ → List ℕ
offered max_size expected remaining =
    if leb expected max_size
    then take (max_size - expected) remaining
    else take (length remaining - (expected - max_size)) remaining

-- What the writer did with the bytes that it was offered.
unfoldable pub write_turn :
    WriteAnswer → List ℕ → List ℕ → List FileSpan → FileSpan → RawLogStore → Turn × RawLogStore
write_turn interrupted bytes remaining before active s = (going_on remaining, s)
write_turn refused_write bytes remaining before active s =
    (stopped (raised (storage_error write_failure)), s)
write_turn (wrote count) bytes remaining before active s =
    if count == 0 || ltb (length bytes) count
    then (stopped (raised (storage_error write_failure)), s)
    else (
      going_on (drop count remaining),
      record s {
        acknowledged = s.acknowledged + count;
        spans = before ++ record active { end = active.end + count } ∷ [];
        disk = write_file active.inode (s.disk active.inode ++ take count bytes) s.disk;
      },
    )

-- A check of `append` outside a rotation.
abbrev pub check_turn : Check → RawLogStore → Turn × RawLogStore → Turn × RawLogStore
check_turn none s next = next
check_turn (some t) s next = (stopped (as_write_error t), s)

-- A turn at the last span, `active`.
unfoldable pub active_turn :
    TurnAnswers → List ℕ → RawLogStore → List FileSpan → FileSpan → Turn × RawLogStore
active_turn a remaining s before active =
    let expected = active.offset + active.end - active.start in
    let failed : Turn × RawLogStore = (stopped (raised (storage_error write_failure)), s) in
    if not s.is_open
    then failed
    else check_turn a.examined s (
        if not a.same_file || not (length (s.disk active.inode) == expected)
        then failed
        else if expected == s.max_size
        then after_rotation remaining (rotate a.rotation before active s)
        else write_turn a.write (offered s.max_size expected remaining) remaining before active s)

abbrev pub at_active :
    Option (List FileSpan × FileSpan)
    → RawLogStore
    → (List FileSpan → FileSpan → Turn × RawLogStore)
    → Turn × RawLogStore
at_active none s turn = (stopped no_active_span, s)
at_active (some (before, active)) s turn = turn before active

-- One turn of the loop of `append`, at bytes that remain.
unfoldable pub append_turn : TurnAnswers → List ℕ → RawLogStore → Turn × RawLogStore
append_turn a remaining s =
    check_turn a.anchor s (at_active (split_last s.spans) s (active_turn a remaining s))

pub data AppendResult : Type 0 where
  appended : AppendResult
  append_failed : Ended → AppendResult
  not_sequential : AppendResult
  still_running : List ℕ → AppendResult

abbrev pub go_on :
    Turn × RawLogStore
    → (List ℕ → RawLogStore → AppendResult × RawLogStore)
    → AppendResult × RawLogStore
go_on (going_on left, next) rest = rest left next
go_on (stopped e, next) rest = (append_failed e, next)

-- The loop of `append`, for as many turns as there are answers.
unfoldable pub append_loop : List TurnAnswers → List ℕ → RawLogStore → AppendResult × RawLogStore
append_loop answers [] s = (appended, s)
append_loop [] (b ∷ remaining) s = (still_running (b ∷ remaining), s)
append_loop (a ∷ answers) (b ∷ remaining) s =
    let rest = λ (left : List ℕ) (next : RawLogStore). append_loop answers left next in
    go_on (append_turn a (b ∷ remaining) s) rest

-- `append`
unfoldable pub append_store :
    List TurnAnswers → ℕ → List ℕ → RawLogStore → AppendResult × RawLogStore
append_store answers start bytes s =
    if not s.writable || s.closed
    then (append_failed (raised (storage_error write_failure)), s)
    else if not (start == s.acknowledged)
    then (not_sequential, s)
    else append_loop answers bytes s
