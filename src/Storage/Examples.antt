-- ===== src/Storage/Examples.antt =====
-- The raw files' theorems at concrete calls
-- (src/comfyui_docker_helper/container/runtime/log_storage.py).
use comfyui_docker_helper.Prelude.{
  split_last, ℕ, suc, ◌≤◌, max, if◌then◌else◌, ◌==◌, true, false, List, [], ◌∷◌, some, none, arith,
  ◌≡◌, refl, ap,
}
use comfyui_docker_helper.Storage.{FileSpan, RawLogStore, RotateAnswers, write_file}
use comfyui_docker_helper.Storage.Rotation.{rotate, create_active, open_active, remove_oldest}
use comfyui_docker_helper.Storage.Appending.{
  TurnAnswers, wrote, appended, append_store, append_loop, append_turn, active_turn, write_turn,
}
use comfyui_docker_helper.Storage.Retained.{
  read_store, retained_span, find_span, read_file, file_bytes, file_unavailable,
}
use comfyui_docker_helper.Storage.Catalog.{Fresh}
use comfyui_docker_helper.Storage.Opening.{Valid, Allocates}
use comfyui_docker_helper.Storage.Appends.{Appended, append_store_lem}
use comfyui_docker_helper.Storage.Reading.{FileRight}
use comfyui_docker_helper.Storage.Readers.{AppendCall, append_calls, snapshot_read_right}

abbrev some_stream : ℕ → ℕ
some_stream i = i

abbrev empty_active : FileSpan
empty_active = record { name = 0; inode = 1; start = 5; end = 5; offset = 0 }

-- A store of at most two files of three bytes.
abbrev small_store : RawLogStore
small_store = record {
  max_size = 3;
  max_files = 2;
  spans = empty_active ∷ [];
  acknowledged = 5;
  sequence = 0;
  is_open = true;
  closed = false;
  writable = true;
  disk = λ inode. [];
}

single :
    (before : List FileSpan) (active : FileSpan)
    → split_last (empty_active ∷ []) ≡ some (before, active)
    → active.end ≡ 5
unfolding split_last
single before active e =
    let same : active ≡ empty_active = cc e in ap (λ (span : FileSpan). span.end) same

small_store-Valid : Valid some_stream small_store
small_store-Valid = record {
  catalogued = record {
    fits = (
      record {
        ordered = omega arith;
        whole_file = refl;
        content = refl;
        below = omega arith;
        small = omega arith;
      },
      tt,
    );
    distinct = (tt, tt);
    few = omega arith;
    some_files = omega arith;
    some_size = omega arith;
  };
  active = λ o before active e. single before active e;
}

-- One more than any inode.
abbrev next_inode : List FileSpan → ℕ
next_inode [] = 0
next_inode (span ∷ spans) = max (suc span.inode) (next_inode spans)

next_inode-Fresh : (n : ℕ) (spans : List FileSpan) → next_inode spans ≤ n → Fresh n spans
next_inode-Fresh n [] le = tt
next_inode-Fresh n (span ∷ spans) le = ((λ e. omega arith), next_inode-Fresh n spans (omega arith))

abbrev good_rotation : RotateAnswers
good_rotation = record {
  anchor = none;
  examined = none;
  same_file = true;
  name_free = none;
  synced = true;
  renamed = true;
  closed = true;
  removed = λ span. none;
  anchor_again = none;
  opened = none;
  inode = next_inode;
}

good_rotation-Allocates : Allocates good_rotation
unfolding Allocates
good_rotation-Allocates spans = next_inode-Fresh (next_inode spans) spans (omega arith)

abbrev turn_of : ℕ → TurnAnswers
turn_of count = record {
  anchor = none;
  examined = none;
  same_file = true;
  rotation = good_rotation;
  write = wrote count;
}

abbrev some_turns : List TurnAnswers
some_turns = turn_of 2 ∷ turn_of 1 ∷ turn_of 1 ∷ turn_of 2 ∷ []

some_turns_run : (append_store some_turns 5 (5 ∷ 6 ∷ 7 ∷ 8 ∷ 9 ∷ []) small_store).0 ≡ appended
unfolding append_store append_loop append_turn active_turn write_turn rotate create_active
    open_active remove_oldest split_last write_file
some_turns_run = refl

append_store_lem_example :
    Appended some_stream 5 10 (append_store some_turns 5 (5 ∷ 6 ∷ 7 ∷ 8 ∷ 9 ∷ []) small_store)
append_store_lem_example =
    append_store_lem some_stream some_turns 5 (5 ∷ 6 ∷ 7 ∷ 8 ∷ 9 ∷ []) small_store
      (
        good_rotation-Allocates,
        (good_rotation-Allocates, (good_rotation-Allocates, (good_rotation-Allocates, tt))),
      )
      small_store-Valid refl

-- An archive of three bytes, and an active file of two.
abbrev archive : FileSpan
archive = record { name = 1; inode = 1; start = 5; end = 8; offset = 0 }

abbrev active_file : FileSpan
active_file = record { name = 0; inode = 2; start = 8; end = 10; offset = 0 }

abbrev filled_store : RawLogStore
filled_store = record small_store {
  spans = archive ∷ active_file ∷ [];
  acknowledged = 10;
  sequence = 1;
  disk = λ inode. if inode == 1 then 5 ∷ 6 ∷ 7 ∷ [] else if inode == 2 then 8 ∷ 9 ∷ [] else [];
}

last_of_filled :
    (before : List FileSpan) (active : FileSpan)
    → split_last (archive ∷ active_file ∷ []) ≡ some (before, active)
    → active.end ≡ 10
unfolding split_last
last_of_filled before active e =
    let same : active ≡ active_file = cc e in ap (λ (span : FileSpan). span.end) same

filled_store-Valid : Valid some_stream filled_store
filled_store-Valid = record {
  catalogued = record {
    fits = (
      record {
        ordered = omega arith;
        whole_file = refl;
        content = refl;
        below = omega arith;
        small = omega arith;
      },
      (
        record {
          ordered = omega arith;
          whole_file = refl;
          content = refl;
          below = omega arith;
          small = omega arith;
        },
        tt,
      ),
    );
    distinct = (((λ e. omega arith), tt), (tt, tt));
    few = omega arith;
    some_files = omega arith;
    some_size = omega arith;
  };
  active = λ o before active e. last_of_filled before active e;
}

-- The active file becomes an archive, and the old archive goes.
abbrev next_call : AppendCall
next_call = record {
  answers = turn_of 1 ∷ turn_of 1 ∷ turn_of 1 ∷ [];
  start = 10;
  bytes = 10 ∷ 11 ∷ [];
}

read_after_rotation :
    read_store none none active_file 8 2
      (append_calls (next_call ∷ []) filled_store)
      (append_calls (next_call ∷ []) filled_store)
    ≡ file_bytes (8 ∷ 9 ∷ [])
unfolding append_calls append_store append_loop append_turn active_turn write_turn rotate
    create_active open_active remove_oldest split_last write_file read_store retained_span find_span
    read_file
read_after_rotation = refl

read_after_removal :
    read_store none none archive 6 2
      (append_calls (next_call ∷ []) filled_store)
      (append_calls (next_call ∷ []) filled_store)
    ≡ file_unavailable
unfolding append_calls append_store append_loop append_turn active_turn write_turn rotate
    create_active open_active remove_oldest split_last write_file read_store retained_span find_span
    read_file
read_after_removal = refl

snapshot_read_right_example : FileRight some_stream 8 2 (
    read_store none none active_file 8 2
      (append_calls (next_call ∷ []) filled_store)
      (append_calls [] (append_calls (next_call ∷ []) filled_store)))
snapshot_read_right_example =
    snapshot_read_right some_stream filled_store 1 active_file (next_call ∷ []) [] none none 8 2
      filled_store-Valid refl
      (
        ((good_rotation-Allocates, (good_rotation-Allocates, (good_rotation-Allocates, tt))), refl),
        tt,
      )
      tt
