-- ===== src/Lib.antt =====
-- A model of the parts of comfyui-docker-helper that decide: the restart controller, the event
-- delivery, the control frames and the logs of the container runtime, the plan and the attempts of its
-- downloads, the merge of the configuration's layers and its semantic validation.
--
-- Parts and how they interact:
-- * Controller (container/runtime/controller.py): `RuntimeController` and its restart tickets. The
--   lifecycle thread, the control listener and the signal handler call its methods, each under one
--   lock except for the signal handler's, which is one step all the same; a method here is a
--   function on the state that returns a result or raises, and Controller/Steps lists the calls.
-- * Cadence (container/transfer/cadence.py): when a transfer that moves, stalls or recovers is worth a
--   line. Each progress slot of Delivery holds a cadence.
-- * Delivery (container/runtime/event_delivery.py): the bounded queues between the background
--   producers and the terminal, and `_drain_once`, which the worker thread calls.
-- * History (container/runtime/log_history.py): `MemoryHistory`, the blocks that hold the end of the
--   runtime's output.
-- * Storage (container/runtime/log_storage.py): `RawLogStore`, the rotating files: `append` with its
--   rotations (Rotation, Appending) and `read` by a captured span (Retained).
-- * Writer (container/runtime/log_storage.py): `AsyncLogWriter`, the bounded queue between the publisher
--   of the output and the store, with its worker thread.
-- * Replay (container/runtime/log_query.py): `replay_history`, which replays spans of one stream from
--   their readers, with `_select_tail` for the last lines and `memory_tail`.
-- * Query (container/runtime/logging.py with `history_spans` of log_query.py): `RuntimeLogQuery.replay`,
--   which puts the spans of a query together from a History and the files of a Storage and hands them to
--   Replay. What it asks of the files is a law of its theorems, and Query/Files shows that a Storage
--   fulfils it.
-- * Attempts (container/transfer/coordinator.py): `coordinate_transfer_attempts` over the transfer core,
--   the adapter, the cancellation test, the wait and the observers, which are the fields of
--   `Environment`; the core is a tree of its calls of the adapter.
-- * Merge (config/merge.py): documents, origin trees, policies and `merge_toml_documents`.
-- * Targets (config/validation/runtime_files.py, with the reserved names of config/validation/urls.py,
--   and Targets/Planning for container/runtime/files/planning.py): `validate_relative_file_target` and
--   `build_runtime_file_plan`, which takes a target only if that accepts it.
-- * Downloads (container/runtime/files/reconciliation.py): the admission of the persisted state of the
--   downloads, and of a plan of Targets' items against it.
-- * Framing (container/runtime/control/protocol.py): the frames in which the client and the control
--   listener exchange their messages; a socket is the segments that its reads find.
-- * Semantics (config/authored/validation/semantics.py, with select_downloader_credential_context of
--   config/credentials/downloader.py): the checks of a merged configuration. Their diagnostics name
--   the authored places that Merge's origin trees hold.
-- The paths stand below src/comfyui_docker_helper. Prelude holds the helpers that the parts share.
--
-- Numbers and bounds: times are numbers, read by the caller and passed in: milliseconds in Attempts,
-- and in Cadence doubles as multiples of 2 ^ -1074 s with their rounding (Cadence/Rounding), whose
-- loop has the number of exponents as fuel. A monotonic clock is not assumed where a theorem does
-- not say so. Names `op-<n>` and `gen-<n>` are the number n; a byte is a number. The offsets of the
-- log are counted from an origin below all of them, since the code gives negative ones to the files
-- of an earlier run. The loop of Attempts runs on fuel `max_attempts + 1`: each turn that goes on
-- spends one attempt, so the fuel is never used up. A read of n bytes in Framing runs on fuel n + 1:
-- each turn that goes on reads a byte. The loops of History and of `enqueue` run on the length of
-- their data, and those of Replay on the length of a span and one more: each turn takes a byte at
-- least; that they never run out is part of the results. The loop of the store's `append`, which
-- need not end, has as many turns as the system gives answers. All other recursion is on the data.
--
-- Not modelled: the transfer core and its backends behind `Environment`, worker threads and their
-- condition variables, the texts of diagnostics, URL parsing (httpx), name canonicalization
-- (packaging) and the splitting of paths in Semantics (pathlib), which are parameters; the schema of a
-- configured file (pydantic) and the test of its URL in Targets, and the digests (hashlib) in
-- Downloads, which are parameters; the reconciliation of a plan with the files, which has no module
-- yet; the messages inside the control frames (pydantic models over JSON). Of the logs: the admission
-- of a directory that an earlier run left, the moment within a rename, `wait_for_prefix`, and the
-- broker's pipes, followers and changes of configuration. SSH, hooks, builds, planning, rendering and
-- the host's commands, which are I/O around these parts or have no module yet.
pub mod Prelude
pub mod Controller
pub mod Cadence
pub mod Delivery
pub mod Attempts
pub mod Merge
pub mod Semantics
pub mod Framing
pub mod History
pub mod Replay
pub mod Storage
pub mod Query
pub mod Writer
pub mod Targets
pub mod Downloads
