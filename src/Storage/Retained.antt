-- ===== src/Storage/Retained.antt =====
-- Reads by a captured span: `_retained_span`, `_read_file` and `read`
-- (src/comfyui_docker_helper/container/runtime/log_storage.py).
use comfyui_docker_helper.Prelude.{
  ℕ, ◌+◌, ◌-◌, Bool, List, [], ◌∷◌, length, take, drop, Option, none, some, if◌then◌else◌, ltb,
  ◌==◌, ◌||◌,
}
use comfyui_docker_helper.History.{log_read_bytes}
use comfyui_docker_helper.Storage.{Check, FileSpan, RawLogStore}

-- `next(item for item in self._spans if … == …)`
unfoldable pub find_span : ℕ → List FileSpan → Option FileSpan
find_span inode [] = none
find_span inode (span ∷ spans) =
    let rest = find_span inode spans in if span.inode == inode then some span else rest

abbrev pub if_retained : Bool → FileSpan → Option FileSpan → Option FileSpan
if_retained closed span none = none
if_retained closed span (some current) =
    if closed || ltb span.start current.start || ltb current.end span.end
    then none
    else some current

-- `_retained_span`, with none for the error.
unfoldable pub retained_span : FileSpan → RawLogStore → Option FileSpan
retained_span span s = if_retained s.closed span (find_span span.inode s.spans)

-- `_read_file`, while the catalog stays: the checks of the system, then the bytes of the file.
unfoldable pub read_file : Check → FileSpan → ℕ → ℕ → RawLogStore → Option (List ℕ)
read_file (some t) span start size s = none
read_file none span start size s =
    let bytes = take size (drop (span.offset + start - span.start) (s.disk span.inode)) in
    if length bytes == size then some bytes else none

pub data FileRead : Type 0 where
  file_bytes : List ℕ → FileRead
  file_unavailable out_of_range : FileRead

abbrev pub read_result : Option (List ℕ) → FileRead
read_result none = file_unavailable
read_result (some bytes) = file_bytes bytes

abbrev pub second_read : Option FileSpan → FileSpan → Option (List ℕ) → FileRead
second_read none current bytes = file_unavailable
second_read (some refreshed) current bytes =
    if refreshed.name == current.name then file_unavailable else read_result bytes

abbrev pub first_read :
    Option FileSpan → Option (List ℕ) → Option FileSpan → Option (List ℕ) → FileRead
first_read none bytes refreshed again = file_unavailable
first_read (some current) (some bytes) refreshed again = file_bytes bytes
first_read (some current) none refreshed again = second_read refreshed current again

-- `read`: the first attempt finds the store as `s`, the second one, where there is one, as `s'`. The
-- moment within a rename, which the code sees as `_rotating`, lies in neither.
unfoldable pub read_store : Check → Check → FileSpan → ℕ → ℕ → RawLogStore → RawLogStore → FileRead
read_store first second span start size s s' =
    if ltb log_read_bytes size || ltb start span.start || ltb span.end (start + size)
    then out_of_range
    else first_read (retained_span span s) (read_file first span start size s)
        (retained_span span s') (read_file second span start size s')
