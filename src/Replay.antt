-- ===== src/Replay.antt =====
-- src/comfyui_docker_helper/container/runtime/log_query.py: the replay of retained log history from
-- spans. A reader is a function from an offset and a size, with none for the error of a range that is
-- not available. Offsets may be negative in the code, for files of an earlier run; here they are
-- counted from an origin below all of them, and `origin` is where the code's 0 stands.
pub mod Lines
pub mod Search
pub mod Selecting
pub mod Yielding
pub mod Reversing
pub mod Tails
pub mod Guarantees
pub mod Trust
mod Examples
use comfyui_docker_helper.Prelude.{
  ℕ, zero, suc, ◌+◌, ◌-◌, min, max, Bool, true, false, not, List, [], ◌∷◌, ◌++◌, reverse, length,
  Option, none, some, is_some, if◌then◌else◌, ltb, ◌==◌, ◌&&◌, ◌||◌, get_elem?,
}
use comfyui_docker_helper.History.{log_read_bytes}

abbrev pub Reader : Type 0
Reader = ℕ → ℕ → Option (List ℕ)

pub record HistorySpan : Type 0 where
  pub start : ℕ
  pub end : ℕ
  pub reader : Reader

-- `MissingHistory.read`
abbrev pub missing_history : Reader
missing_history start size = none

pub data LogReplayItem : Type 0 where
  log_bytes : List ℕ → LogReplayItem
  log_diagnostic : Bool → LogReplayItem
  replay_complete : Bool → LogReplayItem

abbrev pub line_feed : ℕ
line_feed = 10

abbrev pub is_line_feed : Option ℕ → Bool
is_line_feed none = false
is_line_feed (some b) = b == line_feed

-- `data.rfind(b"\n", 0, cursor)`
unfoldable pub rfind : List ℕ → ℕ → Option ℕ
rfind bytes zero = none
rfind bytes (suc cursor) =
    let rest = rfind bytes cursor in
    if is_line_feed (get_elem? bytes cursor) then some cursor else rest

-- The loop over the line feeds of one buffer ends at the one that is wanted, or with what remains.
pub data Scan : Type 0 where
  found : ℕ → Scan
  remaining : ℕ → Scan

abbrev pub scan_from : ℕ → Option ℕ → (ℕ → Scan) → Scan
scan_from r none next = remaining (suc r)
scan_from r (some at) next = if r == 0 then found at else next at

unfoldable pub scan : ℕ → List ℕ → ℕ → Scan
scan zero bytes cursor = remaining 0
scan (suc r) bytes cursor = scan_from r (rfind bytes cursor) (λ at. scan r bytes at)

-- `data[-1:] == b"\n"` at the first buffer that is read.
abbrev pub ends_in_line_feed : List ℕ → Bool
ends_in_line_feed bytes =
    if length bytes == 0 then false else is_line_feed (get_elem? bytes (length bytes - 1))

abbrev pub count_last : Bool → List ℕ → ℕ → ℕ
count_last first_byte bytes r = if first_byte && ends_in_line_feed bytes then suc r else r

-- How the loop over the buffers of one span ends: a read fails above an offset, the tail begins at an
-- offset, or the span is passed.
pub data SpanTail : Type 0 where
  failed_below : ℕ → SpanTail
  begins : ℕ → SpanTail
  passed : Bool → ℕ → SpanTail
  out_of_fuel : SpanTail

abbrev pub after_scan : ℕ → Scan → (ℕ → SpanTail) → SpanTail
after_scan start (found at) next = begins (start + at + 1)
after_scan start (remaining r) next = next r

abbrev pub after_read : ℕ → ℕ → Bool → ℕ → Option (List ℕ) → (ℕ → SpanTail) → SpanTail
after_read start end first_byte r none next = failed_below end
after_read start end first_byte r (some bytes) next =
    after_scan start (scan (count_last first_byte bytes r) bytes (length bytes)) next

-- The loop of `_select_tail` over the buffers of a span, on fuel.
unfoldable pub span_tail : ℕ → HistorySpan → ℕ → Bool → ℕ → SpanTail
span_tail zero span end first_byte r = out_of_fuel
span_tail (suc fuel) span end first_byte r =
    let start = max span.start (end - log_read_bytes) in
    let rest = λ (left : ℕ). span_tail fuel span start false left in
    if ltb span.start end
    then after_read start end first_byte r (span.reader start (end - start)) rest
    else passed first_byte r

-- A span from an offset on, if anything is left of it.
unfoldable pub from_offset : ℕ → HistorySpan → List HistorySpan
from_offset at span = if ltb at span.end then record span { start = at } ∷ [] else []

pub record Selection : Type 0 where
  pub spans : List HistorySpan
  pub incomplete : Bool

abbrev pub is_gap : Option ℕ → ℕ → Bool
is_gap none end = false
is_gap (some next_start) end = not (end == next_start)

abbrev pub after_span :
    HistorySpan → List HistorySpan → SpanTail → (Bool → ℕ → Option Selection) → Option Selection
after_span span later (failed_below end) next =
    some (record { spans = from_offset end span ++ later; incomplete = true })
after_span span later (begins at) next =
    some (record { spans = from_offset at span ++ later; incomplete = false })
after_span span later (passed first_byte r) next = next first_byte r
after_span span later out_of_fuel next = none

-- The loop of `_select_tail` over the spans, from the last one back; none is for fuel only, which each
-- span has enough of, since a turn reads a byte at least.
unfoldable pub select_back :
    List HistorySpan → List HistorySpan → Option ℕ → Bool → ℕ → Option Selection
select_back [] later next_start first_byte r = some (record { spans = later; incomplete = false })
select_back (span ∷ before) later next_start first_byte r =
    let rest =
      λ (first : Bool) (left : ℕ). select_back before (span ∷ later) (some span.start) first left in
    let tail = span_tail (suc (span.end - span.start)) span span.end first_byte r in
    if is_gap next_start span.end
    then some (record { spans = later; incomplete = true })
    else after_span span later tail rest

-- `_select_tail`
unfoldable pub select_tail : List HistorySpan → ℕ → Option Selection
select_tail spans count = select_back (reverse spans) [] none true count

-- `any(left.end != right.start for left, right in pairwise(selected))`
unfoldable pub has_gap : List HistorySpan → Bool
has_gap [] = false
has_gap (a ∷ []) = false
has_gap (a ∷ b ∷ spans) = not (a.end == b.start) || has_gap (b ∷ spans)

-- `selected[-1].end`, or the second value if nothing is selected.
unfoldable pub last_end : List HistorySpan → ℕ → ℕ
last_end [] end = end
last_end (a ∷ spans) end = last_end spans a.end

-- What a span yields, and whether all of it could be read.
pub record Yielded : Type 0 where
  pub items : List LogReplayItem
  pub whole : Bool

abbrev pub yield_before : Option (List ℕ) → (List ℕ → Option Yielded) → Option Yielded
yield_before none next = some (record { items = []; whole = false })
yield_before (some bytes) next = elim (next bytes) [
  | none ↦ none
  | some y ↦ some (record { items = log_bytes bytes ∷ y.items; whole = y.whole })
]

-- The loop of `replay_history` over the buffers of a span, on fuel.
unfoldable pub yield_span : ℕ → HistorySpan → ℕ → Option Yielded
yield_span zero span position = none
yield_span (suc fuel) span position =
    let rest = λ (bytes : List ℕ). yield_span fuel span (position + length bytes) in
    if ltb position span.end
    then yield_before (span.reader position (min log_read_bytes (span.end - position))) rest
    else some (record { items = []; whole = true })

abbrev pub yield_both : Option Yielded → Option Yielded → Option Yielded
yield_both none later = none
yield_both (some y) none = none
yield_both (some y) (some z) =
    some (record { items = y.items ++ z.items; whole = y.whole && z.whole })

unfoldable pub yield_spans : List HistorySpan → Option Yielded
yield_spans [] = some (record { items = []; whole = true })
yield_spans (span ∷ spans) =
    yield_both (yield_span (suc (span.end - span.start)) span span.start) (yield_spans spans)

abbrev pub no_end : ℕ → ℕ → List HistorySpan → Bool
no_end origin endpoint [] = ltb origin endpoint
no_end origin endpoint (a ∷ spans) = not (last_end (a ∷ spans) 0 == endpoint)

-- The end of `replay_history`, behind what the spans yield.
abbrev pub close_replay : Bool → Option Yielded → Option (List LogReplayItem)
close_replay early none = none
close_replay early (some y) = some (
    y.items
    ++ (if early || not y.whole
        then log_diagnostic true ∷ replay_complete false ∷ []
        else replay_complete true ∷ []))

-- `incomplete` before anything is read.
abbrev pub known_incomplete : ℕ → ℕ → Bool → Selection → Bool
known_incomplete origin endpoint require_endpoint selection =
    selection.incomplete
    || (has_gap selection.spans || (require_endpoint && no_end origin endpoint selection.spans))

-- `replay_history` behind the selection; none is for fuel only.
unfoldable pub replay_selected : ℕ → ℕ → Bool → Option Selection → Option (List LogReplayItem)
replay_selected origin endpoint require_endpoint none = none
replay_selected origin endpoint require_endpoint (some selection) =
    close_replay (known_incomplete origin endpoint require_endpoint selection)
      (yield_spans selection.spans)

abbrev pub selected : Option ℕ → List HistorySpan → Option Selection
selected none spans = some (record { spans = spans; incomplete = false })
selected (some count) [] = some (record { spans = []; incomplete = false })
selected (some count) (a ∷ spans) = select_tail (a ∷ spans) count

abbrev pub is_zero : Option ℕ → Bool
is_zero none = false
is_zero (some n) = n == 0

-- `replay_history`; none is for fuel only.
unfoldable pub replay_history :
    ℕ → List HistorySpan → ℕ → Option ℕ → Bool → Option (List LogReplayItem)
replay_history origin spans endpoint tail require_endpoint =
    if is_zero tail
    then some (replay_complete true ∷ [])
    else replay_selected origin endpoint require_endpoint (selected tail spans)

-- What `memory_tail` makes of the selection.
unfoldable pub proven_suffix : ℕ → Selection → Option (List HistorySpan)
proven_suffix start selection = elim selection.spans [
  | [] ↦ none
  | a ∷ spans ↦ if not selection.incomplete && ltb start a.start then some (a ∷ spans) else none
]

-- `memory_tail`; the outer option is for fuel only.
unfoldable pub memory_tail : HistorySpan → ℕ → Option (Option (List HistorySpan))
memory_tail span count =
    if span.start == span.end then some none else elim (select_tail (span ∷ []) count) [
      | none ↦ none
      | some selection ↦ some (proven_suffix span.start selection)
    ]
