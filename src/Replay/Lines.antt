-- ===== src/Replay/Lines.antt =====
-- Counting line feeds in a stream, and how the search of `_select_tail` counts them
-- (src/comfyui_docker_helper/container/runtime/log_query.py).
use comfyui_docker_helper.Prelude.{
  ℕ, zero, suc, ◌+◌, ◌-◌, ◌≤◌, ◌<◌, Bool, true, false, Option, none, some, if◌then◌else◌, ◌==◌,
  ◌&&◌, get_elem?, arith, ◌≡◌, refl, Bool-cases, inl, inr,
}
use comfyui_docker_helper.History.Windows.{window, length-window}
use comfyui_docker_helper.Replay.{
  line_feed, rfind, Scan, found, remaining, scan, scan_from, count_last,
}

abbrev pub one_if : Bool → ℕ
one_if true = 1
one_if false = 0

-- The line feeds among the n bytes from a on.
unfoldable pub count_lf : (ℕ → ℕ) → ℕ → ℕ → ℕ
count_lf f a zero = 0
count_lf f a (suc n) = count_lf f a n + one_if (f (a + n) == line_feed)

pub count_lf-split :
    (f : ℕ → ℕ) (a m b n k : ℕ)
    → a + m ≡ b
    → m + n ≡ k
    → count_lf f a k ≡ count_lf f a m + count_lf f b n
unfolding count_lf
count_lf-split f a m b zero k e d = let same : k ≡ m = omega arith in rw same (omega arith)
count_lf-split f a m b (suc n) zero e d = absurd (omega arith)
count_lf-split f a m b (suc n) (suc k) e d =
    let at : a + k ≡ b + n = omega arith in
    rw at (omega (arith, count_lf-split f a m b n k e (omega arith)))

pub count_lf-one : (f : ℕ → ℕ) (a : ℕ) → f a ≡ line_feed → count_lf f a 1 ≡ 1
unfolding count_lf
count_lf-one f a e = let at : a + 0 ≡ a = omega arith in rw (at, e) refl

get_elem?-window : (f : ℕ → ℕ) (a n i : ℕ) → i < n → get_elem? (window f a n) i ≡ some (f (a + i))
get_elem?-window f a zero i lt = absurd (omega arith)
get_elem?-window f a (suc n) zero lt = let at : a + 0 ≡ a = omega arith in rw at refl
get_elem?-window f a (suc n) (suc i) lt =
    let at : a + suc i ≡ a + 1 + i = omega arith in
    rw at (get_elem?-window f (a + 1) n i (omega arith))

-- What a search below a cursor finds in a buffer that begins at `start`.
abbrev pub Found : (ℕ → ℕ) → ℕ → ℕ → Option ℕ → Type 0
Found f start cursor none = count_lf f start cursor ≡ 0
Found f start cursor (some at) =
    (at < cursor) × (f (start + at) ≡ line_feed) × (count_lf f (start + at) (cursor - at) ≡ 1)

one_more :
    (f : ℕ → ℕ) (start cursor : ℕ) (o : Option ℕ)
    → (f (start + cursor) == line_feed) ≡ false
    → Found f start cursor o
    → Found f start (suc cursor) o
unfolding count_lf
one_more f start cursor none e h = rw e (omega (arith, h))
one_more f start cursor (some at) e (lt, here, count) = (
  omega arith,
  here,
  let more : suc cursor - at ≡ suc (cursor - at) = omega arith in
      let place : start + at + (cursor - at) ≡ start + cursor = omega arith in
      rw more (rw (place, e) (omega (arith, count))),
)

last_one :
    (f : ℕ → ℕ) (start cursor : ℕ)
    → f (start + cursor) ≡ line_feed
    → Found f start (suc cursor) (some cursor)
last_one f start cursor e =
    let width : suc cursor - cursor ≡ 1 = omega arith in
    (omega arith, e, rw width (count_lf-one f (start + cursor) e))

pub rfind-Found :
    (f : ℕ → ℕ) (start n cursor : ℕ)
    → cursor ≤ n
    → Found f start cursor (rfind (window f start n) cursor)
unfolding rfind count_lf
rfind-Found f start n zero le = refl
rfind-Found f start n (suc cursor) le =
    rw (get_elem?-window f start n cursor (omega arith))
      (elim (Bool-cases (f (start + cursor) == line_feed)) [
        | inl e ↦ rw e (last_one f start cursor (ground arith))
        | inr e ↦ rw e (
            one_more f start cursor (rfind (window f start n) cursor) e
              (rfind-Found f start n cursor (omega arith)))
      ])

-- How a search for the r-th line feed from the cursor down ends.
abbrev pub Scanned : (ℕ → ℕ) → ℕ → ℕ → ℕ → Scan → Type 0
Scanned f start cursor r (found at) =
    (at < cursor) × (f (start + at) ≡ line_feed) × (count_lf f (start + at) (cursor - at) ≡ r)
Scanned f start cursor r (remaining left) = (left + count_lf f start cursor ≡ r) × (0 < left)

further :
    (f : ℕ → ℕ) (start cursor at r : ℕ) (s : Scan)
    → at < cursor
    → count_lf f (start + at) (cursor - at) ≡ 1
    → Scanned f start at r s
    → Scanned f start cursor (suc r) s
further f start cursor at r (found next) lt one (lower, here, count) = (
  omega arith,
  here,
  omega (
    arith,
    count_lf-split f (start + next) (at - next) (start + at) (cursor - at) (cursor - next)
        (omega arith) (omega arith),
  ),
)
further f start cursor at r (remaining left) lt one (count, pos) = (
  omega (arith, count_lf-split f start at (start + at) (cursor - at) cursor refl (omega arith)),
  pos,
)

pub scan-Scanned :
    (f : ℕ → ℕ) (start n cursor r : ℕ)
    → cursor ≤ n
    → 0 < r
    → Scanned f start cursor r (scan r (window f start n) cursor)
unfolding scan
scan-Scanned f start n cursor zero le pos = absurd (omega arith)
scan-Scanned f start n cursor (suc r) le pos =
    step (rfind (window f start n) cursor) (rfind-Found f start n cursor le)
      (λ at lt more. scan-Scanned f start n at r (omega arith) more)
  where
    step :
        (o : Option ℕ)
        → Found f start cursor o
        → ((at : ℕ) → at < cursor → 0 < r → Scanned f start at r (scan r (window f start n) at))
        → Scanned f start cursor (suc r) (scan_from r o (λ at. scan r (window f start n) at))
    step none none_there next = (omega arith, omega arith)
    step (some at) (lt, here, one) next = elim (Bool-cases (r == 0)) [
      | inl z ↦ rw z (lt, here, ground arith)
      | inr more ↦ rw more (further f start cursor at r _ lt one (next at lt (ground arith)))
    ]

-- The lines that are wanted and not seen, once the last byte before `end` has been looked at.
abbrev pub budget : (ℕ → ℕ) → ℕ → Bool → ℕ → ℕ
budget f end first_byte r = if first_byte && (f (end - 1) == line_feed) then suc r else r

pub count_last-budget :
    (f : ℕ → ℕ) (start n end : ℕ) (first_byte : Bool) (r : ℕ)
    → 0 < n
    → start + n ≡ end
    → count_last first_byte (window f start n) r ≡ budget f end first_byte r
count_last-budget f start n end first_byte r pos e =
    let filled : (n == 0) ≡ false = ground arith in
    let at : start + (n - 1) ≡ end - 1 = omega arith in
    rw (length-window f start n)
      (rw (filled, get_elem?-window f start n (n - 1) (omega arith), at) refl)
