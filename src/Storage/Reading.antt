-- ===== src/Storage/Reading.antt =====
-- What a reader gets by a span of an earlier snapshot
-- (src/comfyui_docker_helper/container/runtime/log_storage.py).
use comfyui_docker_helper.Prelude.{
  ℕ, ◌+◌, ◌-◌, ◌≤◌, List, [], ◌∷◌, take, drop, All, Option, none, some, if◌then◌else◌, ltb, ◌==◌,
  ◌||◌, arith, ◌≡◌, refl, sym, subst, ap, ◌∙◌, Bool-cases, Option-cases, inl, inr, ◌⊎◌,
}
use comfyui_docker_helper.History.Windows.{window, take-window, drop-window}
use comfyui_docker_helper.History.{log_read_bytes}
use comfyui_docker_helper.Storage.{FileSpan, RawLogStore, Check}
use comfyui_docker_helper.Storage.Retained.{
  find_span, if_retained, retained_span, read_file, FileRead, file_bytes, file_unavailable,
  out_of_range, first_read, read_store,
}
use comfyui_docker_helper.Storage.Catalog.{Fits}
use comfyui_docker_helper.Storage.Opening.{Valid}
use comfyui_docker_helper.Storage.Snapshots.{Stable, With}

-- A file of the catalog under the inode of a captured span either is the captured one, whose bytes
-- stand where the span says, or begins behind it.
abbrev pub Same : FileSpan → FileSpan → Type 0
Same span current =
    current.inode ≡ span.inode
    → (span.offset + current.start ≡ span.start) ⊎ (span.end ≤ current.start)

pub Same-Stable : (span : FileSpan) → Stable span.end (Same span)
Same-Stable span = record { renamed = λ current name end h. h; started = λ current le e. inr le }

-- A store, and a span that was captured of it or of an earlier state.
pub record Remembered (f : ℕ → ℕ) (span : FileSpan) (s : RawLogStore) : Type 0 where
  pub valid : Valid f s
  pub kept : With span.end (Same span) s

found_Fits :
    (P : FileSpan → Type 0) (inode : ℕ) (spans : List FileSpan) (current : FileSpan)
    → All P spans
    → find_span inode spans ≡ some current
    → P current × (current.inode ≡ inode)
unfolding find_span
found_Fits P inode [] current h e = absurd (cc e)
found_Fits P inode (span ∷ spans) current (p, h) e = elim (Bool-cases (span.inode == inode)) [
  | inl same ↦
      let here : span ≡ current =
        cc (e, ap (λ b. if b then some span else find_span inode spans) same) in
      (subst P here p, subst (λ (x : FileSpan). x.inode ≡ inode) here (ground arith))
  | inr other ↦
      found_Fits P inode spans current h
        (sym (ap (λ b. if b then some span else find_span inode spans) other) ∙ e)
]

-- A read at a file that is retained.
retained_read :
    (f : ℕ → ℕ) (max_size acknowledged start size : ℕ) (span current : FileSpan) (disk : ℕ → List ℕ)
    → Fits f max_size acknowledged disk current
    → current.inode ≡ span.inode
    → Same span current
    → span.start ≤ start
    → start + size ≤ span.end
    → current.start ≤ span.start
    → span.end ≤ current.end
    → take size (drop (span.offset + start - span.start) (disk span.inode)) ≡ window f start size
retained_read f max_size acknowledged start size span current disk fit e same low high begins ends =
    elim (same e) [
      | inr behind ↦ let nothing : size ≡ 0 = omega arith in rw nothing refl
      | inl at ↦
          let content : disk span.inode ≡ window f current.start (current.end - current.start) =
            ap disk (sym e) ∙ fit.content in
          rw content (
            rw
              (drop-window f (span.offset + start - span.start) current.start
                (current.end - current.start) start (current.end - start) (omega arith)
                (omega arith) (omega arith))
              (take-window f size start (current.end - start) (omega arith)))
    ]

-- A read that gives bytes gives those of the stream.
unfoldable pub FileRight : (ℕ → ℕ) → ℕ → ℕ → FileRead → Type 0
FileRight f start size (file_bytes bytes) = bytes ≡ window f start size
FileRight f start size file_unavailable = Unit
FileRight f start size out_of_range = Unit

attempt_right :
    (f : ℕ → ℕ) (c : Check) (span : FileSpan) (start size : ℕ) (s : RawLogStore)
    (current : FileSpan) (bytes : List ℕ)
    → Remembered f span s
    → span.start ≤ start
    → start + size ≤ span.end
    → retained_span span s ≡ some current
    → read_file c span start size s ≡ some bytes
    → bytes ≡ window f start size
unfolding retained_span read_file
attempt_right f (some t) span start size s current bytes r low high e b = absurd (cc b)
attempt_right f none span start size s current bytes r low high e b =
    elim (Option-cases (find_span span.inode s.spans)) [
      | inl nothing ↦ absurd (cc (e, ap (if_retained s.closed span) nothing))
      | inr (found, at) ↦
          let (fit, same) =
            found_Fits (Fits f s.max_size s.acknowledged s.disk) span.inode s.spans found
              r.valid.catalogued.fits at in
          let (kept, same') = found_Fits (Same span) span.inode s.spans found r.kept.all at in
          let held = sym (ap (if_retained s.closed span) at) ∙ e in
          let right =
            retained_read f s.max_size s.acknowledged start size span found s.disk fit same kept low
              high (ground arith) (ground arith) in
          ground (arith, right)
    ]

first_read_right :
    (f : ℕ → ℕ) (start size : ℕ) (a b : Option FileSpan) (x y : Option (List ℕ))
    → ((current : FileSpan) (bytes : List ℕ)
        → a ≡ some current
        → x ≡ some bytes
        → bytes ≡ window f start size)
    → ((current : FileSpan) (bytes : List ℕ)
        → b ≡ some current
        → y ≡ some bytes
        → bytes ≡ window f start size)
    → FileRight f start size (first_read a x b y)
unfolding FileRight
first_read_right f start size none b x y p q = tt
first_read_right f start size (some current) b (some bytes) y p q = p current bytes refl refl
first_read_right f start size (some current) none none y p q = tt
first_read_right f start size (some current) (some next) none none p q =
    elim (Bool-cases (next.name == current.name)) [ inl e ↦ rw e tt | inr e ↦ rw e tt ]
first_read_right f start size (some current) (some next) none (some bytes) p q =
    elim (Bool-cases (next.name == current.name)) [
      | inl e ↦ rw e tt
      | inr e ↦ rw e (q next bytes refl refl)
    ]

pub read_store-FileRight :
    (f : ℕ → ℕ) (first second : Check) (span : FileSpan) (start size : ℕ) (s s' : RawLogStore)
    → Remembered f span s
    → Remembered f span s'
    → FileRight f start size (read_store first second span start size s s')
unfolding read_store FileRight
read_store-FileRight f first second span start size s s' r r' =
    elim (Bool-cases
      (ltb log_read_bytes size || ltb start span.start || ltb span.end (start + size))) [
        | inl e ↦ rw e tt
        | inr e ↦
            let low : span.start ≤ start = ground arith in
            let high : start + size ≤ span.end = ground arith in
            rw e (
              first_read_right f start size (retained_span span s) (retained_span span s')
                (read_file first span start size s) (read_file second span start size s')
                (λ current bytes a b.
                  attempt_right f first span start size s current bytes r low high a b)
                (λ current bytes a b.
                  attempt_right f second span start size s' current bytes r' low high a b))
      ]
