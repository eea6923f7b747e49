-- ===== src/Storage/Readers.antt =====
-- What a reader gets by a span of a snapshot, whatever is appended meanwhile
-- (src/comfyui_docker_helper/container/runtime/log_storage.py).
use comfyui_docker_helper.Prelude.{
  ℕ, zero, suc, List, [], ◌∷◌, length, All, some, get_elem?, arith, ◌≡◌, ◌≢◌, sym, subst, inl,
}
use comfyui_docker_helper.History.Windows.{window}
use comfyui_docker_helper.Storage.{FileSpan, RawLogStore, Check}
use comfyui_docker_helper.Storage.Appending.{TurnAnswers, append_store}
use comfyui_docker_helper.Storage.Retained.{read_store}
use comfyui_docker_helper.Storage.Catalog.{Fits, Fresh, Distinct}
use comfyui_docker_helper.Storage.Opening.{Valid}
use comfyui_docker_helper.Storage.Appends.{AllocatesAll, append_store_lem}
use comfyui_docker_helper.Storage.Snapshots.{append_store-With}
use comfyui_docker_helper.Storage.Reading.{
  Same, Same-Stable, Remembered, FileRight, read_store-FileRight,
}

-- A call of `append` with the system's answers.
pub record AppendCall : Type 0 where
  pub answers : List TurnAnswers
  pub start : ℕ
  pub bytes : List ℕ

unfoldable pub append_calls : List AppendCall → RawLogStore → RawLogStore
append_calls [] s = s
append_calls (c ∷ calls) s = append_calls calls (append_store c.answers c.start c.bytes s).1

-- The calls publish bytes of the stream.
abbrev pub Publishes : (ℕ → ℕ) → AppendCall → Type 0
Publishes f c = AllocatesAll c.answers × (c.bytes ≡ window f c.start (length c.bytes))

pub append_calls-Remembered :
    (f : ℕ → ℕ) (span : FileSpan) (calls : List AppendCall) (s : RawLogStore)
    → All (Publishes f) calls
    → Remembered f span s
    → Remembered f span (append_calls calls s)
unfolding append_calls
append_calls-Remembered f span [] s publish r = r
append_calls-Remembered f span (c ∷ calls) s ((allocates, e), publish) r =
    append_calls-Remembered f span calls (append_store c.answers c.start c.bytes s).1 publish
      (record {
        valid = (append_store_lem f c.answers c.start c.bytes s allocates r.valid e).valid;
        kept =
            append_store-With span.end (Same span) (Same-Stable span) c.answers c.start c.bytes s
              r.kept;
      })

Distinct-Same :
    (k : ℕ) (span : FileSpan) (spans : List FileSpan)
    → Distinct spans
    → get_elem? spans k ≡ some span
    → span.offset ≡ 0
    → All (Same span) spans
Distinct-Same k span [] d e zero_offset = tt
Distinct-Same zero span (x ∷ spans) (fresh, d) e zero_offset =
    let here : x ≡ span = cc e in
    (
      (λ same. inl (rw here (omega arith))),
      others spans (subst (λ (y : FileSpan). Fresh y.inode spans) here fresh),
    )
  where
    others : (xs : List FileSpan) → Fresh span.inode xs → All (Same span) xs
    others [] h = tt
    others (y ∷ ys) (differ, h) = ((λ same. absurd (differ same)), others ys h)
Distinct-Same (suc k) span (x ∷ spans) (fresh, d) e zero_offset = (
  (λ same. absurd (member k spans fresh e (sym same))),
  Distinct-Same k span spans d e zero_offset,
)
  where
    member :
        (i : ℕ) (xs : List FileSpan)
        → Fresh x.inode xs
        → get_elem? xs i ≡ some span
        → span.inode ≢ x.inode
    member i [] h g = absurd (cc g)
    member zero (y ∷ ys) (differ, h) g =
        let here : y ≡ span = cc g in subst (λ (z : FileSpan). z.inode ≢ x.inode) here differ
    member (suc i) (y ∷ ys) (differ, h) g = member i ys h g

nth_All :
    (P : FileSpan → Type 0) (k : ℕ) (spans : List FileSpan) (span : FileSpan)
    → All P spans
    → get_elem? spans k ≡ some span
    → P span
nth_All P k [] span h e = absurd (cc e)
nth_All P zero (x ∷ spans) span (p, h) e = let here : x ≡ span = cc e in subst P here p
nth_All P (suc k) (x ∷ spans) span (p, h) e = nth_All P k spans span h e

pub captured_Remembered :
    (f : ℕ → ℕ) (k : ℕ) (span : FileSpan) (s : RawLogStore)
    → Valid f s
    → get_elem? s.spans k ≡ some span
    → Remembered f span s
captured_Remembered f k span s v e =
    let fit =
      nth_All (Fits f s.max_size s.acknowledged s.disk) k s.spans span v.catalogued.fits e in
    record {
      valid = v;
      kept = record {
        reached = fit.below;
        all = Distinct-Same k span s.spans v.catalogued.distinct e fit.whole_file;
      };
    }

-- A reader with a span of a snapshot gets the bytes of the stream that stand there or an error, but
-- never other bytes, whatever is appended, rotated and removed between the snapshot and its first
-- attempt, and between its attempts; also where a new file has the inode of one that was removed.
pub snapshot_read_right :
    (f : ℕ → ℕ) (s : RawLogStore) (k : ℕ) (span : FileSpan) (calls more : List AppendCall)
    (first second : Check) (start size : ℕ)
    → Valid f s
    → get_elem? s.spans k ≡ some span
    → All (Publishes f) calls
    → All (Publishes f) more
    → FileRight f start size (
        read_store first second span start size
          (append_calls calls s)
          (append_calls more (append_calls calls s)))
snapshot_read_right f s k span calls more first second start size v e publish publish' =
    let r = append_calls-Remembered f span calls s publish (captured_Remembered f k span s v e) in
    read_store-FileRight f first second span start size (append_calls calls s)
      (append_calls more (append_calls calls s)) r
      (append_calls-Remembered f span more (append_calls calls s) publish' r)
