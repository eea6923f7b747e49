-- ===== src/Storage/Writing.antt =====
-- What a write of a turn of `append` keeps of a store
-- (src/comfyui_docker_helper/container/runtime/log_storage.py).
use comfyui_docker_helper.Prelude.{
  split_last_lem, split_last-snoc, split_last, ℕ, ◌+◌, ◌-◌, ◌≤◌, ◌<◌, true, List, [], ◌∷◌, ◌++◌,
  length, length-append, length-take, length-drop, take, drop, min, All, All-append, All-imp, some,
  ltb, ◌==◌, ◌||◌, arith, ◌≡◌, refl, sym, subst, ap, ◌∙◌, Bool-cases, inl, inr,
}
use comfyui_docker_helper.History.Windows.{
  window, window-append, take-window, take-window-min, drop-window,
}
use comfyui_docker_helper.Storage.{FileSpan, RawLogStore, write_file}
use comfyui_docker_helper.Storage.Appending.{
  WriteAnswer, interrupted, refused_write, wrote, Turn, going_on, stopped, write_turn,
}
use comfyui_docker_helper.Storage.Catalog.{
  Fits, Distinct, All-before, All-active, Distinct-snoc, Distinct-before, write_same,
}
use comfyui_docker_helper.Storage.Opening.{Catalogued, Valid, Fits-write}

-- What is left to write is the stream from what is acknowledged up to `total`.
pub record Left (f : ℕ → ℕ) (total : ℕ) (s : RawLogStore) (left : List ℕ) : Type 0 where
  pub bytes : left ≡ window f s.acknowledged (length left)
  pub counted : s.acknowledged + length left ≡ total

unfoldable pub GoesOn : (ℕ → ℕ) → ℕ → Turn × RawLogStore → Type 0
GoesOn f total (going_on left, s) = Left f total s left
GoesOn f total (stopped e, s) = s.acknowledged ≤ total

pub record TurnValid (f : ℕ → ℕ) (total : ℕ) (t : Turn × RawLogStore) : Type 0 where
  pub valid : Valid f t.1
  pub goes_on : GoesOn f total t

-- A bound on what is acknowledged that grows.
later :
    (f : ℕ → ℕ) (max_size acknowledged more : ℕ) (disk : ℕ → List ℕ) (span : FileSpan)
    → acknowledged ≤ more
    → Fits f max_size acknowledged disk span
    → Fits f max_size more disk span
later f max_size acknowledged more disk span le fit = record {
  ordered = fit.ordered;
  whole_file = fit.whole_file;
  content = fit.content;
  below = omega (arith, fit.below);
  small = fit.small;
}

-- The active file with `count` bytes more.
written :
    (f : ℕ → ℕ) (s : RawLogStore) (before : List FileSpan) (active : FileSpan) (count : ℕ)
    → Catalogued f s
    → split_last s.spans ≡ some (before, active)
    → active.end ≡ s.acknowledged
    → active.end + count ≤ active.start + s.max_size
    → Valid f (record s {
      acknowledged = s.acknowledged + count;
      spans = before ++ record active { end = active.end + count } ∷ [];
      disk = write_file active.inode (s.disk active.inode ++ window f s.acknowledged count) s.disk;
    })
written f s before active count c l at small =
    let new = record active { end = active.end + count } in
    let content = s.disk active.inode ++ window f s.acknowledged count in
    let acknowledged = s.acknowledged + count in
    let whole = split_last_lem s.spans before active l in
    let fits = subst (All (Fits f s.max_size s.acknowledged s.disk)) whole c.fits in
    let fit = All-active (Fits f s.max_size s.acknowledged s.disk) before active fits in
    let (distinct, fresh) = Distinct-before before active (subst Distinct whole c.distinct) in
    let others =
      All-imp (Fits f s.max_size s.acknowledged s.disk) (Fits f s.max_size acknowledged s.disk)
        before
        (λ span h. later f s.max_size s.acknowledged acknowledged s.disk span (omega arith) h)
        (All-before (Fits f s.max_size s.acknowledged s.disk) before active fits) in
    record {
      catalogued = record {
        fits =
            All-append (Fits f s.max_size acknowledged (write_file active.inode content s.disk))
              before (new ∷ [])
              (Fits-write f s.max_size acknowledged s.disk active.inode content before fresh others)
              (
                record {
                  ordered = omega (arith, fit.ordered);
                  whole_file = fit.whole_file;
                  content =
                      write_same active.inode content s.disk
                      ∙ ap (λ r. r ++ window f s.acknowledged count) fit.content
                      ∙ window-append f active.start (active.end - active.start) s.acknowledged
                          count (active.end + count - active.start) (omega (arith, fit.ordered))
                          (omega (arith, fit.ordered));
                  below = omega arith;
                  small = small;
                },
                tt,
              );
        distinct = Distinct-snoc before new distinct fresh;
        few = omega (
          arith,
          c.few,
          ap length whole,
          length-append {0} before (active ∷ []),
          length-append {0} before (new ∷ []),
        );
        some_files = c.some_files;
        some_size = c.some_size;
      };
      active = λ o b x e.
          let same : x ≡ new = cc (e, split_last-snoc before new) in
          ap (λ (y : FileSpan). y.end) same ∙ ap (λ k. k + count) at;
    }

wrote-Valid :
    (f : ℕ → ℕ) (total : ℕ) (count : ℕ) (bytes remaining : List ℕ) (before : List FileSpan)
    (active : FileSpan) (s : RawLogStore) (room : ℕ)
    → Valid f s
    → s.is_open ≡ true
    → split_last s.spans ≡ some (before, active)
    → Left f total s remaining
    → bytes ≡ take room remaining
    → active.end + room ≤ active.start + s.max_size
    → 0 < count
    → count ≤ length bytes
    → TurnValid f total (
      going_on (drop count remaining),
      record s {
        acknowledged = s.acknowledged + count;
        spans = before ++ record active { end = active.end + count } ∷ [];
        disk = write_file active.inode (s.disk active.inode ++ take count bytes) s.disk;
      },
    )
unfolding GoesOn
wrote-Valid f total count bytes remaining before active s room v o l e b fits pos le =
    let n = length remaining in
    let at = v.active o before active l in
    let size : length bytes ≡ min room n = ap length b ∙ length-take {0} room remaining in
    let all : take room remaining ≡ window f s.acknowledged (min room n) =
      ap (take room) e.bytes ∙ take-window-min f room s.acknowledged n in
    let part : take count bytes ≡ window f s.acknowledged count =
      ap (take count) (b ∙ all) ∙ take-window f count s.acknowledged (min room n) (omega arith) in
    let rest : length (drop count remaining) ≡ n - count = length-drop {0} count remaining in
    record {
      valid =
          subst
            (λ bs. Valid f (record s {
              acknowledged = s.acknowledged + count;
              spans = before ++ record active { end = active.end + count } ∷ [];
              disk = write_file active.inode (s.disk active.inode ++ bs) s.disk;
            }))
            (sym part) (written f s before active count v.catalogued l at (omega arith));
      goes_on = record {
        bytes =
            ap (drop count) e.bytes
            ∙ drop-window f count s.acknowledged n (s.acknowledged + count) (n - count) refl refl
                (omega arith)
            ∙ ap (window f (s.acknowledged + count)) (sym rest);
        counted = omega (arith, e.counted);
      };
    }

pub write_turn-Valid :
    (f : ℕ → ℕ) (total : ℕ) (w : WriteAnswer) (bytes remaining : List ℕ) (before : List FileSpan)
    (active : FileSpan) (s : RawLogStore) (room : ℕ)
    → Valid f s
    → s.is_open ≡ true
    → split_last s.spans ≡ some (before, active)
    → Left f total s remaining
    → bytes ≡ take room remaining
    → active.end + room ≤ active.start + s.max_size
    → TurnValid f total (write_turn w bytes remaining before active s)
unfolding write_turn GoesOn
write_turn-Valid f total interrupted bytes remaining before active s room v o l e b fits = record {
  valid = v;
  goes_on = e;
}
write_turn-Valid f total refused_write bytes remaining before active s room v o l e b fits =
    record { valid = v; goes_on = omega (arith, e.counted) }
write_turn-Valid f total (wrote count) bytes remaining before active s room v o l e b fits =
    elim (Bool-cases (count == 0 || ltb (length bytes) count)) [
      | inl bad ↦ rw bad (record { valid = v; goes_on = omega (arith, e.counted) })
      | inr fine ↦ rw fine (
          wrote-Valid f total count bytes remaining before active s room v o l e b fits
            (ground arith) (ground arith))
    ]
