-- ===== src/Storage/Turns.antt =====
-- What the turns of `append` keep of a store
-- (src/comfyui_docker_helper/container/runtime/log_storage.py).
use comfyui_docker_helper.Prelude.{
  ◌∙◌, split_last-snoc, Bool, split_last_lem, split_last, ℕ, ◌+◌, false, not, List, [], ◌∷◌, ◌++◌,
  length, length-append, length-drop, drop, All, All-append, some, leb, arith, ◌≡◌, refl, sym,
  subst, ap, Option-cases, inl, inr,
}
use comfyui_docker_helper.Storage.{FileSpan, RawLogStore, RotateAnswers, sequence_limit}
use comfyui_docker_helper.Storage.Rotation.{remove_oldest, create_active, rotate}
use comfyui_docker_helper.Storage.Catalog.{
  Fits, Distinct, All-before, All-active, Distinct-snoc, Distinct-before, remove_oldest-drop,
  remove_oldest-few, All-drop, Distinct-drop,
}
use comfyui_docker_helper.Storage.Opening.{
  Catalogued, Valid, Allocates, shut_Valid, check_then-Keeps, if-Keeps, open_active-Valid,
}

-- The catalog without its oldest files.
Catalogued-drop :
    (f : ℕ → ℕ) (s : RawLogStore) (k : ℕ)
    → Catalogued f s
    → Catalogued f (record s { spans = drop k s.spans })
Catalogued-drop f s k c = record {
  fits = All-drop (Fits f s.max_size s.acknowledged s.disk) k s.spans c.fits;
  distinct = Distinct-drop k s.spans c.distinct;
  few = omega (arith, length-drop {0} k s.spans, c.few);
  some_files = c.some_files;
  some_size = c.some_size;
}

create_active-Valid :
    (f : ℕ → ℕ) (a : RotateAnswers) (s : RawLogStore)
    → Allocates a
    → Catalogued f s
    → s.is_open ≡ false
    → Valid f (create_active a s).1
unfolding create_active
create_active-Valid f a s allocates c shut =
    let result = remove_oldest (length s.spans) a.removed s.max_files s.spans in
    let (k, dropped) = remove_oldest-drop (length s.spans) a.removed s.max_files s.spans in
    let kept : Catalogued f (record s { spans = result.1 }) =
      subst (λ spans. Catalogued f (record s { spans = spans })) (sym dropped)
        (Catalogued-drop f s k c) in
    elim (Option-cases result.0) [
      | inr (t, bad) ↦ rw bad (shut_Valid f (record s { spans = result.1 }) kept shut)
      | inl fine ↦ rw fine (
          open_active-Valid f a (record s { spans = result.1 }) allocates kept
            (remove_oldest-few (length s.spans) a.removed s.max_files s.spans c.some_files
              (omega arith) fine)
            shut)
    ]

-- A store under another sequence number.
renumbered : (f : ℕ → ℕ) (s : RawLogStore) (n : ℕ) → Valid f s → Valid f (record s { sequence = n })
renumbered f s n v = record {
  catalogued = record {
    fits = v.catalogued.fits;
    distinct = v.catalogued.distinct;
    few = v.catalogued.few;
    some_files = v.catalogued.some_files;
    some_size = v.catalogued.some_size;
  };
  active = v.active;
}

-- The active file under its archive's name.
archived :
    (f : ℕ → ℕ) (s : RawLogStore) (n name : ℕ) (open_still : Bool) (before : List FileSpan)
    (active : FileSpan)
    → split_last s.spans ≡ some (before, active)
    → Catalogued f s
    → Catalogued f (record s {
      sequence = n;
      is_open = open_still;
      spans = before ++ record active { name = name } ∷ [];
    })
archived f s n name open_still before active l c =
    let whole = split_last_lem s.spans before active l in
    let fits = subst (All (Fits f s.max_size s.acknowledged s.disk)) whole c.fits in
    let fit = All-active (Fits f s.max_size s.acknowledged s.disk) before active fits in
    let (distinct, fresh) = Distinct-before before active (subst Distinct whole c.distinct) in
    record {
      fits =
          All-append (Fits f s.max_size s.acknowledged s.disk) before
            (record active { name = name } ∷ [])
            (All-before (Fits f s.max_size s.acknowledged s.disk) before active fits)
            (
              record {
                ordered = fit.ordered;
                whole_file = fit.whole_file;
                content = fit.content;
                below = fit.below;
                small = fit.small;
              },
              tt,
            );
      distinct = Distinct-snoc before (record active { name = name }) distinct fresh;
      few = omega (
        arith,
        c.few,
        ap length whole,
        length-append {0} before (active ∷ []),
        length-append {0} before (record active { name = name } ∷ []),
      );
      some_files = c.some_files;
      some_size = c.some_size;
    }

-- The descriptor of the renamed file could not be closed.
still_open :
    (f : ℕ → ℕ) (s : RawLogStore) (n : ℕ) (before : List FileSpan) (active : FileSpan)
    → split_last s.spans ≡ some (before, active)
    → Valid f s
    → Valid f (record s { sequence = n; spans = before ++ record active { name = n } ∷ [] })
still_open f s n before active l v =
    let renamed : FileSpan = record active { name = n } in
    record {
      catalogued = archived f s n n s.is_open before active l v.catalogued;
      active = λ o front last at.
          let same : some (front, last) ≡ some (before, renamed) =
            sym at ∙ split_last-snoc before renamed in
          let end : last ≡ renamed = cc same in
          ap (λ (span : FileSpan). span.end) end ∙ v.active o before active l;
    }

pub rotate-Valid :
    (f : ℕ → ℕ) (a : RotateAnswers) (before : List FileSpan) (active : FileSpan) (s : RawLogStore)
    → Allocates a
    → split_last s.spans ≡ some (before, active)
    → Valid f s
    → Valid f (rotate a before active s).1
unfolding rotate
rotate-Valid f a before active s allocates l v =
    let again = renumbered f s (s.sequence + 1) v in
    check_then-Keeps (Valid f) a.anchor s _ v (
      check_then-Keeps (Valid f) a.examined s _ v (
        if-Keeps (Valid f) (not a.same_file) _ _ v (
          if-Keeps (Valid f) (leb sequence_limit (s.sequence + 1)) _ _ again (
            check_then-Keeps (Valid f) a.name_free (record s { sequence = s.sequence + 1 }) _ again
              (if-Keeps (Valid f) (not a.synced) _ _ again (
                if-Keeps (Valid f) (not a.renamed) _ _ again (
                  if-Keeps (Valid f) (not a.closed) _ _
                    (still_open f s (s.sequence + 1) before active l v)
                    (create_active-Valid f a
                      (record s {
                        sequence = s.sequence + 1;
                        is_open = false;
                        spans = before ++ record active { name = s.sequence + 1 } ∷ [];
                      })
                      allocates
                      (archived f s (s.sequence + 1) (s.sequence + 1) false before active l
                        v.catalogued)
                      refl))))))))
