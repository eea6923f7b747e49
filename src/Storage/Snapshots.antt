-- ===== src/Storage/Snapshots.antt =====
-- What every append keeps of the catalog's files, for the readers of earlier snapshots
-- (src/comfyui_docker_helper/container/runtime/log_storage.py).
use comfyui_docker_helper.Prelude.{
  Bool, split_last_lem, split_last, ℕ, ◌+◌, ◌-◌, ◌≤◌, false, not, List, [], ◌∷◌, ◌++◌, length, All,
  All-append, none, some, ltb, leb, ◌==◌, ◌||◌, arith, ◌≡◌, refl, sym, subst, Option-cases, inl,
  inr,
}
use comfyui_docker_helper.Storage.{
  FileSpan, RawLogStore, Check, Ended, finished, raised, no_active_span, RotateAnswers,
  log_max_catalog_files, sequence_limit,
}
use comfyui_docker_helper.Storage.Rotation.{remove_oldest, open_active, create_active, rotate}
use comfyui_docker_helper.Storage.Appending.{
  TurnAnswers, WriteAnswer, interrupted, refused_write, wrote, Turn, going_on, stopped, offered,
  write_turn, append_turn, after_rotation, check_turn, active_turn, AppendResult, append_loop,
  append_store, go_on,
}
use comfyui_docker_helper.Storage.Catalog.{All-before, All-active, remove_oldest-drop, All-drop}
use comfyui_docker_helper.Storage.Opening.{check_then-Keeps, if-Keeps}

-- A property of the files that does not depend on their names and ends, and holds of every file that
-- begins no earlier than `from`.
pub record Stable (from : ℕ) (Q : FileSpan → Type 0) : Type 0 where
  pub renamed :
      (span : FileSpan) (name end : ℕ) → Q span → Q (record span { name = name; end = end })
  pub started : (span : FileSpan) → from ≤ span.start → Q span

-- A state from which the offset `from` is acknowledged, with the property.
pub record With (from : ℕ) (Q : FileSpan → Type 0) (s : RawLogStore) : Type 0 where
  pub reached : from ≤ s.acknowledged
  pub all : All Q s.spans

module _ (from : ℕ) (Q : FileSpan → Type 0) (stable : Stable from Q) where
  open_active-With :
      (a : RotateAnswers) (s : RawLogStore) → With from Q s → With from Q (open_active a s).1
  unfolding open_active
  open_active-With a s w = check_then-Keeps (With from Q) a.anchor_again s _ w (
      if-Keeps (With from Q) (leb log_max_catalog_files (length s.spans)) _ _ w (
        check_then-Keeps (With from Q) a.opened s _ w (record {
          reached = w.reached;
          all = All-append Q s.spans _ w.all (stable.started _ w.reached, tt);
        })))

  create_active-With :
      (a : RotateAnswers) (s : RawLogStore) → With from Q s → With from Q (create_active a s).1
  unfolding create_active
  create_active-With a s w =
      let result = remove_oldest (length s.spans) a.removed s.max_files s.spans in
      let (k, dropped) = remove_oldest-drop (length s.spans) a.removed s.max_files s.spans in
      let kept : With from Q (record s { spans = result.1 }) = record {
        reached = w.reached;
        all = subst (All Q) (sym dropped) (All-drop Q k s.spans w.all);
      } in
      check_then-Keeps (With from Q) result.0 (record s { spans = result.1 }) _ kept
        (open_active-With a (record s { spans = result.1 }) kept)

  -- The last file under another name or with another end.
  last_changed :
      (s next : RawLogStore) (before : List FileSpan) (active : FileSpan) (name end : ℕ)
      → split_last s.spans ≡ some (before, active)
      → With from Q s
      → s.acknowledged ≤ next.acknowledged
      → next.spans ≡ before ++ record active { name = name; end = end } ∷ []
      → With from Q next
  last_changed s next before active name end l w le e =
      let all = subst (All Q) (split_last_lem s.spans before active l) w.all in
      record {
        reached = omega (arith, w.reached);
        all = subst (All Q) (sym e) (
            All-append Q before _ (All-before Q before active all)
              (stable.renamed active name end (All-active Q before active all), tt));
      }

  rotate-With :
      (a : RotateAnswers) (before : List FileSpan) (active : FileSpan) (s : RawLogStore)
      → split_last s.spans ≡ some (before, active)
      → With from Q s
      → With from Q (rotate a before active s).1
  unfolding rotate
  rotate-With a before active s l w =
      let again : With from Q (record s { sequence = s.sequence + 1 }) = record {
        reached = w.reached;
        all = w.all;
      } in
      let archive = λ (open_still : Bool).
        last_changed s
          (record s {
            sequence = s.sequence + 1;
            is_open = open_still;
            spans = before ++ record active { name = s.sequence + 1 } ∷ [];
          })
          before active (s.sequence + 1) active.end l w (omega arith) refl in
      check_then-Keeps (With from Q) a.anchor s _ w (
        check_then-Keeps (With from Q) a.examined s _ w (
          if-Keeps (With from Q) (not a.same_file) _ _ w (
            if-Keeps (With from Q) (leb sequence_limit (s.sequence + 1)) _ _ again (
              check_then-Keeps (With from Q) a.name_free (record s { sequence = s.sequence + 1 }) _
                again
                (if-Keeps (With from Q) (not a.synced) _ _ again (
                  if-Keeps (With from Q) (not a.renamed) _ _ again (
                    if-Keeps (With from Q) (not a.closed) _ _ (archive s.is_open)
                      (create_active-With a _ (archive false)))))))))

  write_turn-With :
      (a : WriteAnswer) (bytes remaining : List ℕ) (before : List FileSpan) (active : FileSpan)
      (s : RawLogStore)
      → split_last s.spans ≡ some (before, active)
      → With from Q s
      → With from Q (write_turn a bytes remaining before active s).1
  unfolding write_turn
  write_turn-With interrupted bytes remaining before active s l w = w
  write_turn-With refused_write bytes remaining before active s l w = w
  write_turn-With (wrote count) bytes remaining before active s l w =
      if-Keeps (With from Q) (count == 0 || ltb (length bytes) count) _ _ w
        (last_changed s _ before active active.name (active.end + count) l w (omega arith) refl)

  check_turn-With :
      (c : Check) (s : RawLogStore) (next : Turn × RawLogStore)
      → With from Q s
      → With from Q next.1
      → With from Q (check_turn c s next).1
  check_turn-With none s next w v = v
  check_turn-With (some t) s next w v = w

  after_rotation-With :
      (remaining : List ℕ) (r : Ended × RawLogStore)
      → With from Q r.1
      → With from Q (after_rotation remaining r).1
  after_rotation-With remaining (finished, s) w = w
  after_rotation-With remaining (raised t, s) w = w
  after_rotation-With remaining (no_active_span, s) w = w

  active_turn-With :
      (a : TurnAnswers) (remaining : List ℕ) (s : RawLogStore) (before : List FileSpan)
      (active : FileSpan)
      → split_last s.spans ≡ some (before, active)
      → With from Q s
      → With from Q (active_turn a remaining s before active).1
  unfolding active_turn
  active_turn-With a remaining s before active l w =
      let expected = active.offset + active.end - active.start in
      if-Keeps (With from Q) (not s.is_open) _ _ w (
        check_turn-With a.examined s _ w (
          if-Keeps (With from Q) (not a.same_file || not (length (s.disk active.inode) == expected))
            _ _ w
            (if-Keeps (With from Q) (expected == s.max_size) _ _
              (after_rotation-With remaining (rotate a.rotation before active s)
                (rotate-With a.rotation before active s l w))
              (write_turn-With a.write (offered s.max_size expected remaining) remaining before
                active s l w))))

  append_turn-With :
      (a : TurnAnswers) (remaining : List ℕ) (s : RawLogStore)
      → With from Q s
      → With from Q (append_turn a remaining s).1
  unfolding append_turn
  append_turn-With a remaining s w =
      check_turn-With a.anchor s _ w (elim (Option-cases (split_last s.spans)) [
        | inl nothing ↦ rw nothing w
        | inr ((before, active), l) ↦ rw l (active_turn-With a remaining s before active l w)
      ])

  go_on-With :
      (t : Turn × RawLogStore) (rest : List ℕ → RawLogStore → AppendResult × RawLogStore)
      → With from Q t.1
      → ((left : List ℕ) (next : RawLogStore) → With from Q next → With from Q (rest left next).1)
      → With from Q (go_on t rest).1
  go_on-With (going_on left, next) rest w more = more left next w
  go_on-With (stopped e, next) rest w more = w

  append_loop-With :
      (answers : List TurnAnswers) (remaining : List ℕ) (s : RawLogStore)
      → With from Q s
      → With from Q (append_loop answers remaining s).1
  unfolding append_loop
  append_loop-With answers [] s w = w
  append_loop-With [] (b ∷ remaining) s w = w
  append_loop-With (a ∷ answers) (b ∷ remaining) s w =
      go_on-With (append_turn a (b ∷ remaining) s) (λ left next. append_loop answers left next)
        (append_turn-With a (b ∷ remaining) s w)
        (λ left next v. append_loop-With answers left next v)

  pub append_store-With :
      (answers : List TurnAnswers) (start : ℕ) (bytes : List ℕ) (s : RawLogStore)
      → With from Q s
      → With from Q (append_store answers start bytes s).1
  unfolding append_store
  append_store-With answers start bytes s w =
      if-Keeps (With from Q) (not s.writable || s.closed) _ _ w (
        if-Keeps (With from Q) (not (start == s.acknowledged)) _ _ w
          (append_loop-With answers bytes s w))
