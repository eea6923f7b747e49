-- ===== src/Storage/Writes.antt =====
-- What the writes of `append` keep of a store
-- (src/comfyui_docker_helper/container/runtime/log_storage.py).
use comfyui_docker_helper.Prelude.{
  split_last_lem, split_last, ℕ, ◌+◌, ◌-◌, ◌≤◌, Bool, true, false, not, List, length, take, All,
  none, some, if◌then◌else◌, leb, ◌==◌, ◌||◌, arith, ◌≡◌, refl, sym, subst, ap, Option-cases, inl,
  inr,
}
use comfyui_docker_helper.History.Windows.{window}
use comfyui_docker_helper.Storage.{
  FileSpan, RawLogStore, Check, storage_error, write_failure, Ended, finished, raised,
  no_active_span, RotateAnswers,
}
use comfyui_docker_helper.Storage.Rotation.{open_active, create_active, rotate}
use comfyui_docker_helper.Storage.Appending.{
  TurnAnswers, Turn, stopped, check_turn, active_turn, offered, append_turn, after_rotation,
}
use comfyui_docker_helper.Storage.Catalog.{Fits, All-active}
use comfyui_docker_helper.Storage.Turns.{rotate-Valid}
use comfyui_docker_helper.Storage.Opening.{Valid, Allocates}
use comfyui_docker_helper.Storage.Writing.{Left, GoesOn, TurnValid, write_turn-Valid}

-- A rotation acknowledges nothing.
rotate-acknowledged :
    (a : RotateAnswers) (before : List FileSpan) (active : FileSpan) (s : RawLogStore)
    → (rotate a before active s).1.acknowledged ≡ s.acknowledged
unfolding rotate create_active open_active
rotate-acknowledged a before active s = ground arith

check_turn-Valid :
    (f : ℕ → ℕ) (total : ℕ) (c : Check) (s : RawLogStore) (next : Turn × RawLogStore)
    → Valid f s
    → s.acknowledged ≤ total
    → TurnValid f total next
    → TurnValid f total (check_turn c s next)
unfolding GoesOn
check_turn-Valid f total none s next v e w = w
check_turn-Valid f total (some t) s next v e w = record { valid = v; goes_on = e }

if-TurnValid :
    (f : ℕ → ℕ) (total : ℕ) (b : Bool) (x y : Turn × RawLogStore)
    → TurnValid f total x
    → (b ≡ false → TurnValid f total y)
    → TurnValid f total (if b then x else y)
if-TurnValid f total true x y v w = v
if-TurnValid f total false x y v w = w refl

after_rotation-Valid :
    (f : ℕ → ℕ) (total : ℕ) (remaining : List ℕ) (r : Ended × RawLogStore)
    → Valid f r.1
    → Left f total r.1 remaining
    → TurnValid f total (after_rotation remaining r)
unfolding GoesOn
after_rotation-Valid f total remaining (finished, s) v e = record { valid = v; goes_on = e }
after_rotation-Valid f total remaining (raised t, s) v e = record {
  valid = v;
  goes_on = omega (arith, e.counted);
}
after_rotation-Valid f total remaining (no_active_span, s) v e = record {
  valid = v;
  goes_on = omega (arith, e.counted);
}

active_turn-Valid :
    (f : ℕ → ℕ) (total : ℕ) (a : TurnAnswers) (remaining : List ℕ) (s : RawLogStore)
    (before : List FileSpan) (active : FileSpan)
    → Allocates a.rotation
    → Valid f s
    → split_last s.spans ≡ some (before, active)
    → Left f total s remaining
    → TurnValid f total (active_turn a remaining s before active)
unfolding active_turn GoesOn
active_turn-Valid f total a remaining s before active allocates v l e =
    let failed : TurnValid f total (stopped (raised (storage_error write_failure)), s) = record {
      valid = v;
      goes_on = omega (arith, e.counted);
    } in
    let whole = split_last_lem s.spans before active l in
    let fit =
      All-active (Fits f s.max_size s.acknowledged s.disk) before active
        (subst (All (Fits f s.max_size s.acknowledged s.disk)) whole v.catalogued.fits) in
    let expected = active.offset + active.end - active.start in
    let from_zero = fit.whole_file in
    let ordered = fit.ordered in
    let small = fit.small in
    let within : leb expected s.max_size ≡ true = ground arith in
    if-TurnValid f total (not s.is_open) _ _ failed (λ o.
      check_turn-Valid f total a.examined s _ v (omega (arith, e.counted)) (
        if-TurnValid f total (not a.same_file || not (length (s.disk active.inode) == expected)) _ _
          failed
          (λ found.
            if-TurnValid f total (expected == s.max_size) _ _
              (after_rotation-Valid f total remaining (rotate a.rotation before active s)
                (rotate-Valid f a.rotation before active s allocates l v)
                (let same = sym (rotate-acknowledged a.rotation before active s) in
                  record {
                    bytes = subst (λ k. remaining ≡ window f k (length remaining)) same e.bytes;
                    counted = subst (λ k. k + length remaining ≡ total) same e.counted;
                  }))
              (λ room.
                write_turn-Valid f total a.write (offered s.max_size expected remaining) remaining
                  before active s (s.max_size - expected) v (ground arith) l e
                  (ap
                    (λ b.
                      if b
                      then take (s.max_size - expected) remaining
                      else take (length remaining - (expected - s.max_size)) remaining)
                    within)
                  (omega arith)))))

-- A turn keeps a store valid.
pub append_turn-Valid :
    (f : ℕ → ℕ) (total : ℕ) (a : TurnAnswers) (remaining : List ℕ) (s : RawLogStore)
    → Allocates a.rotation
    → Valid f s
    → Left f total s remaining
    → TurnValid f total (append_turn a remaining s)
unfolding append_turn GoesOn
append_turn-Valid f total a remaining s allocates v e =
    check_turn-Valid f total a.anchor s _ v (omega (arith, e.counted))
      (elim (Option-cases (split_last s.spans)) [
        | inl nothing ↦ rw nothing (record { valid = v; goes_on = omega (arith, e.counted) })
        | inr ((before, active), l) ↦
            rw l (active_turn-Valid f total a remaining s before active allocates v l e)
      ])
