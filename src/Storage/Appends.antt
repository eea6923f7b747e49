-- ===== src/Storage/Appends.antt =====
-- What `append` promises (src/comfyui_docker_helper/container/runtime/log_storage.py).
use comfyui_docker_helper.Prelude.{
  ℕ, ◌+◌, ◌≤◌, Bool, true, false, not, List, [], ◌∷◌, length, All, if◌then◌else◌, ◌==◌, ◌||◌, arith,
  ◌≡◌, subst, refl,
}
use comfyui_docker_helper.History.Windows.{window}
use comfyui_docker_helper.Storage.{RawLogStore}
use comfyui_docker_helper.Storage.Appending.{
  TurnAnswers, Turn, going_on, stopped, append_turn, go_on, AppendResult, appended, append_failed,
  not_sequential, still_running, append_loop, append_store,
}
use comfyui_docker_helper.Storage.Opening.{Valid, Allocates}
use comfyui_docker_helper.Storage.Writes.{append_turn-Valid}
use comfyui_docker_helper.Storage.Writing.{Left, GoesOn, TurnValid}

-- The systems that allocate inodes that are free.
abbrev pub AllocatesAll : List TurnAnswers → Type 0
AllocatesAll answers = All (λ (a : TurnAnswers). Allocates a.rotation) answers

-- What a result says of what was acknowledged before and is to be acknowledged in the end.
unfoldable pub Counted : ℕ → ℕ → AppendResult × RawLogStore → Type 0
Counted from total (appended, s) = s.acknowledged ≡ total
Counted from total (append_failed e, s) = s.acknowledged ≤ total
Counted from total (not_sequential, s) = s.acknowledged ≡ from
Counted from total (still_running left, s) = s.acknowledged + length left ≡ total

pub record Appended (f : ℕ → ℕ) (from total : ℕ) (r : AppendResult × RawLogStore) : Type 0 where
  pub valid : Valid f r.1
  pub counted : Counted from total r

go_on-Appended :
    (f : ℕ → ℕ) (from total : ℕ) (t : Turn × RawLogStore)
    (rest : List ℕ → RawLogStore → AppendResult × RawLogStore)
    → TurnValid f total t
    → ((left : List ℕ) (next : RawLogStore)
        → Valid f next
        → Left f total next left
        → Appended f from total (rest left next))
    → Appended f from total (go_on t rest)
unfolding GoesOn Counted
go_on-Appended f from total (going_on left, next) rest t more = more left next t.valid t.goes_on
go_on-Appended f from total (stopped e, next) rest t more = record {
  valid = t.valid;
  counted = t.goes_on;
}

append_loop-Appended :
    (f : ℕ → ℕ) (from total : ℕ) (answers : List TurnAnswers) (remaining : List ℕ) (s : RawLogStore)
    → AllocatesAll answers
    → Valid f s
    → Left f total s remaining
    → Appended f from total (append_loop answers remaining s)
unfolding append_loop Counted
append_loop-Appended f from total answers [] s allocates v left = record {
  valid = v;
  counted = omega (arith, left.counted);
}
append_loop-Appended f from total [] (b ∷ remaining) s allocates v left = record {
  valid = v;
  counted = left.counted;
}
append_loop-Appended f from total (a ∷ answers) (b ∷ remaining) s (allocates, more) v left =
    go_on-Appended f from total (append_turn a (b ∷ remaining) s)
      (λ rest next. append_loop answers rest next)
      (append_turn-Valid f total a (b ∷ remaining) s allocates v left)
      (λ rest next w l. append_loop-Appended f from total answers rest next more w l)

if-Appended :
    (f : ℕ → ℕ) (from total : ℕ) (b : Bool) (x y : AppendResult × RawLogStore)
    → Appended f from total x
    → (b ≡ false → Appended f from total y)
    → Appended f from total (if b then x else y)
if-Appended f from total true x y v w = v
if-Appended f from total false x y v w = w refl

-- Whatever the system answers, an append of bytes of the stream leaves a valid store: every file of
-- the catalog holds exactly the bytes of the stream that its span says, there are at most `max_files`
-- files of at most `max_size` bytes, and their inodes differ. What is acknowledged is the whole of the
-- data if the append succeeds, all but what remains while it is still running, no more than the data if
-- it fails, and nothing if the data does not begin where the last ended.
pub append_store_lem :
    (f : ℕ → ℕ) (answers : List TurnAnswers) (start : ℕ) (bytes : List ℕ) (s : RawLogStore)
    → AllocatesAll answers
    → Valid f s
    → bytes ≡ window f start (length bytes)
    → Appended f s.acknowledged (s.acknowledged + length bytes) (append_store answers start bytes s)
unfolding append_store Counted
append_store_lem f answers start bytes s allocates v e =
    let total = s.acknowledged + length bytes in
    if-Appended f s.acknowledged total (not s.writable || s.closed) _ _
      (record { valid = v; counted = omega arith })
      (λ usable.
        if-Appended f s.acknowledged total (not (start == s.acknowledged)) _ _
          (record { valid = v; counted = refl })
          (λ here. append_loop-Appended f s.acknowledged total answers bytes s allocates v (record {
            bytes = subst (λ k. bytes ≡ window f k (length bytes)) (ground arith) e;
            counted = refl;
          })))
