-- ===== src/Delivery/Sorting.antt =====
-- The sort of `_drain_once` in src/comfyui_docker_helper/container/runtime/event_delivery.py puts a
-- log that was split over two queues together again.
use comfyui_docker_helper.Prelude.{
  ℕ, suc, ◌+◌, ◌≤◌, ◌<◌, ◌≡◌, ◌≢◌, refl, ◌∙◌, ap, Bool, true, false, not, List, [], ◌∷◌, ◌++◌,
  length, filter, All, All-filter, All-imp, arith,
}
use comfyui_docker_helper.Delivery.{QueuedEvent}
use comfyui_docker_helper.Delivery.Drain.{insert_queued, sort_queued}

module _ {P : Type 0} where
  -- The numbers of the queued events run on from `k`.
  abbrev pub Numbered : ℕ → List (QueuedEvent P) → Type 0
  Numbered k [] = Unit
  Numbered k (q ∷ rest) = (q.sequence ≡ k) × Numbered (suc k) rest

  Numbered-above :
      (k : ℕ) (log : List (QueuedEvent P)) → Numbered k log → All (λ q. k ≤ q.sequence) log
  Numbered-above k [] h = tt
  Numbered-above k (q ∷ rest) h = (
    omega arith,
    All-imp (λ r. suc k ≤ r.sequence) (λ r. k ≤ r.sequence) rest (λ r m. omega arith)
        (Numbered-above (suc k) rest h.1),
  )

  pub Numbered-append :
      (k : ℕ) (log : List (QueuedEvent P)) (q : QueuedEvent P)
      → Numbered k log
      → q.sequence ≡ k + length log
      → Numbered k (log ++ q ∷ [])
  Numbered-append k [] q h e = (omega arith, tt)
  Numbered-append k (r ∷ rest) q h e = (h.0, Numbered-append (suc k) rest q h.1 (omega arith))

  insert-least :
      (q : QueuedEvent P) (l : List (QueuedEvent P))
      → All (λ r. q.sequence ≤ r.sequence) l
      → insert_queued q l ≡ q ∷ l
  unfolding insert_queued
  insert-least q [] h = refl
  insert-least q (r ∷ rest) h = ground arith

  insert-insert :
      (q r : QueuedEvent P) (l : List (QueuedEvent P))
      → q.sequence ≢ r.sequence
      → insert_queued q (insert_queued r l) ≡ insert_queued r (insert_queued q l)
  unfolding insert_queued
  insert-insert q r [] h = ground arith
  insert-insert q r (s ∷ rest) h = ground (arith, insert-insert q r rest h)

  sort-middle :
      (a : List (QueuedEvent P)) (x : QueuedEvent P) (b : List (QueuedEvent P))
      → All (λ r. r.sequence ≢ x.sequence) a
      → sort_queued (a ++ x ∷ b) ≡ insert_queued x (sort_queued (a ++ b))
  unfolding sort_queued
  sort-middle [] x b h = refl
  sort-middle (y ∷ a) x b h =
      ap (insert_queued y) (sort-middle a x b h.1) ∙ insert-insert y x (sort_queued (a ++ b)) h.0

  -- A numbered log split by any test and sorted again is the log.
  pub sort-filter :
      (p : QueuedEvent P → Bool) (k : ℕ) (log : List (QueuedEvent P))
      → Numbered k log
      → sort_queued (filter p log ++ filter (λ q. not (p q)) log) ≡ log
  unfolding sort_queued
  sort-filter p k [] h = refl
  sort-filter p k (q ∷ rest) h =
      place (p q) (ap (insert_queued q) (sort-filter p (suc k) rest h.1) ∙ least)
    where
      above : All (λ r. q.sequence < r.sequence) rest
      above =
          All-imp (λ r. suc k ≤ r.sequence) (λ r. q.sequence < r.sequence) rest (λ r m. omega arith)
            (Numbered-above (suc k) rest h.1)

      least : insert_queued q rest ≡ q ∷ rest
      least = insert-least q rest (
          All-imp (λ r. q.sequence < r.sequence) (λ r. q.sequence ≤ r.sequence) rest
            (λ r m. omega arith) above)

      place :
          (b : Bool)
          → insert_queued q (sort_queued (filter p rest ++ filter (λ r. not (p r)) rest)) ≡ q ∷ rest
          → sort_queued (
              elim b [ true ↦ q ∷ filter p rest | false ↦ filter p rest ] ++ elim (not b) [
                | true ↦ q ∷ filter (λ r. not (p r)) rest
                | false ↦ filter (λ r. not (p r)) rest
              ])
            ≡ q ∷ rest
      place true inserted = inserted
      place false inserted =
          sort-middle (filter p rest) q (filter (λ r. not (p r)) rest) (
            All-filter (λ r. r.sequence ≢ q.sequence) p rest
              (All-imp (λ r. q.sequence < r.sequence) (λ r. r.sequence ≢ q.sequence) rest
                (λ r m. omega arith) above))
          ∙ inserted
