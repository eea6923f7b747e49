-- ===== src/Delivery/Emission.antt =====
-- What reaches the sink of src/comfyui_docker_helper/container/runtime/event_delivery.py.
use comfyui_docker_helper.Prelude.{
  ℕ, suc, ◌+◌, ◌≡◌, ◌⊎◌, refl, ◌∙◌, inl, inr, ap, subst, Bool, true, false, Option, is_some, some,
  List, [], ◌∷◌, ◌++◌, length, arith, none, sym, Bool-cases, ◌&&◌, append-nil, append_assoc,
}
use comfyui_docker_helper.Delivery.{RuntimeEvent}
use comfyui_docker_helper.Delivery.Drain.{Sink, emit_latched, emit_all}

-- At the n-th event the close has no deadline, or it is neither over nor forced.
abbrev pub OnTime : Option ℕ → (ℕ → Bool) → ℕ → Type 0
OnTime deadline late n = (deadline ≡ none) ⊎ (late n ≡ false)

-- The close has a deadline that is over, or is forced.
abbrev pub Overdue : Option ℕ → (ℕ → Bool) → ℕ → Type 0
Overdue deadline late n = (is_some deadline ≡ true) × (late n ≡ true)

on_time :
    (deadline : Option ℕ) (late : ℕ → Bool) (n : ℕ)
    → (is_some deadline && late n) ≡ false
    → OnTime deadline late n
on_time none late n e = inl refl
on_time (some d) late n e = inr e

overdue :
    (deadline : Option ℕ) (late : ℕ → Bool) (n : ℕ)
    → (is_some deadline && late n) ≡ true
    → Overdue deadline late n
overdue none late n e = absurd (cc e)
overdue (some d) late n e = (refl, e)

module _ {P : Type 0} (breaks : RuntimeEvent P → Bool) (deadline : Option ℕ) (late : ℕ → Bool) where
  -- The events from the n-th on are on time, and the sink breaks on none.
  abbrev pub Arrived : ℕ → List (RuntimeEvent P) → Type 0
  Arrived n [] = Unit
  Arrived n (event ∷ events) =
      OnTime deadline late n × ((breaks event ≡ false) × Arrived (suc n) events)

  -- Why the events from the n-th on are left out, with the failure of the sink.
  abbrev pub LeftOut : ℕ → List (RuntimeEvent P) → Bool → Type 0
  LeftOut n [] failed = failed ≡ false
  LeftOut n (event ∷ events) failed =
      (Overdue deadline late n × (failed ≡ false))
      ⊎ (OnTime deadline late n × ((breaks event ≡ true) × (failed ≡ true)))

  -- What a sink that had received `before` has after the events from the n-th on.
  pub record Delivered (n : ℕ) (events before : List (RuntimeEvent P)) (after : Sink P)
      : Type 0 where
    pub got : List (RuntimeEvent P)
    pub left_out : List (RuntimeEvent P)
    pub added : after.received ≡ before ++ got
    pub whole : events ≡ got ++ left_out
    pub arrived : Arrived n got
    pub stopped : LeftOut (n + length got) left_out after.has_failed

  emit_all-failed :
      (n : ℕ) (events : List (RuntimeEvent P)) (s : Sink P)
      → s.has_failed ≡ true
      → emit_all breaks deadline late n events s ≡ s
  unfolding emit_all emit_latched
  emit_all-failed n [] s h = refl
  emit_all-failed n (event ∷ rest) s h = let go = emit_all-failed (suc n) rest s h in ground arith

  nothing-Delivered :
      (n : ℕ) (events : List (RuntimeEvent P)) (before : List (RuntimeEvent P)) (after : Sink P)
      → after.received ≡ before
      → LeftOut n events after.has_failed
      → Delivered n events before after
  nothing-Delivered n events before after same why = record {
    got = [];
    left_out = events;
    added = same ∙ sym (append-nil before);
    whole = refl;
    arrived = tt;
    stopped = subst (λ i. LeftOut i events after.has_failed) (omega arith) why;
  }

  event-Delivered :
      (n : ℕ) (event : RuntimeEvent P) (rest before : List (RuntimeEvent P)) (after : Sink P)
      → OnTime deadline late n
      → breaks event ≡ false
      → Delivered (suc n) rest (before ++ event ∷ []) after
      → Delivered n (event ∷ rest) before after
  event-Delivered n event rest before after time works more = record {
    got = event ∷ more.got;
    left_out = more.left_out;
    added = more.added ∙ append_assoc before (event ∷ []) more.got;
    whole = ap (λ l. event ∷ l) more.whole;
    arrived = (time, (works, more.arrived));
    stopped = subst (λ i. LeftOut i more.left_out after.has_failed) (omega arith) more.stopped;
  }

  -- A sink that works gets the events in order up to the first one at which the close is overdue or on
  -- which the sink breaks, and nothing from there on; it has failed afterwards exactly if it broke. If
  -- there is no such event it gets all of them.
  pub emit_all-Delivered :
      (n : ℕ) (events : List (RuntimeEvent P)) (s : Sink P)
      → s.has_failed ≡ false
      → Delivered n events s.received (emit_all breaks deadline late n events s)
  unfolding emit_all emit_latched
  emit_all-Delivered n [] s works = nothing-Delivered n [] s.received s refl works
  emit_all-Delivered n (event ∷ rest) s works = elim (Bool-cases (is_some deadline && late n)) [
    | inl stop ↦ rw stop (
        nothing-Delivered n (event ∷ rest) s.received s refl
          (inl (overdue deadline late n stop, works)))
    | inr go ↦
        let time = on_time deadline late n go in
        elim (Bool-cases (breaks event)) [
          | inl broken ↦
              let failed : Sink P = record s { has_failed = true } in
              rw (go, works, broken, emit_all-failed (suc n) rest failed refl)
                (nothing-Delivered n (event ∷ rest) s.received failed refl
                  (inr (time, (broken, refl))))
          | inr well ↦
              let next : Sink P = record {
                received = s.received ++ event ∷ [];
                has_failed = false;
              } in
              simp (go, works, well)
                (event-Delivered n event rest s.received
                  (emit_all breaks deadline late (suc n) rest next) time well
                  (emit_all-Delivered (suc n) rest next refl))
        ]
  ]
