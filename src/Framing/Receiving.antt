-- ===== src/Framing/Receiving.antt =====
-- A frame that is sent is received, however the stream is cut into segments
-- (src/comfyui_docker_helper/container/runtime/control/protocol.py).
use comfyui_docker_helper.Prelude.{
  ℕ, zero, suc, ◌+◌, ◌-◌, ◌≤◌, ◌<◌, true, false, List, [], ◌∷◌, ◌++◌, length, take, drop, leb, ltb,
  ◌==◌, arith, ◌≡◌, refl, sym, ap, Bool-cases, inl, inr, All, length-append, length-take,
  length-drop, take-append-drop, append_assoc, append-nil, ◌∙◌, subst,
}
use comfyui_docker_helper.Framing.{pack, unpack, Received, received, recv, receive_loop}

pub unpack-pack : (n : ℕ) → n < 4294967296 → unpack (pack n) ≡ n
unfolding unpack pack
unpack-pack n h = omega arith

-- The bytes of a stream.
unfoldable pub joined : List (List ℕ) → List ℕ
joined [] = []
joined (segment ∷ rest) = segment ++ joined rest

-- A read finds a byte as long as the stream has not ended.
unfoldable pub NonEmpty : List ℕ → Type 0
NonEmpty segment = 0 < length segment

-- A read of at most `n` bytes takes them from the front of the stream.
pub record Reads (n : ℕ) (peer : List (List ℕ)) (chunk : List ℕ) (next : List (List ℕ))
    : Type 0 where
  pub whole : chunk ++ joined next ≡ joined peer
  pub left : All NonEmpty next
  pub bounded : length chunk ≤ n
  pub progress : 0 < length (joined peer) → 0 < length chunk

length-joined : (s : List ℕ) → (rest : List (List ℕ)) → NonEmpty s → 0 < length (joined (s ∷ rest))
unfolding joined NonEmpty
length-joined s rest h = omega (arith, length-append s (joined rest), h)

pub recv-Reads :
    (n : ℕ)
    → (peer : List (List ℕ)) → 0 < n
    → All NonEmpty peer
    → Reads n peer (recv n peer).0 (recv n peer).1
unfolding recv joined NonEmpty
recv-Reads n [] h full = record {
  whole = refl;
  left = tt;
  bounded = omega arith;
  progress = λ p. p;
}
recv-Reads n (s ∷ rest) h (some_there, full) = elim (Bool-cases (leb (length s) n)) [
  | inl fits ↦ rw fits (record {
    whole = refl;
    left = full;
    bounded = ground (arith, fits);
    progress = λ p. some_there;
  })
  | inr longer ↦
      let shorter = below longer in
      rw longer (record {
        whole =
            sym (append_assoc (take n s) (drop n s) (joined rest))
            ∙ ap (λ front. front ++ joined rest) (take-append-drop n s);
        left = (omega (arith, length-drop n s, shorter), full);
        bounded = omega (arith, length-take n s);
        progress = λ p. omega (arith, length-take n s, shorter, h);
      })
]
  where
    below : leb (length s) n ≡ false → n < length s
    below e = ground (arith, e)

-- What is read off the front of a stream is the front of what is wanted.
pub split_front :
    (chunk rest wanted after : List ℕ)
    → chunk ++ rest ≡ wanted ++ after
    → length chunk ≤ length wanted
    → (more : List ℕ) × (wanted ≡ chunk ++ more) × (rest ≡ more ++ after)
split_front [] rest wanted after e h = (wanted, refl, e)
split_front (x ∷ chunk) rest [] after e h = ground (arith, h)
split_front (x ∷ chunk) rest (y ∷ wanted) after e h =
    let (more, front, back) = split_front chunk rest wanted after (tails e) (omega (arith, h)) in
    (more, cc (heads e, front), back)
  where
    tails : x ∷ (chunk ++ rest) ≡ y ∷ (wanted ++ after) → chunk ++ rest ≡ wanted ++ after
    tails e = cc e

    heads : x ∷ (chunk ++ rest) ≡ y ∷ (wanted ++ after) → x ≡ y
    heads e = cc e

-- The bytes that were wanted arrived, and the rest of the stream is left.
unfoldable pub Arrived : List ℕ → List ℕ → Received × List (List ℕ) → Type 0
Arrived wanted after result =
    (result.0 ≡ received wanted) × (joined result.1 ≡ after) × All NonEmpty result.1

pub receive_loop-Arrived :
    (fuel n count : ℕ)
    → (got wanted after : List ℕ) → (peer : List (List ℕ)) → All NonEmpty peer
    → joined peer ≡ wanted ++ after
    → count + length wanted ≡ n
    → n < count + fuel
    → Arrived (got ++ wanted) after (receive_loop fuel n count got peer)
unfolding receive_loop Arrived
receive_loop-Arrived zero n count got wanted after peer full e size enough =
    ground (arith, size, enough)
receive_loop-Arrived (suc fuel) n count got [] after peer full e size enough =
    rw (is_done size) (ap received (sym (append-nil got)), e, full)
  where
    is_done : count + 0 ≡ n → ltb count n ≡ false
    is_done h = ground (arith, h)
receive_loop-Arrived (suc fuel) n count got (x ∷ wanted) after peer full e size enough =
    let chunk = (recv (n - count) peer).0 in
    let next = (recv (n - count) peer).1 in
    let reads = recv-Reads (n - count) peer (omega (arith, size)) full in
    let some_there = reads.progress (some_bytes e) in
    let (more, front, back) =
      split_front chunk (joined next) (x ∷ wanted) after (reads.whole ∙ e)
        (omega (arith, reads.bounded, size)) in
    let lengths = ap length front ∙ length-append chunk more in
    rw (goes_on size) (
      rw (not_empty (length chunk) some_there) (
        subst
          (λ w. Arrived w after (receive_loop fuel n (count + length chunk) (got ++ chunk) next))
          (append_assoc got chunk more ∙ ap (λ w. got ++ w) (sym front))
          (receive_loop-Arrived fuel n (count + length chunk) (got ++ chunk) more after next
            reads.left back (omega (arith, size, lengths)) (omega (arith, enough, some_there)))))
  where
    some_bytes : joined peer ≡ (x ∷ wanted) ++ after → 0 < length (joined peer)
    some_bytes e = omega (arith, ap length e)

    goes_on : count + suc (length wanted) ≡ n → ltb count n ≡ true
    goes_on h = ground (arith, h)

    not_empty : (m : ℕ) → 0 < m → (m == 0) ≡ false
    not_empty m h = ground (arith, h)
