-- ===== src/Framing/Truncation.antt =====
-- A stream that ends inside a frame (src/comfyui_docker_helper/container/runtime/control/protocol.py).
use comfyui_docker_helper.Prelude.{
  ℕ, zero, suc, ◌+◌, ◌-◌, ◌≤◌, ◌<◌, true, false, List, [], ◌++◌, length, if◌then◌else◌, ltb, ◌==◌,
  arith, ◌≡◌, refl, sym, ap, ◌∙◌, Bool-cases, inl, inr, All, length-append,
}
use comfyui_docker_helper.Framing.{
  header_bytes, max_payload_bytes, pack, encoded, encode_frame, Received, end_of_stream, failed,
  truncated_frame, recv, receive_loop, receive_exact, receive_body, receive_payload,
}
use comfyui_docker_helper.Framing.Receiving.{
  joined, NonEmpty, Arrived, recv-Reads, split_front, unpack-pack,
}
use comfyui_docker_helper.Framing.RoundTrip.{encode_frame-Frame, receive_exact-Arrived, length-pack}

-- What an unfinished read ends with, if `m` bytes came.
abbrev unfinished : ℕ → Received
unfinished m = if m == 0 then end_of_stream else failed truncated_frame

receive_loop-unfinished :
    (fuel n count : ℕ)
    → (got : List ℕ) → (peer : List (List ℕ)) → All NonEmpty peer
    → count + length (joined peer) < n
    → n < count + fuel
    → (receive_loop fuel n count got peer).0 ≡ unfinished (count + length (joined peer))
unfolding receive_loop
receive_loop-unfinished zero n count got peer full short enough = ground (arith, short, enough)
receive_loop-unfinished (suc fuel) n count got peer full short enough =
    let chunk = (recv (n - count) peer).0 in
    let next = (recv (n - count) peer).1 in
    let reads = recv-Reads (n - count) peer (omega (arith, short)) full in
    let lengths = sym (length-append chunk (joined next)) ∙ ap length reads.whole in
    rw (goes_on short) (elim (Bool-cases (length chunk == 0)) [
      | inl empty ↦
          rw empty (
            ap unfinished
              (no_more count (length (joined peer)) (length chunk) empty reads.progress))
      | inr full_chunk ↦ rw full_chunk (
          receive_loop-unfinished fuel n (count + length chunk) (got ++ chunk) next reads.left
            (omega (arith, short, lengths))
            (omega (arith, enough, some_bytes (length chunk) full_chunk))
          ∙ ap unfinished (omega (arith, lengths)))
    ])
  where
    goes_on : count + length (joined peer) < n → ltb count n ≡ true
    goes_on h = ground (arith, h)

    some_bytes : (m : ℕ) → (m == 0) ≡ false → 0 < m
    some_bytes m h = ground (arith, h)

    no_more : (c j m : ℕ) → (m == 0) ≡ true → (0 < j → 0 < m) → c ≡ c + j
    no_more c j m h p = ground (arith, h, p)

receive_exact-unfinished :
    (n : ℕ)
    → (peer : List (List ℕ)) → All NonEmpty peer
    → length (joined peer) < n
    → (receive_exact n peer).0 ≡ unfinished (length (joined peer))
unfolding receive_exact
receive_exact-unfinished n peer full short =
    receive_loop-unfinished (suc n) n 0 [] peer full (omega (arith, short)) (omega arith)
    ∙ ap unfinished (omega arith)

-- A stream that ends in the header.
receive_payload-unfinished :
    (peer : List (List ℕ))
    → All NonEmpty peer
    → length (joined peer) < header_bytes
    → (receive_payload peer).0 ≡ unfinished (length (joined peer))
unfolding receive_payload
receive_payload-unfinished peer full short = elim (Bool-cases (length (joined peer) == 0)) [
  | inl empty ↦
      rw (receive_exact-unfinished header_bytes peer full short, receive_payload) (rw empty refl)
  | inr some_bytes ↦
      rw (receive_exact-unfinished header_bytes peer full short, receive_payload)
        (rw some_bytes refl)
]

-- A stream that ends in the payload.
receive_body-unfinished :
    (n : ℕ)
    → (peer : List (List ℕ)) → n ≤ max_payload_bytes
    → All NonEmpty peer
    → length (joined peer) < n
    → (receive_body n peer).0 ≡ failed truncated_frame
unfolding receive_body
receive_body-unfinished n peer fits full short = rw (not_empty short) (
    rw (not_large fits) (elim (Bool-cases (length (joined peer) == 0)) [
      | inl empty ↦ rw (receive_exact-unfinished n peer full short) (rw empty refl)
      | inr some_bytes ↦ rw (receive_exact-unfinished n peer full short) (rw some_bytes refl)
    ]))
  where
    not_empty : length (joined peer) < n → (n == 0) ≡ false
    not_empty h = ground (arith, h)

    not_large : n ≤ max_payload_bytes → ltb max_payload_bytes n ≡ false
    not_large h = ground (arith, h)

-- A frame that is cut off is never delivered: a stream that ends before all of it has come gives
-- the error of a truncated frame, or the clean end of the stream if not one byte came.
pub cut_frame_fails :
    (payload frame missing : List ℕ)
    → (peer : List (List ℕ)) → All NonEmpty peer
    → encode_frame payload ≡ encoded frame
    → joined peer ++ missing ≡ frame
    → 0 < length missing
    → (receive_payload peer).0
      ≡ (if length (joined peer) == 0 then end_of_stream else failed truncated_frame)
unfolding receive_payload Arrived
cut_frame_fails payload frame missing peer full made e short =
    elim (Bool-cases (ltb (length (joined peer)) header_bytes)) [
      | inl early ↦ receive_payload-unfinished peer full (ground (arith, early))
      | inr later ↦
          let parts = encode_frame-Frame payload frame made in
          let header = pack (length payload) in
          let (more, front, back) =
            split_front header payload (joined peer) missing (sym parts.made ∙ sym e)
              (ground (arith, later, length-pack (length payload))) in
          let (arrived, left, full') =
            receive_exact-Arrived header_bytes header more peer full front
              (length-pack (length payload)) in
          let sizes = ap length back ∙ length-append more missing in
          rw (not_early later) (
            rw (arrived, receive_payload)
              (rw (unpack-pack (length payload) (omega (arith, parts.fits))) (
                receive_body-unfinished (length payload) _ parts.fits full'
                  (omega (arith, ap length left, sizes, short)))))
    ]
  where
    not_early :
        ltb (length (joined peer)) header_bytes ≡ false → (length (joined peer) == 0) ≡ false
    not_early h = ground (arith, h)
