-- ===== src/Framing/RoundTrip.antt =====
-- The round trip of a frame (src/comfyui_docker_helper/container/runtime/control/protocol.py).
use comfyui_docker_helper.Prelude.{
  ℕ, suc, ◌≤◌, ◌<◌, false, List, [], ◌++◌, length, ltb, ◌==◌, arith, ◌≡◌, refl, ap, ◌∙◌, All,
  append_assoc,
}
use comfyui_docker_helper.Framing.{
  header_bytes, max_payload_bytes, pack, encoded, encode_frame, receive_exact, receive_body,
  receive_payload,
}
use comfyui_docker_helper.Framing.Receiving.{
  joined, NonEmpty, Arrived, receive_loop-Arrived, unpack-pack,
}

pub receive_exact-Arrived :
    (n : ℕ)
    → (wanted after : List ℕ) → (peer : List (List ℕ)) → All NonEmpty peer
    → joined peer ≡ wanted ++ after
    → length wanted ≡ n
    → Arrived wanted after (receive_exact n peer)
unfolding receive_exact
receive_exact-Arrived n wanted after peer full e size =
    receive_loop-Arrived (suc n) n 0 [] wanted after peer full e (omega (arith, size)) (omega arith)

receive_body-Arrived :
    (payload after : List ℕ)
    → (peer : List (List ℕ)) → 0 < length payload
    → length payload ≤ max_payload_bytes
    → All NonEmpty peer
    → joined peer ≡ payload ++ after
    → Arrived payload after (receive_body (length payload) peer)
unfolding receive_body Arrived
receive_body-Arrived payload after peer some_there fits full e =
    let (arrived, left, full') =
      receive_exact-Arrived (length payload) payload after peer full e refl in
    rw (not_empty some_there) (rw (not_large fits) (rw arrived (refl, left, full')))
  where
    not_empty : 0 < length payload → (length payload == 0) ≡ false
    not_empty h = ground (arith, h)

    not_large : length payload ≤ max_payload_bytes → ltb max_payload_bytes (length payload) ≡ false
    not_large h = ground (arith, h)

pub length-pack : (n : ℕ) → length (pack n) ≡ header_bytes
unfolding pack
length-pack n = omega arith

-- What a frame is made of.
pub record Frame (payload frame : List ℕ) : Type 0 where
  pub some_there : 0 < length payload
  pub fits : length payload ≤ max_payload_bytes
  pub made : frame ≡ pack (length payload) ++ payload

pub encode_frame-Frame :
    (payload frame : List ℕ) → encode_frame payload ≡ encoded frame → Frame payload frame
unfolding encode_frame
encode_frame-Frame payload frame e = record {
  some_there = ground (arith, e);
  fits = ground (arith, e);
  made = ground (arith, e);
}

-- A frame that `encode_runtime_control_frame` made is received as its payload, however the stream is
-- cut into segments that are not empty, and the bytes behind it are left for the next frame.
pub frame-Arrived :
    (payload frame after : List ℕ)
    → (peer : List (List ℕ)) → All NonEmpty peer
    → encode_frame payload ≡ encoded frame
    → joined peer ≡ frame ++ after
    → Arrived payload after (receive_payload peer)
unfolding receive_payload Arrived
frame-Arrived payload frame after peer full made e =
    let parts = encode_frame-Frame payload frame made in
    let header = pack (length payload) in
    let (arrived, left, full') =
      receive_exact-Arrived header_bytes header (payload ++ after) peer full
        (e ∙ ap (λ f. f ++ after) parts.made ∙ append_assoc header payload after)
        (length-pack (length payload)) in
    rw (arrived, receive_payload)
      (rw (unpack-pack (length payload) (omega (arith, parts.fits)))
        (receive_body-Arrived payload after _ parts.some_there parts.fits full' left))
