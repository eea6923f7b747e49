-- ===== src/Framing/Examples.antt =====
-- Tests and witnesses of the frames of the control protocol
-- (src/comfyui_docker_helper/container/runtime/control/protocol.py).
use comfyui_docker_helper.Prelude.{ℕ, List, [], ◌∷◌, ◌≡◌, refl, arith}
use comfyui_docker_helper.Framing.{encode_frame, pack, receive_payload, failed, truncated_frame}
use comfyui_docker_helper.Framing.Receiving.{joined, NonEmpty, Arrived}
use comfyui_docker_helper.Framing.RoundTrip.{frame-Arrived}
use comfyui_docker_helper.Framing.Truncation.{cut_frame_fails}

-- A frame of two bytes in two segments, and the first byte of the next frame.
abbrev cut : List (List ℕ)
cut = (0 ∷ 0 ∷ 0 ∷ []) ∷ (2 ∷ 123 ∷ 125 ∷ 0 ∷ []) ∷ []

abbrev two_bytes : List ℕ
two_bytes = 123 ∷ 125 ∷ []

frame-Arrived_example : Arrived two_bytes (0 ∷ []) (receive_payload cut)
unfolding encode_frame pack joined NonEmpty
frame-Arrived_example =
    frame-Arrived two_bytes (0 ∷ 0 ∷ 0 ∷ 2 ∷ two_bytes) (0 ∷ []) cut (omega arith) refl refl

cut_frame_fails_example : (receive_payload ((0 ∷ 0 ∷ []) ∷ [])).0 ≡ failed truncated_frame
unfolding encode_frame pack joined NonEmpty
cut_frame_fails_example =
    cut_frame_fails two_bytes (0 ∷ 0 ∷ 0 ∷ 2 ∷ two_bytes) (0 ∷ 2 ∷ two_bytes) ((0 ∷ 0 ∷ []) ∷ [])
      (omega arith) refl refl (omega arith)
