-- ===== src/Framing.antt =====
-- src/comfyui_docker_helper/container/runtime/control/protocol.py: the frames of the control protocol,
-- on payloads of bytes. A socket is the segments that its reads will find, in order; a read takes the
-- first one, or as much of it as was asked for, and nothing at the end of the stream.
pub mod Receiving
pub mod RoundTrip
pub mod Truncation
mod Examples
use comfyui_docker_helper.Prelude.{
  ℕ, zero, suc, ◌+◌, ◌-◌, ◌*◌, ◌/◌, ◌%◌, ◌^◌, Bool, true, false, List, [], ◌∷◌, ◌++◌, length, take,
  drop, Option, none, some, if◌then◌else◌, leb, ltb, ◌==◌,
}

pub data ProtocolErrorCode : Type 0 where
  truncated_frame empty_frame frame_too_large invalid_message : ProtocolErrorCode

abbrev pub header_bytes : ℕ
header_bytes = 4

abbrev pub max_payload_bytes : ℕ
max_payload_bytes = 65536 - 4

-- `struct.pack(">I", n)`
unfoldable pub pack : ℕ → List ℕ
pack n = n / 16777216 % 256 ∷ n / 65536 % 256 ∷ n / 256 % 256 ∷ n % 256 ∷ []

-- `struct.unpack(">I", header)[0]`; a header has four bytes.
unfoldable pub unpack : List ℕ → ℕ
unpack (a ∷ b ∷ c ∷ d ∷ []) = ((a * 256 + b) * 256 + c) * 256 + d
unpack _ = 0

pub data Encoded : Type 0 where
  encoded : List ℕ → Encoded
  refused : ProtocolErrorCode → Encoded

-- `encode_runtime_control_frame`, from the payload on.
unfoldable pub encode_frame : List ℕ → Encoded
encode_frame payload =
    if length payload == 0
    then refused empty_frame
    else if ltb max_payload_bytes (length payload)
    then refused frame_too_large
    else encoded (pack (length payload) ++ payload)

pub data Received : Type 0 where
  received : List ℕ → Received
  end_of_stream : Received
  failed : ProtocolErrorCode → Received
  out_of_fuel : Received

-- `peer.recv(n)`
unfoldable pub recv : ℕ → List (List ℕ) → List ℕ × List (List ℕ)
recv n [] = ([], [])
recv n (segment ∷ rest) =
    if leb (length segment) n then (segment, rest) else (take n segment, drop n segment ∷ rest)

-- The loop of `_receive_exact`, on fuel; `data` are the chunks joined, `count` is `received`.
unfoldable pub receive_loop : ℕ → ℕ → ℕ → List ℕ → List (List ℕ) → Received × List (List ℕ)
receive_loop zero n count joined peer = (out_of_fuel, peer)
receive_loop (suc fuel) n count joined peer =
    let (chunk, next) = recv (n - count) peer in
    let rest = receive_loop fuel n (count + length chunk) (joined ++ chunk) next in
    if ltb count n
    then (if length chunk == 0
        then ((if count == 0 then end_of_stream else failed truncated_frame), next)
        else rest)
    else (received joined, peer)

-- `_receive_exact`: each turn that goes on reads a byte.
unfoldable pub receive_exact : ℕ → List (List ℕ) → Received × List (List ℕ)
receive_exact n peer = receive_loop (suc n) n 0 [] peer

-- What `_receive_payload` does with its length.
unfoldable pub receive_body : ℕ → List (List ℕ) → Received × List (List ℕ)
receive_body n peer =
    if n == 0
    then (failed empty_frame, peer)
    else if ltb max_payload_bytes n
    then (failed frame_too_large, peer)
    else (let (result, next) = receive_exact n peer in
        ((elim result [ end_of_stream ↦ failed truncated_frame | other ↦ other ]), next))

-- `_receive_payload`
unfoldable pub receive_payload : List (List ℕ) → Received × List (List ℕ)
receive_payload peer =
    let (result, next) = receive_exact header_bytes peer in
    elim result [ received header ↦ receive_body (unpack header) next | other ↦ (other, next) ]
