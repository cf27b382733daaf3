-- ===== src/ContainerManager/Stream/Tests.antt =====
-- The theorems on the stream at concrete inputs.
use goblocks.Prelude.{◌≡◌, refl, false, List, [], ◌∷◌, arith, All}
use goblocks.ContainerManager.Stream.{
  Channel, stdout, stderr, closed, blocked, Chunks, stream_output,
}
use goblocks.ContainerManager.Stream.Delivery.{
  Frame, encode, received, payloads, Small, stream_output-encode, unknown_type_blocks,
}

abbrev frames : List Frame
frames =
    record { channel_of = stdout; bytes = 104 ∷ 105 ∷ 33 ∷ [] }
    ∷ record { channel_of = stderr; bytes = 63 ∷ [] }
    ∷ []

stream_output-encode_example :
    (out : Chunks) × (stream_output (λ n. 2) (λ n. false) 3 (encode frames) ≡ (out, closed))
    × ((c : Channel) → received c out ≡ payloads c frames)
    × All Small out
stream_output-encode_example =
    stream_output-encode (λ n. 2) 3 frames (omega arith, (omega arith, tt)) (omega arith)

unknown_type_blocks_tried :
    stream_output (λ n. 2) (λ n. false) 1 (0 ∷ 0 ∷ 0 ∷ 0 ∷ 0 ∷ 0 ∷ 0 ∷ 1 ∷ 65 ∷ []) ≡ ([], blocked)
unknown_type_blocks_tried = unknown_type_blocks (λ n. 2) 0 0 0 0 0 0 0 0 1 65 [] refl (omega arith)
