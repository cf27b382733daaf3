-- ===== src/ContainerManager/Stream/Delivery.antt =====
-- What streamOutput of containermanager/containers.go delivers, however the stream is split.
use goblocks.Prelude.{
  ℕ, zero, suc, ◌-◌, ◌/◌, ◌%◌, ◌^◌, ◌≤◌, ◌<◌, ◌≡◌, refl, sym, ap, ◌∙◌, inl, inr, Bool, true, false,
  none, some, List, [], ◌∷◌, ◌++◌, arith, if◌then◌else◌, Bool-cases, length, take, drop,
  length-append, take-append-drop, take-append_of_le, drop-append_of_le, length-drop,
  length-take-le, All, All-append,
}
use mathlib.Core.List.{append_assoc}
use goblocks.ContainerManager.Stream.{
  buf_length, Channel, stdout, stderr, closed, blocked, channel, big_endian, read_count, Chunks,
  more, ends, after_send, payload, stream_output,
}

abbrev never : ℕ → Bool
never n = false

abbrev pub same : Channel → Channel → Bool
same stdout stdout = true
same stderr stderr = true
same _ _ = false

-- All bytes sent to a channel, in order.
abbrev pub received : Channel → Chunks → List ℕ
received c [] = []
received c ((d, bytes) ∷ out) = if same d c then bytes ++ received c out else received c out

received-append :
    (c : Channel) (xs ys : Chunks) → received c (xs ++ ys) ≡ received c xs ++ received c ys
received-append c [] ys = refl
received-append c ((d, bytes) ∷ xs) ys = elim (Bool-cases (same d c)) [
  | inl e ↦ rw e (rw (received-append c xs ys) (sym (append_assoc bytes _ _)))
  | inr e ↦ rw e (received-append c xs ys)
]

pub record Frame : Type 0 where
  pub channel_of : Channel
  pub bytes : List ℕ

abbrev pub stream_type : Channel → ℕ
stream_type stdout = 1
stream_type stderr = 2

-- The frames as the bytes of a stream, with the length in big endian.
abbrev pub encode : List Frame → List ℕ
encode [] = []
encode (f ∷ fs) =
    let n = length f.bytes in
    stream_type f.channel_of
    ∷ 0
    ∷ 0
    ∷ 0
    ∷ (n / 16_777_216)
    ∷ (n / 65536 % 256)
    ∷ (n / 256 % 256)
    ∷ (n % 256)
    ∷ (f.bytes ++ encode fs)

-- The payloads that belong to a channel, in order.
abbrev pub payloads : Channel → List Frame → List ℕ
payloads c [] = []
payloads c (f ∷ fs) = if same f.channel_of c then f.bytes ++ payloads c fs else payloads c fs

abbrev pub Small : Channel × List ℕ → Type 0
Small c = length c.1 ≤ buf_length

record Carries (c : Channel) (p : List ℕ) (out : Chunks) : Type 0 where
  bytes : (d : Channel) → received d out ≡ (if same c d then p else [])
  sizes : All Small out

read_count_bounds :
    (chunk : ℕ → ℕ) (left coming : ℕ)
    → suc left ≤ coming
    → (1 ≤ read_count chunk (suc left) coming)
      × (read_count chunk (suc left) coming ≤ suc left)
      × (read_count chunk (suc left) coming ≤ buf_length)
read_count_bounds chunk left coming h = (ground arith, ground arith, ground arith)

payload_next :
    (chunk : ℕ → ℕ) (c : Channel) (fuel left : ℕ) (p bytes tail : List ℕ) (out : Chunks)
    → left ≡ length p
    → bytes ≡ p ++ tail
    → payload chunk never fuel (some c) (length p) (p ++ tail) ≡ (out, more tail)
    → payload chunk never fuel (some c) left bytes ≡ (out, more tail)
payload_next chunk c fuel left p bytes tail out l b e = rw (l, b) e

payload_lem :
    (chunk : ℕ → ℕ) (c : Channel) (fuel : ℕ) (p tail : List ℕ)
    → length p ≤ fuel
    → (out : Chunks) × (payload chunk never fuel (some c) (length p) (p ++ tail) ≡ (out, more tail))
      × Carries c p out
unfolding payload
payload_lem chunk c fuel [] tail h = ([], refl, record { bytes = λ d. ground arith; sizes = tt })
payload_lem chunk c zero (b ∷ p) tail h = absurd (omega arith)
payload_lem chunk c (suc fuel) (b ∷ p) tail h =
    let n : ℕ = read_count chunk (suc (length p)) (length (b ∷ (p ++ tail))) in
    let bounds =
      read_count_bounds chunk (length p) (length (b ∷ (p ++ tail)))
        (omega (arith, length-append p tail)) in
    let dropped = drop-append_of_le n (b ∷ p) tail bounds.1 in
    let taken = take-append_of_le n (b ∷ p) tail bounds.1 in
    let (out, e, r) =
      payload_lem chunk c fuel (drop n (b ∷ p)) tail (omega (arith, length-drop n (b ∷ p))) in
    let next =
      payload_next chunk c fuel (suc (length p) - n) (drop n (b ∷ p)) (drop n (b ∷ (p ++ tail)))
        tail out (sym (length-drop n (b ∷ p))) dropped e in
    (
      (c, take n (b ∷ p)) ∷ out,
      ap (after_send (c, take n (b ∷ (p ++ tail)))) next
          ∙ ap (λ bs. ((c, bs) ∷ out, more tail)) taken,
      record {
        bytes = λ d. elim (Bool-cases (same c d)) [
          | inl s ↦
              rw s (ap (◌++◌ (take n (b ∷ p))) (r.bytes d ∙ (rw s)) ∙ take-append-drop n (b ∷ p))
          | inr s ↦ rw s (r.bytes d ∙ (rw s))
        ];
        sizes = (omega (arith, length-take-le n (b ∷ p)), r.sizes);
      },
    )

big_endian_bytes :
    (n : ℕ)
    → n < 2 ^ 32
    → big_endian (n / 16_777_216) (n / 65536 % 256) (n / 256 % 256) (n % 256) ≡ n
big_endian_bytes n h = omega arith

channel-stream_type : (c : Channel) → channel (stream_type c) ≡ some c
channel-stream_type stdout = refl
channel-stream_type stderr = refl

-- Each payload has a length of 32 bits.
abbrev pub Fits : Frame → Type 0
Fits f = length f.bytes < 2 ^ 32

channel_payloads :
    (f : Frame) (fs : List Frame) (c : Channel) (xs ys : List ℕ)
    → xs ≡ (if same f.channel_of c then f.bytes else [])
    → ys ≡ payloads c fs
    → xs ++ ys ≡ payloads c (f ∷ fs)
channel_payloads f fs c xs ys h k =
    rw (h, k) (elim (Bool-cases (same f.channel_of c)) [ inl s ↦ rw s | inr s ↦ rw s ])

-- However the reader splits the stream, streamOutput, if it is not stopped, delivers the payloads of
-- a sequence of stdout and stderr frames: each channel receives its own payloads, whole and in
-- order, in chunks of at most 120 KiB, and the function returns at the end of the stream. One round
-- of fuel for each frame and one for the end are enough.
pub stream_output-encode :
    (chunk : ℕ → ℕ) (fuel : ℕ) (fs : List Frame)
    → All Fits fs
    → length fs < fuel
    → (out : Chunks) × (stream_output chunk (λ n. false) fuel (encode fs) ≡ (out, closed))
      × ((c : Channel) → received c out ≡ payloads c fs)
      × All Small out
unfolding stream_output
stream_output-encode chunk zero fs a h = absurd (omega arith)
stream_output-encode chunk (suc fuel) [] a h = ([], refl, (λ c. refl), tt)
stream_output-encode chunk (suc fuel) (f ∷ fs) a h =
    let (out, e, r) =
      payload_lem chunk f.channel_of (length f.bytes) f.bytes (encode fs) (omega arith) in
    let (outs, es, rs, ss) = stream_output-encode chunk fuel fs a.1 (omega arith) in
    (
      out ++ outs,
      rw (big_endian_bytes (length f.bytes) a.0, channel-stream_type f.channel_of, e, es),
      (λ c.
          received-append c out outs
          ∙ channel_payloads f fs c (received c out) (received c outs) (r.bytes c) (rs c)),
      All-append Small out outs r.sizes ss,
    )

payload_blocks :
    (chunk : ℕ → ℕ) (size byte : ℕ) (rest : List ℕ)
    → 0 < size
    → payload chunk (λ n. false) size none size (byte ∷ rest) ≡ ([], ends blocked)
unfolding payload
payload_blocks chunk zero byte rest h = absurd (omega arith)
payload_blocks chunk (suc size) byte rest h = refl

-- A frame of another type with a payload makes streamOutput wait for ever, so that doneCh is never
-- closed, unless it is stopped.
pub unknown_type_blocks :
    (chunk : ℕ → ℕ) (fuel typ a b c n0 n1 n2 n3 byte : ℕ) (rest : List ℕ)
    → channel typ ≡ none
    → 0 < big_endian n0 n1 n2 n3
    → stream_output chunk
        (λ n. false)
        (suc fuel)
        (typ ∷ a ∷ b ∷ c ∷ n0 ∷ n1 ∷ n2 ∷ n3 ∷ byte ∷ rest)
      ≡ ([], blocked)
unfolding stream_output
unknown_type_blocks chunk fuel typ a b c n0 n1 n2 n3 byte rest h k =
    rw (h, payload_blocks chunk (big_endian n0 n1 n2 n3) byte rest k)
