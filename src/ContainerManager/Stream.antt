-- ===== src/ContainerManager/Stream.antt =====
-- containermanager/containers.go, streamOutput: frames of a header and a payload on one stream of
-- bytes. The buffered reader is the list of the bytes to come: `chunk n` is how many bytes a Read
-- returns with n bytes to come, cut to the buffer and to at least one. No two reads happen with the
-- same number of bytes to come, so every way to split the stream is such a function. Its end stands
-- for EOF and for any read error.
pub mod Delivery
mod Tests
use goblocks.Prelude.Eq.{nat_eq, int_eq, string_eq}
use goblocks.Prelude.Map
use goblocks.Prelude.Map.{Map}
use goblocks.Prelude.{
  ℕ, zero, suc, ◌+◌, ◌-◌, ◌*◌, Bool, Option, none, some, List, [], ◌∷◌, ◌++◌, ltb, nat_beq,
  if◌then◌else◌, length, take, drop,
}

abbrev pub buf_length : ℕ
buf_length = 120 * 1024

pub data Channel : Type 0 where
  stdout stderr : Channel

pub data End : Type 0 where
  -- the function returned and closed doneCh
  closed : End
  -- a send on a nil channel, which waits for ever
  blocked : End
  -- the fuel ran out
  unfinished : End

-- minOf
abbrev pub min_of : ℕ → ℕ → ℕ
min_of a b = if ltb a b then a else b

-- the switch on the type of the frame
abbrev pub channel : ℕ → Option Channel
channel typ = if nat_beq typ 1 then some stdout else if nat_beq typ 2 then some stderr else none

-- binary.BigEndian.Uint32
abbrev pub big_endian : ℕ → ℕ → ℕ → ℕ → ℕ
big_endian a b c d = a * 16_777_216 + b * 65536 + c * 256 + d

-- what r.Read(buf) returns, with `left` bytes of the payload and `coming` bytes of the stream to come
abbrev pub read_count : (ℕ → ℕ) → ℕ → ℕ → ℕ
read_count chunk left coming =
    let most = min_of (min_of buf_length left) coming in
    let n = min_of (chunk coming) most in if nat_beq n 0 then 1 else n

abbrev pub Chunks : Type 0
Chunks = List (Channel × List ℕ)

pub data Status : Type 0 where
  -- the payload was read, and these bytes follow it
  more : List ℕ → Status
  ends : End → Status

abbrev pub after_send : (Channel × List ℕ) → Chunks × Status → Chunks × Status
after_send c r = (c ∷ r.0, r.1)

-- One payload: `stop coming` is whether stopCh is found closed with so many bytes to come.
pub payload : (ℕ → ℕ) → (ℕ → Bool) → ℕ → Option Channel → ℕ → List ℕ → Chunks × Status
payload chunk stop fuel ch zero rest = ([], more rest)
payload chunk stop zero ch (suc left) rest = ([], ends unfinished)
payload chunk stop (suc fuel) ch (suc left) [] = ([], ends closed)
payload chunk stop (suc fuel) ch (suc left) (b ∷ rest) =
    let n = read_count chunk (suc left) (length (b ∷ rest)) in
    let next = payload chunk stop fuel ch (suc left - n) (drop n (b ∷ rest)) in
    if stop (length (b ∷ rest))
    then ([], ends closed)
    else elim ch [ none ↦ ([], ends blocked) | some c ↦ after_send (c, take n (b ∷ rest)) next ]

abbrev pub and_then : Chunks × Status → (List ℕ → Chunks × End) → Chunks × End
and_then (out, ends en) next = (out, en)
and_then (out, more rest) next = let r = next rest in (out ++ r.0, r.1)

-- streamOutput: all chunks that were sent, in order, and how it ended
pub stream_output : (ℕ → ℕ) → (ℕ → Bool) → ℕ → List ℕ → Chunks × End
stream_output chunk stop zero bytes = ([], unfinished)
stream_output chunk stop (suc fuel) (h0 ∷ h1 ∷ h2 ∷ h3 ∷ h4 ∷ h5 ∷ h6 ∷ h7 ∷ rest) =
    let size = big_endian h4 h5 h6 h7 in
    and_then (payload chunk stop size (channel h0) size rest)
      (λ tail. stream_output chunk stop fuel tail)
stream_output chunk stop (suc fuel) _ = ([], closed)
