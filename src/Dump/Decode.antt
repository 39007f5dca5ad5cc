-- ===== src/Dump/Decode.antt =====
-- tools/decode_opus_dump.c: the loop over the packets of a dump. What libopus makes of a packet, the
-- writing of the samples, and the memory for the packet are arguments.
use xiaozhi.Base.{
  ℕ, zero, suc, ◌+◌, ◌*◌, Bool, not, ◌&&◌, List, [], ◌∷◌, Option, none, some, ◌==◌, ltb, take, drop,
  if◌then◌else◌, length,
}
use xiaozhi.Base.Strings.{Bytes}

-- How the loop ends: at the end of the file, at a packet that is cut off, at a write that fails, or
-- without memory for a packet.
pub data End : Type 0 where
  finished truncated unwritten no_memory : End

-- The packets that were handed to the decoder, in order, and the end of the loop.
pub record Decoded : Type 0 where
  pub packets : List Bytes
  pub stop : End

abbrev pub stops : End → Decoded
stops e = record { packets = []; stop = e }

abbrev pub hands : Bytes → Decoded → Decoded
hands packet d = record d { packets = packet ∷ d.packets }

-- `len_buf[0] | ((uint16_t)len_buf[1] << 8)` of two bytes.
unfoldable pub packet_len : ℕ → ℕ → ℕ
packet_len lo hi = lo + 256 * hi

-- The length of the buffer after the packet.
abbrev pub grown : ℕ → ℕ → ℕ
grown capacity len = if ltb capacity len then len else capacity

-- `realloc` of a size that is needed, and the writing of the samples of a packet, which is skipped
-- when the decoder fails.
pub record Host : Type 0 where
  pub memory : ℕ → Bool
  pub samples_written : Bytes → Bool

-- The loop, with fuel for the rounds, and `packet_capacity`; `none` is that the fuel is too little.
unfoldable pub read_packets : ℕ → Host → ℕ → Bytes → Option Decoded
read_packets zero host capacity file = none
read_packets (suc fuel) host capacity [] = some (stops finished)
read_packets (suc fuel) host capacity (lo ∷ []) = some (stops finished)
read_packets (suc fuel) host capacity (lo ∷ hi ∷ file) =
    let len = packet_len lo hi in
    let skipped = read_packets fuel host capacity file in
    let rest = read_packets fuel host (grown capacity len) (drop len file) in
    if len == 0
    then skipped
    else if ltb capacity len && not (host.memory len)
    then some (stops no_memory)
    else if ltb (length file) len
    then some (stops truncated)
    else if not (host.samples_written (take len file))
    then some (hands (take len file) (stops unwritten))
    else (elim rest [ none ↦ none | some d ↦ some (hands (take len file) d) ])
