-- ===== src/Dump/Laws.antt =====
-- What is recorded can be decoded.
use xiaozhi.Base.{
  ℕ, zero, suc, ◌≡◌, ◌<◌, ◌+◌, ◌%◌, ◌/◌, refl, ap, ◌∙◌, Bool, true, List, [], ◌∷◌, ◌++◌, append-nil,
  append_assoc, some, arith, take, drop, length, take_all, take-append_length, drop-append_length,
  length-append, ok,
}
use xiaozhi.Base.Strings.{Bytes}
use xiaozhi.Dump.{Dump, open_dump, close_dump, close_file, header, write_packet}
use xiaozhi.Dump.Decode.{Decoded, Host, End, stops, hands, grown, packet_len, read_packets}

-- A packet that `app_write_opus_packet` takes.
abbrev pub AllSized : List Bytes → Type 0
AllSized [] = Unit
AllSized (p ∷ ps) = ((0 < length p) × (length p < 65536)) × AllSized ps

-- The packets of an upload, each written whole.
abbrev pub record_all : Dump → List Bytes → Dump
record_all dump [] = dump
record_all dump (p ∷ ps) = record_all (write_packet dump p true 2 (length p)).1 ps

abbrev pub encoded : List Bytes → Bytes
encoded [] = []
encoded (p ∷ ps) = header (length p) ++ (p ++ encoded ps)

write-encoded :
    (dump : Dump) (bytes p : Bytes)
    → 0 < length p
    → length p < 65536
    → write_packet (record dump { file = some bytes }) p true 2 (length p)
      ≡ (ok, record dump { file = some (bytes ++ (header (length p) ++ p)) })
unfolding write_packet header
write-encoded dump bytes p h k = ground (arith, take_all (length p) p (omega arith))

record_all-encoded :
    (dump : Dump) (bytes : Bytes) (ps : List Bytes)
    → AllSized ps
    → record_all (record dump { file = some bytes }) ps
      ≡ record dump { file = some (bytes ++ encoded ps) }
record_all-encoded dump bytes [] h = rw (append-nil bytes) refl
record_all-encoded dump bytes (p ∷ ps) h = rw (write-encoded dump bytes p h.0.0 h.0.1) (
    record_all-encoded dump (bytes ++ (header (length p) ++ p)) ps h.1
    ∙ ap (λ b. record dump { file = some b })
        (append_assoc bytes (header (length p) ++ p) (encoded ps)
          ∙ ap (λ b. bytes ++ b) (append_assoc (header (length p)) p (encoded ps))))

packet_len-header : (n : ℕ) → n < 65536 → packet_len (n % 256) ((n / 256) % 256) ≡ n
unfolding packet_len
packet_len-header n h = omega arith

read_packets-step :
    (host : Host) (fuel capacity lo hi : ℕ) (p more : Bytes) (d : Decoded)
    → packet_len lo hi ≡ length p
    → 0 < length p
    → host.memory (length p) ≡ true
    → host.samples_written p ≡ true
    → read_packets fuel host (grown capacity (length p)) more ≡ some d
    → read_packets (suc fuel) host capacity (lo ∷ hi ∷ (p ++ more)) ≡ some (hands p d)
unfolding read_packets
read_packets-step host fuel capacity lo hi p more d e h m w rest = ground (
  arith,
  take-append_length p more,
  drop-append_length p more,
  length-append p more,
  ap (λ n. drop n (p ++ more)) e,
  ap (λ n. take n (p ++ more)) e,
  ap (λ n. read_packets fuel host (grown capacity n) (drop n (p ++ more))) e,
  ap (λ b. read_packets fuel host (grown capacity (length p)) b) (drop-append_length p more),
)

read_packets-end :
    (host : Host) (fuel capacity : ℕ)
    → read_packets (suc fuel) host capacity [] ≡ some (stops End.finished)
unfolding read_packets
read_packets-end host fuel capacity = refl

decode-encoded :
    (host : Host) (fuel capacity : ℕ) (ps : List Bytes)
    → ((n : ℕ) → host.memory n ≡ true)
    → ((p : Bytes) → host.samples_written p ≡ true)
    → AllSized ps
    → length ps < fuel
    → read_packets fuel host capacity (encoded ps)
      ≡ some (record { packets = ps; stop = End.finished })
unfolding header
decode-encoded host zero capacity ps m w h f = absurd (omega arith)
decode-encoded host (suc fuel) capacity [] m w h f = read_packets-end host fuel capacity
decode-encoded host (suc fuel) capacity (p ∷ ps) m w h f =
    let rest = decode-encoded host fuel (grown capacity (length p)) ps m w h.1 (omega arith) in
    read_packets-step host fuel capacity (length p % 256) ((length p / 256) % 256) p (encoded ps)
      (record { packets = ps; stop = End.finished }) (packet_len-header (length p) h.0.1) h.0.0
      (m (length p)) (w p) rest

-- What an upload records can be decoded: after the dump file is opened, packets of 1 to 65535 bytes
-- that are each written whole, and the file is closed, the saved file is one from which the decoding
-- tool hands just these packets, in this order, to the decoder, and then meets the end of the file,
-- if the tool gets its memory and writes its samples. More rounds than packets are fuel enough.
pub record-decode :
    (dump : Dump) (tmp : Bool) (host : Host) (fuel : ℕ) (ps : List Bytes)
    → ((n : ℕ) → host.memory n ≡ true)
    → ((p : Bytes) → host.samples_written p ≡ true)
    → AllSized ps
    → length ps < fuel
    → (bytes : Bytes) × ((close_dump (record_all (open_dump dump true tmp).1 ps) true).saved
        ≡ bytes ∷ (close_file dump).saved)
      × (read_packets fuel host 0 bytes ≡ some (record { packets = ps; stop = End.finished }))
unfolding open_dump close_dump close_file
record-decode dump tmp host fuel ps m w h f = (
  encoded ps,
  ap (λ d. (close_file d).saved)
      (record_all-encoded (record (close_file dump) { index = (close_file dump).index + 1 }) [] ps
        h),
  decode-encoded host fuel 0 ps m w h f,
)
