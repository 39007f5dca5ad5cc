-- ===== src/App/System/Microphone.antt =====
-- What a round of the microphone's thread sends and records.
use xiaozhi.App.Callbacks.{queue_packet, capture_on_pcm}
use xiaozhi.App.Consistent.{Consistent}
use xiaozhi.App.State.{App}
use xiaozhi.App.System.{
  packed, System, measured, hear, Hand, idle, reading, writing, queueing, Heard, after_read, listen,
}
use xiaozhi.App.System.Memory.{Safe}
use xiaozhi.AudioBuffer
use xiaozhi.AudioBuffer.Refine as Refine
use xiaozhi.Base.{
  zero, suc, ℕ, ◌≡◌, ◌≢◌, ◌<◌, ◌≤◌, ◌⊎◌, refl, sym, ap, ◌∙◌, Bool, true, false, not, List, [], ◌∷◌,
  ◌++◌, ◌==◌, Option, none, some, map, map-append, append_assoc, take_all, ltb, arith, length,
  if◌then◌else◌, inl, inr, Option-cases,
}
use xiaozhi.Base.Int.{ℤ, pos}
use xiaozhi.Base.Strings.{Bytes}
use xiaozhi.Capture.{Capture, measure}
use xiaozhi.Client.Callback.{Frame, binary}
use xiaozhi.Client.Callback.Order as Order
use xiaozhi.Client.Callback.Order.{frames, block_frame}
use xiaozhi.Client.Calls.{queue_binary}
use xiaozhi.Client.State.{Client}
use xiaozhi.Client.TextQueue.Refine as TextRefine
use xiaozhi.Dump.{Dump, write_packet, header}
use xiaozhi.Opus.{encode_frame}

-- What an upload changes is the same.
abbrev Same : App → App → Type 0
Same x y = (x.client ≡ y.client) × (x.dump ≡ y.dump)

if-Same : (b : Bool) (x y z : App) → Same x z → Same y z → Same (if b then x else y) z
if-Same true x y z p q = p
if-Same false x y z p q = q

-- The measuring of silence neither sends nor records.
measured-Same : (app : App) (m : Bool × Capture) → Same (measured app m) app
unfolding measured
measured-Same app (false, c) = (refl, refl)
measured-Same app (true, c) = (refl, refl)

-- The packet that the thread has in hand.
abbrev pub in_hand : Hand → Option Bytes
in_hand (writing uploading pcm frames packet) = some packet
in_hand (queueing uploading pcm frames packet) = some packet
in_hand _ = none

-- A step takes no packet in hand, or one that libopus made, while an upload is on.
abbrev pub Takes : App → Hand → Type 0
Takes app hand =
    (in_hand hand ≡ none)
    ⊎ ((app.upload_enabled ≡ true) × (app.dump.file ≢ none) × (app.session_id ≢ []))

-- A step with a packet in hand keeps it and the client, or queues it and has it no longer.
abbrev pub Hands : Bytes → App → Hand → App → Type 0
Hands packet app hand app' =
    ((in_hand hand ≡ some packet) × (app'.client ≡ app.client))
    ⊎ ((in_hand hand ≡ none) × (app'.client ≡ (queue_binary app.client packet).1))

abbrev pub Hears : Option Bytes → App → Hand × App → Type 0
Hears none app (hand, app') = Same app' app × Takes app hand
Hears (some packet) app (hand, app') = Hands packet app hand app'

abbrev HearsIfMoved : Option Bytes → App → Option (Hand × App) → Type 0
HearsIfMoved p app none = Unit
HearsIfMoved p app (some x) = Hears p app x

some_len : (xs : Bytes) → 0 < length xs → (length xs == 0) ≡ false
some_len xs h = ground arith

-- A packet that is sent waits behind what the client has yet to send.
frames-queue_binary :
    (c : Client) (packet : Bytes)
    → Order.IsValid c
    → 0 < length packet
    → length packet ≤ c.pending_binary.block_capacity
    → c.pending_binary.count ≢ c.pending_binary.capacity
    → frames (queue_binary c packet).1 ≡ frames c ++ binary packet ∷ []
unfolding queue_binary AudioBuffer.push
frames-queue_binary c packet v some_byte fits room =
    let b = c.pending_binary in
    let texts = map Frame.text (TextRefine.contents c.pending_text) in
    let not_long : ltb b.block_capacity (length packet) ≡ false = ground arith in
    let not_full : (b.count == b.capacity) ≡ false = ground arith in
    let stored = Refine.store_refines packet (pos 0) v.blocks fits room in
    rw (some_len packet some_byte, not_long, not_full)
      (ap (λ cs. texts ++ map block_frame cs) stored
        ∙ ap (◌++◌ texts) (map-append block_frame (Refine.contents b) ((packet, pos 0) ∷ []))
        ∙ sym (append_assoc texts (map block_frame (Refine.contents b)) (binary packet ∷ [])))

write_packet-open :
    (d : Dump) (bytes packet : Bytes)
    → 0 < length packet
    → length packet < 65536
    → d.file ≡ some bytes
    → (write_packet d packet true 2 (length packet)).1.file
      ≡ some (bytes ++ (header (length packet) ++ packet))
unfolding write_packet header
write_packet-open d bytes packet h k e =
    ground (arith, take_all (length packet) packet (omega arith))

-- A round that hears sound during an upload.
pub record Hearing (app : App) (n : ℕ) (encode : Option Bytes) (packet : Bytes) : Type 0 where
  pub running : app.capture.running ≡ true
  pub uploading : app.upload_enabled ≡ true
  pub mutex : app.dump_mutex_initialized ≡ true
  pub encoded : encode_frame app.encoder n encode ≡ some packet
  pub some_byte : 0 < length packet
  pub not_long : length packet < 65536
  pub fits : length packet ≤ app.client.pending_binary.block_capacity
  pub room : app.client.pending_binary.count ≢ app.client.pending_binary.capacity

taken : (b : Bool) (x y : App) → b ≡ true → (if b then x else y) ≡ x
taken true x y e = refl
taken false x y e = absurd (cc e)

passed : (b : Bool) (x y : App) → b ≡ false → (if b then x else y) ≡ y
passed true x y e = absurd (cc e)
passed false x y e = refl

-- What `app_capture_on_pcm` makes of a packet.
abbrev pub sent : App → Bytes → App
sent app packet = record app {
  dump = (write_packet app.dump packet app.dump_mutex_initialized 2 (length packet)).1;
  client = (queue_binary app.client packet).1;
}

pub hear-whole :
    (app : App) (pcm : List ℤ) (n : ℕ) (encode : Option Bytes) (packet : Bytes)
    → app.capture.running ≡ true
    → app.upload_enabled ≡ true
    → encode_frame app.encoder n encode ≡ some packet
    → 0 < length packet
    → hear app (some (pcm, n)) encode 2 (length packet)
      ≡ measured (sent app packet) (measure app.capture app.capture.uploading pcm n)
unfolding hear capture_on_pcm queue_packet
hear-whole app pcm n encode packet running uploading encoded some_byte =
    let m = measure app.capture app.capture.uploading pcm n in
    let queue = queue_packet app 2 (length packet) in
    passed (not app.capture.running) app
      (measured (capture_on_pcm app n encode 2 (length packet)) m) (ap not running)
    ∙ ap (λ a. measured a m)
        (taken app.upload_enabled (queue (encode_frame app.encoder n encode)) app uploading
          ∙ ap queue encoded
          ∙ passed (length packet == 0) app (sent app packet) (some_len packet some_byte))

-- The round leaves what `app_capture_on_pcm` made of the packet, but for the measuring of silence.
hear-Same :
    {n : ℕ} {encode : Option Bytes} {packet : Bytes} (app : App) (pcm : List ℤ)
    → Hearing app n encode packet
    → Same (hear app (some (pcm, n)) encode 2 (length packet)) (sent app packet)
hear-Same {n} {encode} {packet} app pcm h =
    let whole = hear-whole app pcm n encode packet h.running h.uploading h.encoded h.some_byte in
    let kept = measured-Same (sent app packet) (measure app.capture app.capture.uploading pcm n) in
    (ap (λ (a : App). a.client) whole ∙ kept.0, ap (λ (a : App). a.dump) whole ∙ kept.1)

-- Some steps of the microphone's thread one after the other.
unfoldable pub listen_all : ℕ → Heard → Option (Hand × App) → Option (Hand × App)
listen_all zero i x = x
listen_all (suc k) i none = none
listen_all (suc k) i (some (hand, app)) = listen_all k i (listen i hand app)

listen-idle :
    (i : Heard) (app : App)
    → app.capture.running ≡ true
    → listen i idle app ≡ some (reading app.capture.uploading, app)
unfolding listen
listen-idle i app running = rw running refl

after_read-writing :
    (app : App) (u : Bool) (pcm : List ℤ) (n : ℕ) (encode : Option Bytes) (packet : Bytes)
    → app.upload_enabled ≡ true
    → encode_frame app.encoder n encode ≡ some packet
    → 0 < length packet
    → after_read app u (some (pcm, n)) encode ≡ writing u pcm n packet
unfolding after_read packed
after_read-writing app u pcm n encode packet on encoded some_byte =
    rw (on, encoded, some_len packet some_byte) refl

-- The five steps of a round that hears sound during an upload, with no step of another thread between
-- them, are the round `hear`.
pub listen_all-hear :
    {n : ℕ} {encode : Option Bytes} {packet : Bytes} (app : App) (pcm : List ℤ)
    → Hearing app n encode packet
    → let i : Heard = record {
      read = some (pcm, n);
      encoded = encode;
      first = 2;
      second = length packet;
    } in
      listen_all 5 i (some (idle, app))
      ≡ some (idle, hear app (some (pcm, n)) encode 2 (length packet))
unfolding listen_all listen
listen_all-hear {n} {encode} {packet} app pcm h =
    let i : Heard = record {
      read = some (pcm, n);
      encoded = encode;
      first = 2;
      second = length packet;
    } in
    let u = app.capture.uploading in
    ap (listen_all 4 i) (listen-idle i app h.running)
    ∙ ap (λ hand. listen_all 3 i (some (hand, app)))
        (after_read-writing app u pcm n encode packet h.uploading h.encoded h.some_byte)
    ∙ ap (λ a. some (idle, a))
        (sym (hear-whole app pcm n encode packet h.running h.uploading h.encoded h.some_byte))

is_open : (d : Dump) → d.file ≢ none → (bytes : Bytes) × (d.file ≡ some bytes)
is_open d h = elim (Option-cases d.file) [ inl e ↦ absurd (h e) | inr (bytes, e) ↦ (bytes, e) ]

-- When the memory is well formed and the flags agree, sound that the microphone hears during an upload
-- is sent and recorded: the packet that libopus makes of it comes behind everything that the client
-- has yet to send, and behind its length at the end of the dump file, which is open. The encoder
-- makes a packet of between 1 and 65535 bytes that fits a block, the queue of blocks is not full, the
-- packet is written whole, and no other thread takes a step within the round.
pub heard_sent :
    {n : ℕ} {encode : Option Bytes} {packet : Bytes} (app : App) (pcm : List ℤ)
    → Safe app
    → Consistent app
    → Hearing app n encode packet
    → let heard = hear app (some (pcm, n)) encode 2 (length packet) in
      (frames heard.client ≡ frames app.client ++ binary packet ∷ [])
      × ((bytes : Bytes) × (app.dump.file ≡ some bytes)
          × (heard.dump.file ≡ some (bytes ++ (header (length packet) ++ packet))))
heard_sent {packet} app pcm v k h =
    let same = hear-Same app pcm h in
    let valid : Order.IsValid app.client = record {
      texts = v.client_safe.texts_bounded.valid;
      blocks = v.client_safe.blocks_valid;
    } in
    let (bytes, e) = is_open app.dump (k.upload h.uploading).1 in
    (
      ap frames same.0 ∙ frames-queue_binary app.client packet valid h.some_byte h.fits h.room,
      (
        bytes,
        e,
        ap (λ (d : Dump). d.file) same.1
            ∙ ap (λ m. (write_packet app.dump packet m 2 (length packet)).1.file) h.mutex
            ∙ write_packet-open app.dump bytes packet h.some_byte h.not_long e,
      ),
    )
