-- ===== src/Client/Callback.antt =====
-- `xiaozhi_client_callback`: what the client does on each event of libwebsockets.
pub mod Memory
pub mod Order
use xiaozhi.AudioBuffer
use xiaozhi.AudioBuffer.{AudioBuffer, Block}
use xiaozhi.Base.{
  ℕ, Bool, true, false, not, List, [], ◌∷◌, ◌++◌, Option, none, some, Status, ok, failed, ◌==◌,
  ◌&&◌, ◌||◌, ltb, if◌then◌else◌, length,
}
use xiaozhi.Base.Int.{ℤ, pos}
use xiaozhi.Base.Strings.{Bytes, codes, is_empty}
use xiaozhi.Client.Calls.{Signal, signal_writable, callback_on_writable}
use xiaozhi.Client.Receive.{receive_binary, receive_text}
use xiaozhi.Client.State.{
  Client, Callback, on_connected, on_disconnected, on_text, on_binary, on_error,
}
use xiaozhi.Client.TextQueue

-- What the client hands to libwebsockets.
pub data Frame : Type 0 where
  text binary : Bytes → Frame

pub data Output : Type 0 where
  call : Callback → Output
  write : Frame → Output
  signal : Signal → Output

-- The reasons that the client handles. `in` and `len` are `payload`; `is_final` is
-- `lws_remaining_packet_payload(wsi) == 0 && lws_is_final_fragment(wsi)`.
pub data Reason : Type 0 where
  established : Reason
  receive : Bool → Bytes → Bool → Reason
  writeable : Reason
  connection_error : Option Bytes → Reason
  closed : Reason
  other : Reason

-- Whether `malloc` of the copy of an audio block, `malloc` of the frame and `lws_write` succeed.
pub record Env : Type 0 where
  pub copy_made : Bool
  pub frame_made : Bool
  pub written : Bool

-- The return value, the client and what it did, in order.
pub record Handled : Type 0 where
  pub status : Status
  pub client : Client
  pub outputs : List Output

abbrev calls : List Callback → List Output
calls [] = []
calls (c ∷ cs) = call c ∷ calls cs

abbrev signals : List Signal → List Output
signals [] = []
signals (s ∷ ss) = signal s ∷ signals ss

-- The three results of `xiaozhi_client_pop_binary_locked`; the copy of the bytes is made under the
-- client's mutex, which every push takes too.
pub data PoppedBinary : Type 0 where
  nothing no_memory : PoppedBinary
  bytes : Bytes → PoppedBinary

popped_binary : AudioBuffer → Option Block → Bool → PoppedBinary
popped_binary buffer none copy_made = nothing
popped_binary buffer (some block) copy_made =
    if copy_made then bytes (AudioBuffer.read buffer block) else no_memory

unfoldable pub pop_binary_locked : Client → Bool → PoppedBinary × Client
unfolding popped_binary
pop_binary_locked client copy_made =
    let (block, pending) = AudioBuffer.pop client.pending_binary in
    (popped_binary pending block copy_made, record client { pending_binary = pending })

-- The frame that is to be sent: a text if one waits, or else an audio block.
pub data Popped : Type 0 where
  nothing no_memory : Popped
  frame : Frame → Popped

binary_popped : PoppedBinary × Client → Popped × Client
binary_popped (PoppedBinary.nothing, client) = (Popped.nothing, client)
binary_popped (PoppedBinary.no_memory, client) = (Popped.no_memory, client)
binary_popped (bytes b, client) = (frame (binary b), client)

text_popped : Client → Option Bytes × TextQueue.TextQueue → Bool → Popped × Client
text_popped client (none, pending) copy_made = binary_popped (pop_binary_locked client copy_made)
text_popped client (some t, pending) copy_made =
    (frame (text t), record client { pending_text = pending })

unfoldable pub pop_frame : Client → Bool → Popped × Client
unfolding binary_popped text_popped
pop_frame client copy_made = text_popped client (TextQueue.pop client.pending_text) copy_made

-- The end of LWS_CALLBACK_CLIENT_WRITEABLE: more to send asks for another call.
unfoldable pub more : Client → List Output
more client =
    if ltb 0 client.pending_text.count || ltb 0 (AudioBuffer.size client.pending_binary)
    then signal callback_on_writable ∷ []
    else []

send : Popped × Client → Env → Handled
send (Popped.nothing, client) env = record { status = ok; client = client; outputs = more client }
send (Popped.no_memory, client) env = record { status = failed; client = client; outputs = [] }
send (frame f, client) env =
    if env.frame_made && env.written
    then record { status = ok; client = client; outputs = write f ∷ more client }
    else record { status = failed; client = client; outputs = [] }

unfoldable pub on_writeable : Client → Env → Handled
unfolding send
on_writeable client env = send (pop_frame client env.copy_made) env

abbrev or_default : Option Bytes → Bytes
or_default none = codes "client connection error"
or_default (some message) = message

received : Client × List Callback → Handled
received (client, cs) = record { status = ok; client = client; outputs = calls cs }

unfoldable pub callback : Client → Env → Reason → Handled
unfolding received
callback client env established =
    let client' = record client { wsi = true; connected = true } in
    record {
      status = ok;
      client = client';
      outputs = call on_connected ∷ signals (signal_writable client');
    }
callback client env (receive is_binary payload is_final) = received (
    if is_binary
    then receive_binary client payload is_final
    else receive_text client payload is_final)
callback client env writeable = on_writeable client env
callback client env (connection_error message) = record {
  status = ok;
  client = record client { connected = false; wsi = false };
  outputs = call (on_error (or_default message)) ∷ [];
}
callback client env closed = record {
  status = ok;
  client = record client { connected = false; wsi = false };
  outputs = call (on_disconnected (pos 0)) ∷ [];
}
callback client env other = record { status = ok; client = client; outputs = [] }

-- LWS_CALLBACK_CLIENT_APPEND_HANDSHAKE_HEADER: the headers in order, with the protocol version as
-- `snprintf` prints it. An empty value is left out; `add` is whether libwebsockets had room.
abbrev handshake_header : Bytes → Bytes → List (Bytes × Bytes)
handshake_header name value = if is_empty value then [] else (name, value) ∷ []

unfoldable pub handshake_headers : Client → (ℤ → Bytes) → List (Bytes × Bytes)
handshake_headers client print =
    handshake_header (codes "Authorization:") client.config.authorization
    ++ handshake_header (codes "Protocol-Version:") (print client.config.protocol_version)
    ++ handshake_header (codes "Device-Id:") client.config.device_id
    ++ handshake_header (codes "Client-Id:") client.config.client_id
