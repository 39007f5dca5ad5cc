-- ===== src/Client/Calls.antt =====
-- The calls of the program on the client, and what the client's thread does around its service loop.
-- What the operating system and libwebsockets answer is part of the arguments. Pointers are not NULL.
pub mod Restart
use xiaozhi.AudioBuffer
use xiaozhi.AudioBuffer.{AudioBuffer}
use xiaozhi.Base.{
  ℕ, Bool, true, false, not, List, [], ◌∷◌, ◌++◌, Option, none, some, Status, ok, failed, ◌==◌,
  ◌&&◌, if◌then◌else◌, length,
}
use xiaozhi.Base.Int.{pos}
use xiaozhi.Base.Strings.{Bytes, codes, is_empty, str_eq, truncate}
use xiaozhi.Client.State.{Client, ClientConfig, Callback, on_disconnected, on_error}
use xiaozhi.Client.TextQueue

-- `xiaozhi_client_init`; `allocated` is what `audio_buffer_init` needs.
unfoldable pub init : ClientConfig → Bool → Option Client
init config allocated =
    if is_empty config.url then none else (elim (AudioBuffer.init 32 4096 allocated) [
      | none ↦ none
      | some pending ↦ some (record {
        config = config;
        pending_text = TextQueue.empty;
        pending_binary = pending;
        context = false;
        wsi = false;
        running = false;
        connected = false;
        recv_text = [];
        recv_binary = [];
      })
    ])

-- `thread_made` is whether `pthread_create` succeeded.
unfoldable pub start : Client → Bool → Status × Client
start client thread_made =
    if client.running
    then (ok, client)
    else if thread_made
    then (ok, record client { running = true })
    else (failed, record client { running = false })

-- What libwebsockets reports to `xiaozhi_client_callback` while `lws_context_destroy` closes the
-- connection: LWS_CALLBACK_CLIENT_CLOSED of one that is open, LWS_CALLBACK_CLIENT_CONNECTION_ERROR
-- with its message of one that is still being made, and nothing if there is none.
pub data Closing : Type 0 where
  closes : Closing
  fails : Bytes → Closing
  quiet : Closing

-- The call that the client then makes into the program.
abbrev pub closing_call : Closing → Option Callback
closing_call closes = some (on_disconnected (pos 0))
closing_call (fails message) = some (on_error message)
closing_call quiet = none

-- What the thread does and leaves when its service loop ends.
unfoldable pub thread_end : Client → Closing → Client × Option Callback
thread_end client closing =
    (record client { context = false; wsi = false; connected = false }, closing_call closing)

-- The thread sees `running` cleared, leaves its loop and is joined. If it had ended before, the
-- pointers are NULL already, and there is nothing to report.
unfoldable pub stop : Client → Closing → Client × Option Callback
unfolding thread_end
stop client closing =
    if not client.running
    then (client, none)
    else thread_end (record client { running = false }) closing

-- What `lws_parse_uri` makes of the url.
pub record Uri : Type 0 where
  pub prot : Bytes
  pub address : Bytes
  pub path : Bytes

-- What is handed to `lws_client_connect_via_info`.
pub record ConnectInfo : Type 0 where
  pub address : Bytes
  pub path : Bytes
  pub use_ssl : Bool

abbrev pub connect_info : Uri → ConnectInfo
connect_info uri = record {
  address = uri.address;
  path = truncate 256 (b'/' ∷ uri.path);
  use_ssl = str_eq uri.prot (codes "wss");
}

-- What the thread has done when it reaches its loop or returns before it.
pub record Begun : Type 0 where
  pub client : Client
  pub serving : Bool
  pub calls : List Callback

-- A return before the loop: `context` is NULL again, `running` stays set.
abbrev pub gives_up : Client → Bytes → Begun
gives_up client message = record {
  client = record client { context = false };
  serving = false;
  calls = on_error message ∷ [];
}

-- `xiaozhi_client_thread` up to its loop: whether the context could be made, how the url parsed, and
-- whether the connection could be initiated.
unfoldable pub thread_begin : Client → Bool → (Bytes → Option Uri) → (ConnectInfo → Bool) → Begun
thread_begin client made parse_uri initiate =
    if not made
    then gives_up client (codes "failed to create lws context")
    else (elim (parse_uri (truncate 256 client.config.url)) [
      | none ↦ gives_up client (codes "failed to parse websocket url")
      | some uri ↦
          if not (initiate (connect_info uri))
          then gives_up client (codes "failed to initiate websocket connection")
          else record { client = record client { context = true }; serving = true; calls = [] }
    ])

-- What `xiaozhi_client_signal_writable` asks libwebsockets for.
pub data Signal : Type 0 where
  callback_on_writable cancel_service : Signal

unfoldable pub signal_writable : Client → List Signal
signal_writable client =
    (if client.wsi then callback_on_writable ∷ [] else [])
    ++ (if client.context then cancel_service ∷ [] else [])

-- `memory` and `copied` are whether `realloc` and `strdup` found memory.
unfoldable pub queue_text : Client → Bytes → Bool → Bool → Status × Client
queue_text client payload memory copied =
    let (rc, pending) = TextQueue.queue client.pending_text payload memory copied in
    (rc, record client { pending_text = pending })

unfoldable pub queue_binary : Client → Bytes → Status × Client
queue_binary client payload =
    if length payload == 0
    then (failed, client)
    else (let (rc, pending) = AudioBuffer.push client.pending_binary payload (pos 0) in
        (rc, record client { pending_binary = pending }))

unfoldable pub pending_text_count : Client → ℕ
pending_text_count client = client.pending_text.count

unfoldable pub peek_pending_text : Client → ℕ → Option Bytes
peek_pending_text client index = TextQueue.peek client.pending_text index

unfoldable pub is_connected : Client → Bool
is_connected client = client.connected

-- What `memset` leaves of a client.
abbrev pub zero_client : Client
zero_client = record {
  config = record {
    url = [];
    protocol_version = pos 0;
    authorization = [];
    device_id = [];
    client_id = [];
  };
  pending_text = TextQueue.empty;
  pending_binary = AudioBuffer.zero_buffer;
  context = false;
  wsi = false;
  running = false;
  connected = false;
  recv_text = [];
  recv_binary = [];
}

-- `xiaozhi_client_destroy`: the client is stopped, its memory is freed and its record cleared.
unfoldable pub destroy : Client → Client
destroy client = zero_client
