-- ===== src/Client/Receive.antt =====
-- How received fragments become messages.
pub mod Whole
use xiaozhi.Base.{
  ℕ, ◌+◌, Bool, true, false, List, [], ◌∷◌, ◌++◌, Status, ok, failed, ◌||◌, ◌==◌, ltb, leb,
  if◌then◌else◌, length,
}
use xiaozhi.Base.Strings.{Bytes, codes}
use xiaozhi.Client.State.{Client, Callback, on_text, on_binary, on_error}

-- `sizeof(recv_text)` and `sizeof(recv_binary)`.
abbrev pub recv_size : ℕ
recv_size = 4096

pub record Received : Type 0 where
  pub status : Status
  pub client : Client
  pub calls : List Callback

unfoldable pub feed_binary_fragment : Client → Bytes → Bool → Received
feed_binary_fragment client payload is_final =
    if length payload == 0
    then record { status = failed; client = client; calls = [] }
    else if ltb recv_size (length client.recv_binary + length payload)
    then record { status = failed; client = record client { recv_binary = [] }; calls = [] }
    else if is_final
    then record {
      status = ok;
      client = record client { recv_binary = [] };
      calls = on_binary (client.recv_binary ++ payload) ∷ [];
    }
    else record {
      status = ok;
      client = record client { recv_binary = client.recv_binary ++ payload };
      calls = [];
    }

abbrev pub binary_too_large : Bytes
binary_too_large = codes "received binary frame too large"

abbrev pub text_too_large : Bytes
text_too_large = codes "received text frame too large"

-- LWS_CALLBACK_CLIENT_RECEIVE for a binary frame.
unfoldable pub receive_binary : Client → Bytes → Bool → Client × List Callback
receive_binary client payload is_final =
    let r = feed_binary_fragment client payload is_final in
    elim r.status [
      | ok ↦ (r.client, r.calls)
      | failed ↦ (r.client, r.calls ++ on_error binary_too_large ∷ [])
    ]

-- The same for a text frame.
unfoldable pub receive_text : Client → Bytes → Bool → Client × List Callback
receive_text client payload is_final =
    if leb recv_size (length client.recv_text + length payload)
    then (record client { recv_text = [] }, on_error text_too_large ∷ [])
    else if is_final
    then (record client { recv_text = [] }, on_text (client.recv_text ++ payload) ∷ [])
    else (record client { recv_text = client.recv_text ++ payload }, [])
