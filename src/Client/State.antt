-- ===== src/Client/State.antt =====
-- src/xiaozhi_client.h: the state of the websocket client, and what the client tells the program.
use xiaozhi.AudioBuffer.{AudioBuffer}
use xiaozhi.Base.{Bool}
use xiaozhi.Base.Int.{ℤ}
use xiaozhi.Base.Strings.{Bytes}
use xiaozhi.Client.TextQueue.{TextQueue}

pub record ClientConfig : Type 0 where
  pub url : Bytes
  pub protocol_version : ℤ
  pub authorization : Bytes
  pub device_id : Bytes
  pub client_id : Bytes

-- The calls of `xiaozhi_client_callbacks_t`, all of which the program sets.
pub data Callback : Type 0 where
  on_connected : Callback
  on_disconnected : ℤ → Callback
  on_text : Bytes → Callback
  on_binary : Bytes → Callback
  on_error : Bytes → Callback

-- `recv_text` and `recv_binary` are the first `recv_text_len` and `recv_binary_len` bytes of the two
-- arrays. `wsi` and `context` are whether the pointers are set.
pub record Client : Type 0 where
  pub config : ClientConfig
  pub pending_text : TextQueue
  pub pending_binary : AudioBuffer
  pub context : Bool
  pub wsi : Bool
  pub running : Bool
  pub connected : Bool
  pub recv_text : Bytes
  pub recv_binary : Bytes
