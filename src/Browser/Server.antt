-- ===== src/Browser/Server.antt =====
-- src/ws_server.c and ws_server.h: the websocket of the browser. `in` and `len` are `payload`, and
-- `malloc` finds memory.
pub mod Broadcast
use xiaozhi.Base.{ℕ, List, [], ◌∷◌, Status, ok, failed, ◌==◌, ltb, if◌then◌else◌, length}
use xiaozhi.Base.Strings.{Bytes}
use xiaozhi.Browser.Command.{Answered, command_parse}
use xiaozhi.Protocol.{Json}

abbrev pub max_payload_size : ℕ
max_payload_size = 1024

-- `per_session_data_sensor`: the first `msg_len` bytes of `msg`.
pub record PerSession : Type 0 where
  pub msg : Bytes

-- The reasons that the server handles.
pub data Reason : Type 0 where
  established : Reason
  receive : Bytes → Reason
  writeable closed other : Reason

-- The bytes before the first NUL.
unfoldable pub c_string : Bytes → Bytes
c_string [] = []
c_string (c ∷ s) = let rest = c_string s in if c == 0 then [] else c ∷ rest

unfoldable answer : Answered → List Bytes
answer a = elim a.status [ ok ↦ a.response ∷ [] | failed ↦ [] ]

module _ {Item : Type 0} (json : Json Item) where
  -- LWS_CALLBACK_RECEIVE: what is written; `stack` is what the array `response` holds before.
  unfoldable pub receive_command : Bytes → Bytes → List Bytes
  unfolding answer
  receive_command stack payload =
      if ltb (length payload) max_payload_size
      then answer (command_parse json (c_string payload) stack max_payload_size)
      else []

  -- LWS_CALLBACK_SERVER_WRITEABLE; `global` are the first `global_broadcast_len` bytes of the message.
  unfoldable pub write_latest : Bytes → PerSession → PerSession × List Bytes
  write_latest global pss =
      let msg = if ltb 0 (length global) then global else pss.msg in
      if ltb 0 (length msg) then (record { msg = [] }, msg ∷ []) else (record { msg = msg }, [])

  -- `ws_callback_sensor`: the session's data, and what is written.
  unfoldable pub callback : Bytes → Bytes → PerSession → Reason → PerSession × List Bytes
  callback stack global pss established = (record { msg = [] }, [])
  callback stack global pss (receive payload) = (pss, receive_command stack payload)
  callback stack global pss writeable = write_latest global pss
  callback stack global pss closed = (pss, [])
  callback stack global pss other = (pss, [])
