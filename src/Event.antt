-- ===== src/Event.antt =====
-- src/event_queue.h: the events that the threads of the program send to the main loop.
use xiaozhi.Base.{ℕ}
use xiaozhi.Base.Int.{ℤ}
use xiaozhi.Base.Strings.{Bytes}

pub data EventType : Type 0 where
  nothing manual_start manual_stop wakeword_detected : EventType
  ws_connected ws_hello ws_text ws_binary : EventType
  capture_silence_timeout playback_finished error shutdown : EventType

-- `text` is the string in `char text[1024]`.
pub record Event : Type 0 where
  pub type : EventType
  pub code : ℤ
  pub data_len : ℕ
  pub text : Bytes

abbrev pub text_size : ℕ
text_size = 1024
