-- ===== src/Protocol.antt =====
-- src/xiaozhi_protocol.c and xiaozhi_protocol.h: the JSON messages that the program sends and reads.
-- The JSON library is an argument, `Json`. Buffers and texts are not NULL, and the buffers are not
-- empty.
pub mod Types
pub mod Build
pub mod Laws
use xiaozhi.Base.{
  ℕ, Bool, true, false, not, ◌||◌, List, [], ◌∷◌, ◌++◌, Option, none, some, ◌==◌, leb,
  if◌then◌else◌, length, Status, ok, failed,
}
use xiaozhi.Base.Int.{ℤ, pos}
use xiaozhi.Base.Strings.{Bytes, codes, str_eq, truncate}

-- What the code uses of cJSON. An item that was not found is `none`: `string` is the `valuestring` of
-- an item that `cJSON_IsString` accepts, `number` the `valueint` of one that `cJSON_IsNumber` accepts.
-- `print` is `none` where `cJSON_PrintUnformatted` returns NULL.
pub record Json (Item : Type 0) : Type 0 where
  pub parse : Bytes → Option Item
  pub get : Item → Bytes → Option Item
  pub string : Item → Option Bytes
  pub number : Item → Option ℤ
  pub create_object : Item
  pub add_string : Item → Bytes → Bytes → Item
  pub add_number : Item → Bytes → ℤ → Item
  pub add_item : Item → Bytes → Item → Item
  pub print : Item → Option Bytes

pub data Kind : Type 0 where
  nothing hello stt llm tts_start tts_stop tts_sentence : Kind
  system mcp iot unknown : Kind

pub record IncomingEvent : Type 0 where
  pub type : Kind
  pub session_id : Bytes
  pub text : Bytes
  pub emotion : Bytes
  pub output_sample_rate : ℤ
  pub output_channels : ℤ

-- Whether the string of an item is there and equal to the text.
unfoldable pub is_text : Option Bytes → Bytes → Bool
is_text none t = false
is_text (some s) t = str_eq s t

-- The part of `parse_type` for "tts".
unfoldable pub parse_state : Option Bytes → Kind
parse_state state =
    if is_text state (codes "start")
    then Kind.tts_start
    else if is_text state (codes "stop")
    then Kind.tts_stop
    else if is_text state (codes "sentence_start") || is_text state (codes "sentence_end")
    then Kind.tts_sentence
    else Kind.unknown

-- `parse_type`, of the strings of the two items.
unfoldable pub parse_type : Option Bytes → Option Bytes → Kind
parse_type type state =
    if is_text type (codes "hello")
    then Kind.hello
    else if is_text type (codes "stt")
    then Kind.stt
    else if is_text type (codes "llm")
    then Kind.llm
    else if is_text type (codes "system")
    then Kind.system
    else if is_text type (codes "mcp")
    then Kind.mcp
    else if is_text type (codes "iot")
    then Kind.iot
    else if is_text type (codes "tts")
    then parse_state state
    else Kind.unknown

-- `copy_json_string` into an array of `size` bytes.
unfoldable pub copy_json_string : ℕ → Option Bytes → Bytes
copy_json_string size none = []
copy_json_string size (some s) = truncate size s

-- A number of the zeroed event that is overwritten when the item is a number.
unfoldable pub copy_json_number : Option ℤ → ℤ
copy_json_number none = pos 0
copy_json_number (some n) = n

unfoldable pub and_then : {A B : Type 0} → Option A → (A → Option B) → Option B
and_then none f = none
and_then (some a) f = f a

module _ {Item : Type 0} (json : Json Item) where
  -- The string under a name of an object, and the number.
  unfoldable pub string_at : Item → Bytes → Option Bytes
  string_at root name = and_then (json.get root name) json.string

  unfoldable pub number_at : Option Item → Bytes → Option ℤ
  number_at root name = and_then root (λ r. and_then (json.get r name) json.number)

  unfoldable pub read_event : Item → IncomingEvent
  read_event root = record {
    type = parse_type (string_at root (codes "type")) (string_at root (codes "state"));
    session_id = copy_json_string 64 (string_at root (codes "session_id"));
    text = copy_json_string 256 (string_at root (codes "text"));
    emotion = copy_json_string 64 (string_at root (codes "emotion"));
    output_sample_rate =
        copy_json_number (number_at (json.get root (codes "audio_params")) (codes "sample_rate"));
    output_channels =
        copy_json_number (number_at (json.get root (codes "audio_params")) (codes "channels"));
  }

  -- `xiaozhi_parse_incoming_json`; `none` is the return value -1.
  unfoldable pub parse_incoming_json : Bytes → Option IncomingEvent
  parse_incoming_json text = elim (json.parse text) [
    | none ↦ none
    | some root ↦ some (read_event root)
  ]

-- `xiaozhi_hello_config_t`
pub record HelloConfig : Type 0 where
  pub protocol_version : ℤ
  pub sample_rate : ℤ
  pub channels : ℤ
  pub frame_duration_ms : ℤ

module _ {Item : Type 0} (json : Json Item) where
  unfoldable pub audio_params : HelloConfig → Item
  audio_params cfg =
      json.add_number
        (json.add_number
          (json.add_number (json.add_string json.create_object (codes "format") (codes "opus"))
            (codes "sample_rate") cfg.sample_rate)
          (codes "channels") cfg.channels)
        (codes "frame_duration") cfg.frame_duration_ms

  unfoldable pub hello_object : HelloConfig → Item
  hello_object cfg =
      json.add_string
        (json.add_number (json.add_string json.create_object (codes "type") (codes "hello"))
          (codes "version") cfg.protocol_version)
        (codes "transport") (codes "websocket")

  -- `xiaozhi_build_hello` and `print_json`: the text that is left in the buffer; `none` is -1.
  -- `created` is whether both objects could be created.
  unfoldable pub build_hello : HelloConfig → ℕ → Bool → Option Bytes
  unfolding audio_params hello_object
  build_hello cfg buf_size created =
      if not created
      then none
      else (elim (json.print
          (json.add_item (hello_object cfg) (codes "audio_params") (audio_params cfg))) [
            | none ↦ none
            | some printed ↦ some (truncate buf_size printed)
          ])

-- `snprintf` into a buffer of `buf_size` bytes: the return value, and what is left in the buffer.
-- `(int)buf_size` is `buf_size` for the sizes that the program passes.
unfoldable pub print_text : Bytes → ℕ → Status × Bytes
print_text text buf_size =
    (if leb buf_size (length text) then failed else ok, truncate buf_size text)

unfoldable pub build_listen_detect : ℕ → Status × Bytes
build_listen_detect = print_text (codes "{\"type\":\"listen\",\"state\":\"detect\"}")

unfoldable pub build_listen_start : ℕ → Status × Bytes
build_listen_start =
    print_text (codes "{\"type\":\"listen\",\"state\":\"start\",\"mode\":\"auto\"}")

unfoldable pub build_listen_stop : ℕ → Status × Bytes
build_listen_stop = print_text (codes "{\"type\":\"listen\",\"state\":\"stop\"}")

-- The two texts round a session's id.
unfoldable pub listen_text : Bytes → Bytes → Bytes
listen_text session_id rest = codes "{\"session_id\":\"" ++ (session_id ++ rest)

unfoldable pub build_listen_start_manual : Bytes → ℕ → Status × Bytes
build_listen_start_manual [] buf_size = (failed, [])
build_listen_start_manual (c ∷ session_id) buf_size =
    print_text
      (listen_text (c ∷ session_id)
        (codes "\",\"type\":\"listen\",\"state\":\"start\",\"mode\":\"manual\"}"))
      buf_size

unfoldable pub build_listen_stop_manual : Bytes → ℕ → Status × Bytes
build_listen_stop_manual [] buf_size = (failed, [])
build_listen_stop_manual (c ∷ session_id) buf_size =
    print_text
      (listen_text (c ∷ session_id)
        (codes "\",\"type\":\"listen\",\"state\":\"stop\",\"mode\":\"manual\"}"))
      buf_size

safe_reason : Option Bytes → Bytes
safe_reason none = codes "unknown"
safe_reason (some reason) = reason

unfoldable pub build_abort : Option Bytes → ℕ → Status × Bytes
unfolding safe_reason
build_abort reason buf_size =
    print_text (codes "{\"type\":\"abort\",\"reason\":\"" ++ (safe_reason reason ++ codes "\"}"))
      buf_size
