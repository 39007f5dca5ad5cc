-- ===== src/Browser/Command.antt =====
-- src/command.c: the commands of the browser and the answers to them.
pub mod Led
pub mod Answer
use xiaozhi.Base.{
  ℕ, Bool, true, false, not, List, [], ◌∷◌, Option, none, some, Status, ok, failed, if◌then◌else◌,
}
use xiaozhi.Base.Int.{ℤ}
use xiaozhi.Base.Strings.{Bytes, codes, str_eq, truncate}
use xiaozhi.Protocol.{Json, is_text, string_at, number_at, and_then}

-- The return value, what `response_buf` holds, and the LED that is set, by its number and state.
pub record Answered : Type 0 where
  pub status : Status
  pub response : Bytes
  pub led : Option (ℤ × Bytes)

-- A text that `snprintf` writes into the buffer.
abbrev error_text : ℕ → Bytes → Bytes
error_text buf_size text = truncate buf_size text

both : Option ℤ → Option Bytes → Option (ℤ × Bytes)
both none state = none
both (some id) none = none
both (some id) (some state) = some (id, state)

module _ {Item : Type 0} (json : Json Item) where
  unfoldable pub with_msg : Item → Option Bytes → Item
  with_msg root none = root
  with_msg root (some msg) = json.add_string root (codes "msg") msg

  -- The object of `create_response`.
  unfoldable pub response_root : Bytes → Bytes → Option Bytes → Item
  response_root action status msg =
      with_msg
        (json.add_string
          (json.add_string (json.add_string json.create_object (codes "type") (codes "cmd_result"))
            (codes "action") action)
          (codes "status") status)
        msg

  -- `create_response` into a buffer that holds `buf`: the buffer stays as it is if the library cannot
  -- print the object.
  unfoldable pub create_response : Bytes → ℕ → Bytes → Bytes → Option Bytes → Bytes
  create_response buf buf_size action status msg =
      elim (json.print (response_root action status msg)) [
        | none ↦ buf
        | some json_out ↦ truncate buf_size json_out
      ]

  -- The parameters of set_led: the number `id` and the text `state`.
  unfoldable pub led_params : Item → Option (ℤ × Bytes)
  unfolding both
  led_params root =
      let params = json.get root (codes "params") in
      both (number_at json params (codes "id"))
        (and_then params (λ p. string_at json p (codes "state")))

  unfoldable pub set_led : Bytes → ℕ → Bytes → Option (ℤ × Bytes) → Answered
  set_led buf buf_size action none = record {
    status = ok;
    response =
        create_response buf buf_size action (codes "error")
          (some (codes "invalid params for set_led"));
    led = none;
  }
  set_led buf buf_size action (some led) = record {
    status = ok;
    response = create_response buf buf_size action (codes "ok") none;
    led = some led;
  }

  -- From the action on.
  unfoldable pub act : Bytes → ℕ → Item → Bytes → Answered
  unfolding set_led
  act buf buf_size root action =
      if str_eq action (codes "set_led")
      then set_led buf buf_size action (led_params root)
      else if str_eq action (codes "get_status")
      then record {
        status = ok;
        response =
            create_response buf buf_size action (codes "ok") (some (codes "System is running"));
        led = none;
      }
      else record {
        status = ok;
        response =
            create_response buf buf_size action (codes "error") (some (codes "unknown action"));
        led = none;
      }

  unfoldable pub after_type : Bytes → ℕ → Item → Option Bytes → Answered
  after_type buf buf_size root none = record {
    status = ok;
    response = error_text buf_size (codes "{\"type\":\"error\",\"msg\":\"missing action\"}");
    led = none;
  }
  after_type buf buf_size root (some action) = act buf buf_size root action

  unfoldable pub parsed : Bytes → ℕ → Option Item → Answered
  unfolding after_type
  parsed buf buf_size none = record {
    status = failed;
    response = error_text buf_size (codes "{\"type\":\"error\",\"msg\":\"invalid json\"}");
    led = none;
  }
  parsed buf buf_size (some root) =
      if not (is_text (string_at json root (codes "type")) (codes "cmd"))
      then record {
        status = ok;
        response =
            error_text buf_size (codes "{\"type\":\"error\",\"msg\":\"missing or invalid type\"}");
        led = none;
      }
      else after_type buf buf_size root (string_at json root (codes "action"))

  -- `command_parse`; `buf` is what the buffer holds before.
  unfoldable pub command_parse : Bytes → Bytes → ℕ → Answered
  unfolding parsed
  command_parse text buf buf_size = parsed buf buf_size (json.parse text)
