-- ===== src/Browser/Command/Answer.antt =====
-- What the browser reads of the answer to a command.
use xiaozhi.Base.{
  ℕ, ◌-◌, ◌≡◌, ◌<◌, refl, ap, ◌∙◌, inl, inr, Bool-cases, Option, none, some, if◌then◌else◌, arith,
  length, take_all,
}
use xiaozhi.Base.Int.{ℤ}
use xiaozhi.Base.Strings.{Bytes, codes, str_eq, truncate}
use xiaozhi.Browser.Command.{
  command_parse, parsed, after_type, act, set_led, led_params, create_response, response_root,
  with_msg,
}
use xiaozhi.Protocol.{Json, is_text, string_at, and_then}
use xiaozhi.Protocol.Laws.{Laws}

abbrev led_status : Option (ℤ × Bytes) → Bytes
led_status none = codes "error"
led_status (some led) = codes "ok"

abbrev led_message : Option (ℤ × Bytes) → Option Bytes
led_message none = some (codes "invalid params for set_led")
led_message (some led) = none

-- The status of the answer: "ok" for get_status, and for set_led with its parameters.
abbrev pub status_of : Bytes → Option (ℤ × Bytes) → Bytes
status_of action led =
    if str_eq action (codes "set_led")
    then led_status led
    else if str_eq action (codes "get_status")
    then codes "ok"
    else codes "error"

-- The message that goes with it.
abbrev pub message_of : Bytes → Option (ℤ × Bytes) → Option Bytes
message_of action led =
    if str_eq action (codes "set_led")
    then led_message led
    else if str_eq action (codes "get_status")
    then some (codes "System is running")
    else some (codes "unknown action")

module _ {Item : Type 0} (json : Json Item) where
  -- The object of the answer to an action.
  abbrev pub answer_root : Item → Bytes → Item
  answer_root root action =
      response_root json action (status_of action (led_params json root))
        (message_of action (led_params json root))

  set_led-response :
      (buf : Bytes) (size : ℕ) (action : Bytes) (led : Option (ℤ × Bytes))
      → (set_led json buf size action led).response
        ≡ create_response json buf size action (led_status led) (led_message led)
  unfolding set_led
  set_led-response buf size action none = refl
  set_led-response buf size action (some led) = refl

  act-response :
      (buf : Bytes) (size : ℕ) (root : Item) (action : Bytes)
      → (act json buf size root action).response
        ≡ create_response json buf size action
            (status_of action (led_params json root))
            (message_of action (led_params json root))
  unfolding act
  act-response buf size root action = elim (Bool-cases (str_eq action (codes "set_led"))) [
    | inl e ↦ rw e (set_led-response buf size action (led_params json root))
    | inr e ↦ elim (Bool-cases (str_eq action (codes "get_status"))) [
      | inl f ↦ rw (e, f) refl
      | inr f ↦ rw (e, f) refl
    ]
  ]

  parsed-response :
      (buf : Bytes) (size : ℕ) (root : Item) (action : Bytes)
      → string_at json root (codes "type") ≡ some (codes "cmd")
      → string_at json root (codes "action") ≡ some action
      → (parsed json buf size (some root)).response ≡ (act json buf size root action).response
  unfolding parsed after_type is_text str_eq
  parsed-response buf size root action type given = rw (type, given) refl

-- What the browser reads of an answer.
pub record Answers {Item : Type 0} (json : Json Item) (answer : Item) (action status : Bytes)
    (msg : Option Bytes) : Type 0 where
  pub type : string_at json answer (codes "type") ≡ some (codes "cmd_result")
  pub action_named : string_at json answer (codes "action") ≡ some action
  pub status_given : string_at json answer (codes "status") ≡ some status
  pub msg_given : string_at json answer (codes "msg") ≡ msg

module _ {Item : Type 0} {json : Json Item} (laws : Laws json) where
  root-Answers :
      (action status : Bytes) (msg : Option Bytes)
      → Answers json (response_root json action status msg) action status msg
  unfolding response_root with_msg string_at and_then str_eq
  root-Answers action status none = record {
    type = simp (laws.get-create_object, laws.get-add_string, laws.string-text);
    action_named = simp (laws.get-create_object, laws.get-add_string, laws.string-text);
    status_given = simp (laws.get-create_object, laws.get-add_string, laws.string-text);
    msg_given = simp (laws.get-create_object, laws.get-add_string);
  }
  root-Answers action status (some msg) = record {
    type = simp (laws.get-create_object, laws.get-add_string, laws.string-text);
    action_named = simp (laws.get-create_object, laws.get-add_string, laws.string-text);
    status_given = simp (laws.get-create_object, laws.get-add_string, laws.string-text);
    msg_given = simp (laws.get-create_object, laws.get-add_string, laws.string-text);
  }

  -- The answer to a command names its action, and its status is "ok" exactly for get_status, and for
  -- set_led with a number and a text for its parameters; the message is that of the status. The text
  -- is a command with an action, and the library prints the object of the answer as a text that fits
  -- the buffer and parses the text to the object again. Names are found as they were added.
  pub command_parse-Answers :
      (text buf : Bytes) (size : ℕ) (root : Item) (action out : Bytes)
      → json.parse text ≡ some root
      → string_at json root (codes "type") ≡ some (codes "cmd")
      → string_at json root (codes "action") ≡ some action
      → json.print (answer_root json root action) ≡ some out
      → length out < size
      → json.parse out ≡ some (answer_root json root action)
      → let led = led_params json root in
        ((command_parse json text buf size).response ≡ out)
        × ((answer : Item) × (json.parse out ≡ some answer)
            × Answers json answer action (status_of action led) (message_of action led))
  unfolding command_parse create_response
  command_parse-Answers text buf size root action out parse type given print fits reads =
      let led = led_params json root in
      let whole : truncate size out ≡ out = take_all (size - 1) out (omega arith) in
      let printed : create_response json buf size action (status_of action led)
            (message_of action led)
          ≡ out =
        rw (print, create_response) whole in
      (
        ap (λ x. (parsed json buf size x).response) parse
            ∙ parsed-response json buf size root action type given
            ∙ act-response json buf size root action
            ∙ printed,
        (
          answer_root json root action,
          reads,
          root-Answers action (status_of action led) (message_of action led),
        ),
      )
