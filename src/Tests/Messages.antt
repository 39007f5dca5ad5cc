-- ===== src/Tests/Messages.antt =====
-- The messages and the service for the browser, with a JSON library of trees.
use xiaozhi.App.Setup.{zero_config}
use xiaozhi.Base.{◌≡◌, ◌↔◌, refl, true, [], ◌∷◌, some, arith}
use xiaozhi.Base.Int.{pos, negsuc}
use xiaozhi.Base.Strings.{Bytes, codes}
use xiaozhi.Browser.Command.{command_parse, led_params}
use xiaozhi.Browser.Command.Answer.{
  Answers, answer_root, status_of, message_of, command_parse-Answers,
}
use xiaozhi.Browser.Command.Led.{Asks, command_parse_led_iff}
use xiaozhi.Browser.Server.{established, receive, writeable}
use xiaozhi.Browser.Server.Broadcast.{Event, all_written, all_due, all_written_lem}
use xiaozhi.Base.{Option, none, List, failed}
use xiaozhi.Config.Types.{AppConfig}
use xiaozhi.Ota.Request.{request_root, build_request}
use xiaozhi.Ota.Request.Fields.{Requested, build_request-Requested}
use xiaozhi.Protocol.{Json, HelloConfig, build_hello, parse_incoming_json, string_at}
use xiaozhi.Protocol.Laws.{hello_root, hello_event, hello_reads_back}
use xiaozhi.Tests.Trees.{Tree, word, int, object, field, trees, trees-Laws}

abbrev hello_config : HelloConfig
hello_config = record {
  protocol_version = pos 1;
  sample_rate = pos 16000;
  channels = pos 1;
  frame_duration_ms = pos 60;
}

-- Trees that parse every text as the hello.
abbrev hello_tree : Tree
hello_tree = hello_root (trees (λ s. none) []) hello_config

abbrev hellos : Json Tree
hellos = trees (λ s. some hello_tree) (codes "{}")

hello_reads_back_example :
    (build_hello hellos hello_config 512 true ≡ some (codes "{}"))
    × (parse_incoming_json hellos (codes "{}") ≡ some (hello_event hello_config))
unfolding xiaozhi.Protocol.hello_object xiaozhi.Protocol.audio_params
hello_reads_back_example =
    hello_reads_back (trees-Laws (λ s. some hello_tree) (codes "{}")) hello_config 512 (codes "{}")
      refl (omega arith) refl

abbrev some_config : AppConfig
some_config = record zero_config {
  board = record { type = codes "desktop"; name = codes "pc"; ssid = []; rssi = negsuc 59 };
  device = record { device_id = codes "d1"; client_id = [] };
}

abbrev request_tree : Tree
request_tree = request_root (trees (λ s. none) []) some_config

abbrev requests : Json Tree
requests = trees (λ s. some request_tree) (codes "{}")

build_request-Requested_example :
    (build_request requests some_config 2048 true ≡ some (codes "{}"))
    × ((root : Tree) × (some request_tree ≡ some root)
        × Requested (trees-Laws (λ s. some request_tree) (codes "{}")) some_config root)
unfolding request_root xiaozhi.Ota.Request.application xiaozhi.Ota.Request.board
    xiaozhi.Ota.Request.add_optional_string
build_request-Requested_example =
    build_request-Requested (trees-Laws (λ s. some request_tree) (codes "{}")) some_config 2048
      (codes "{}") refl (omega arith) refl

-- A command that sets LED 3.
abbrev led_tree : Tree
led_tree =
    field
      (field (field object (codes "type") (word (codes "cmd"))) (codes "action")
        (word (codes "set_led")))
      (codes "params")
      (field (field object (codes "id") (int (pos 3))) (codes "state") (word (codes "on")))

abbrev answer_tree : Tree
answer_tree = answer_root (trees (λ s. none) []) led_tree (codes "set_led")

-- A text of one byte is the command, a longer one the answer.
abbrev parses : Bytes → Option Tree
parses [] = none
parses (c ∷ []) = some led_tree
parses _ = some answer_tree

abbrev commands : Json Tree
commands = trees parses (codes "{}")

command_parse_led_iff_example :
    (((command_parse commands (codes "c") [] 1024).status ≡ failed)
      ↔ (commands.parse (codes "c") ≡ none))
    × (((command_parse commands (codes "c") [] 1024).led ≡ some (pos 3, codes "on")) ↔ (
        (root : Tree) × (commands.parse (codes "c") ≡ some root)
        × Asks commands root (pos 3) (codes "on")))
command_parse_led_iff_example =
    command_parse_led_iff commands (codes "c") [] 1024 (pos 3) (codes "on")

command_parse-Answers_example :
    let led = led_params commands led_tree in
    ((command_parse commands (codes "c") [] 1024).response ≡ codes "{}")
    × ((answer : Tree) × (commands.parse (codes "{}") ≡ some answer)
        × Answers commands answer
            (codes "set_led")
            (status_of (codes "set_led") led)
            (message_of (codes "set_led") led))
unfolding string_at xiaozhi.Protocol.and_then xiaozhi.Base.Strings.str_eq led_params
    xiaozhi.Protocol.number_at xiaozhi.Browser.Command.response_root
    xiaozhi.Browser.Command.with_msg
command_parse-Answers_example =
    command_parse-Answers (trees-Laws parses (codes "{}")) (codes "c") [] 1024 led_tree
      (codes "set_led") (codes "{}") refl refl refl refl (omega arith) refl

abbrev session_events : List Event
session_events =
    record { stack = []; global = codes "m1"; reason = writeable }
    ∷ record { stack = []; global = codes "m1"; reason = receive (codes "c") }
    ∷ record { stack = []; global = codes "m2"; reason = writeable }
    ∷ []

all_written_lem_example :
    all_written commands
      (record { msg = codes "x" })
      (record { stack = []; global = []; reason = established } ∷ session_events)
    ≡ all_due commands session_events
all_written_lem_example = all_written_lem commands [] [] (record { msg = codes "x" }) session_events
