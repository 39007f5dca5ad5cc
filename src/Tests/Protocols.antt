-- ===== src/Tests/Protocols.antt =====
-- The messages.
use xiaozhi.Base.{◌≡◌, ◌↔◌, [], some, arith, ok}
use xiaozhi.Base.Int.{pos}
use xiaozhi.Base.Strings.{Bytes, codes}
use xiaozhi.Protocol.Build.{build_listen_manual_lem}
use xiaozhi.Protocol.Types.{Wire, parse_type_iff}
use xiaozhi.Protocol.{
  Json, Kind, listen_text, parse_type, build_listen_start_manual, build_listen_stop_manual,
}

parse_type_iff_example :
    (parse_type (some (codes "tts")) (some (codes "stop")) ≡ Kind.tts_stop)
    ↔ Wire Kind.tts_stop (some (codes "tts")) (some (codes "stop"))
parse_type_iff_example =
    parse_type_iff Kind.tts_stop (some (codes "tts")) (some (codes "stop")) (λ e. cc)

-- A JSON library whose items are texts, each of which is the value of all its names.
abbrev echo : Json Bytes
echo = record {
  parse = λ text. some text;
  get = λ item name. some item;
  string = λ item. some item;
  number = λ item. some (pos 16000);
  create_object = [];
  add_string = λ item name s. item;
  add_number = λ item name n. item;
  add_item = λ item name child. item;
  print = λ item. some item;
}

build_listen_manual_lem_example :
    (build_listen_start_manual (codes "s1") 256 ≡ (
      ok,
      listen_text
          (codes "s1")
          (codes "\",\"type\":\"listen\",\"state\":\"start\",\"mode\":\"manual\"}"),
    ))
    × (build_listen_stop_manual (codes "s1") 256 ≡ (
      ok,
      listen_text
          (codes "s1")
          (codes "\",\"type\":\"listen\",\"state\":\"stop\",\"mode\":\"manual\"}"),
    ))
build_listen_manual_lem_example = build_listen_manual_lem (codes "s1") (λ e. cc) (omega arith)
