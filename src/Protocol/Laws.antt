-- ===== src/Protocol/Laws.antt =====
-- What the code relies on of cJSON, and what it then reads of the objects that it builds.
use xiaozhi.Base.{
  ℕ, ◌+◌, ◌-◌, ◌≡◌, ◌<◌, ap, Bool, true, ◌&&◌, ltb, [], ◌∷◌, Option, none, some, arith,
  if◌then◌else◌, length, take_all,
}
use xiaozhi.Base.Int.{ℤ}
use xiaozhi.Base.Strings.{Bytes, codes, str_eq, truncate}
use xiaozhi.Protocol.{
  Json, Kind, IncomingEvent, HelloConfig, string_at, number_at, and_then, read_event,
  parse_incoming_json, audio_params, hello_object, build_hello, parse_type, is_text,
  copy_json_string, copy_json_number,
}

-- `tolower` of ASCII.
abbrev pub lower : ℕ → ℕ
lower c = if ltb 64 c && ltb c 91 then c + 32 else c

abbrev pub lower_all : Bytes → Bytes
lower_all [] = []
lower_all (c ∷ s) = lower c ∷ lower_all s

-- `cJSON_GetObjectItem` compares names without regard to case.
abbrev pub same_key : Bytes → Bytes → Bool
same_key a b = str_eq (lower_all a) (lower_all b)

-- The item of a name: that of the object as it was, or else what was added under the name.
abbrev pub or_added : {Item : Type 0} → Option Item → Bool → Item → Option Item
or_added (some item) same added = some item
or_added none same added = if same then some added else none

-- cJSON: what is added to an object is found under its name, behind what was there.
pub record Laws {Item : Type 0} (json : Json Item) : Type 0 where
  pub text : Bytes → Item
  pub int : ℤ → Item
  pub string-text : (s : Bytes) → json.string (text s) ≡ some s
  pub string-int : (n : ℤ) → json.string (int n) ≡ none
  pub number-int : (n : ℤ) → json.number (int n) ≡ some n
  pub get-create_object : (key : Bytes) → json.get json.create_object key ≡ none
  pub get-add_string :
      (item : Item) (name s key : Bytes)
      → json.get (json.add_string item name s) key
        ≡ or_added (json.get item key) (same_key name key) (text s)
  pub get-add_number :
      (item : Item) (name : Bytes) (n : ℤ) (key : Bytes)
      → json.get (json.add_number item name n) key
        ≡ or_added (json.get item key) (same_key name key) (int n)
  pub get-add_item :
      (item : Item) (name : Bytes) (child : Item) (key : Bytes)
      → json.get (json.add_item item name child) key
        ≡ or_added (json.get item key) (same_key name key) child

-- The object of a hello.
abbrev pub hello_root : {Item : Type 0} → Json Item → HelloConfig → Item
hello_root json cfg =
    json.add_item (hello_object json cfg) (codes "audio_params") (audio_params json cfg)

abbrev pub hello_event : HelloConfig → IncomingEvent
hello_event cfg = record {
  type = Kind.hello;
  session_id = [];
  text = [];
  emotion = [];
  output_sample_rate = cfg.sample_rate;
  output_channels = cfg.channels;
}

module _ {Item : Type 0} {json : Json Item} (laws : Laws json) (cfg : HelloConfig) where
  read_hello : read_event json (hello_root json cfg) ≡ hello_event cfg
  unfolding read_event hello_object audio_params string_at number_at and_then parse_type is_text
      copy_json_string copy_json_number str_eq
  read_hello = simp (
    laws.get-create_object, laws.get-add_string, laws.get-add_number, laws.get-add_item,
    laws.string-text, laws.number-int,
  )

  -- A hello is read back: if the library prints the object as a text that fits the buffer, and parses
  -- the text to the object again, then the program's own reader takes the message that the program
  -- sends for a hello with the sample rate and the channels that went into it, and nothing else.
  -- Names are found as they were added.
  pub hello_reads_back :
      (size : ℕ) (printed : Bytes)
      → json.print (hello_root json cfg) ≡ some printed
      → length printed < size
      → json.parse printed ≡ some (hello_root json cfg)
      → (build_hello json cfg size true ≡ some printed)
        × (parse_incoming_json json printed ≡ some (hello_event cfg))
  unfolding build_hello parse_incoming_json
  hello_reads_back size printed print fits parse =
      let whole : truncate size printed ≡ printed = take_all (size - 1) printed (omega arith) in
      (
        rw (print, build_hello) (ap some whole),
        rw (parse, parse_incoming_json) (ap some read_hello),
      )
