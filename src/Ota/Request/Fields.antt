-- ===== src/Ota/Request/Fields.antt =====
-- What a reader of the OTA request finds in it.
use xiaozhi.Base.{
  ℕ, ◌≡◌, ◌<◌, refl, ◌∙◌, Bool, true, false, [], ◌∷◌, Option, none, some, arith, inl, inr,
  Bool-cases, if◌then◌else◌, length, leb,
}
use xiaozhi.Base.Int.{pos, int_eq}
use xiaozhi.Base.Strings.{Bytes, codes, str_eq}
use xiaozhi.Config.Types.{AppConfig}
use xiaozhi.Protocol.{Json, string_at, and_then}
use xiaozhi.Protocol.Laws.{Laws, same_key, or_added}
use xiaozhi.Ota.Request.{add_optional_string, application, board, request_root, build_request}

-- A value that is left out if it is empty.
abbrev pub given : Bytes → Option Bytes
given [] = none
given (c ∷ value) = some (c ∷ value)

abbrev or_optional : {Item : Type 0} → Option Item → Bool → Option Item → Option Item
or_optional (some item) same added = some item
or_optional none same added = if same then added else none

module _ {Item : Type 0} {json : Json Item} (laws : Laws json) where
  abbrev item_of : Bytes → Option Item
  item_of [] = none
  item_of (c ∷ value) = some (laws.text (c ∷ value))

  or_empty : (x : Option Item) (b : Bool) → x ≡ or_optional x b none
  or_empty none true = refl
  or_empty none false = refl
  or_empty (some i) b = refl

  or_some : (x : Option Item) (b : Bool) (i : Item) → or_added x b i ≡ or_optional x b (some i)
  or_some none b i = refl
  or_some (some j) b i = refl

  get-add_optional :
      (object : Item) (key value name : Bytes)
      → json.get (add_optional_string json object key value) name
        ≡ or_optional (json.get object name) (same_key key name) (item_of value)
  unfolding add_optional_string
  get-add_optional object key [] name = or_empty (json.get object name) (same_key key name)
  get-add_optional object key (c ∷ value) name =
      laws.get-add_string object key (c ∷ value) name
      ∙ or_some (json.get object name) (same_key key name) (laws.text (c ∷ value))

  string-item_of : (value : Bytes) → and_then (item_of value) json.string ≡ given value
  unfolding and_then
  string-item_of [] = refl
  string-item_of (c ∷ value) = laws.string-text (c ∷ value)

  or_added-false : (x : Option Item) (y : Item) → or_added x false y ≡ x
  or_added-false none y = refl
  or_added-false (some i) y = refl

  or_optional-false : (x y : Option Item) → or_optional x false y ≡ x
  or_optional-false none y = refl
  or_optional-false (some i) y = refl

module _ {Item : Type 0} {json : Json Item} (laws : Laws json) (cfg : AppConfig) where
  -- The application, as the server reads it.
  pub record Application (object : Item) : Type 0 where
    pub version : string_at json object (codes "version") ≡ some cfg.ota.app_version
    pub sha : string_at json object (codes "elf_sha256") ≡ given cfg.ota.elf_sha256

  -- The board; its strength of signal only if it is not 0.
  pub record Board (object : Item) : Type 0 where
    pub type : string_at json object (codes "type") ≡ some cfg.board.type
    pub name : string_at json object (codes "name") ≡ some cfg.board.name
    pub ssid : string_at json object (codes "ssid") ≡ given cfg.board.ssid
    pub rssi :
        and_then (json.get object (codes "rssi")) json.number
        ≡ (if int_eq cfg.board.rssi (pos 0) then none else some cfg.board.rssi)

  -- The request: texts that are empty are left out.
  pub record Requested (root : Item) : Type 0 where
    pub application : (a : Item) × (json.get root (codes "application") ≡ some a) × Application a
    pub board : (b : Item) × (json.get root (codes "board") ≡ some b) × Board b
    pub mac_address : string_at json root (codes "mac_address") ≡ given cfg.device.device_id
    pub uuid : string_at json root (codes "uuid") ≡ given cfg.device.client_id

  application-Application : Application (application json cfg)
  unfolding application string_at str_eq and_then
  application-Application = record {
    version =
        simp (laws.get-create_object, laws.get-add_string, get-add_optional laws, laws.string-text);
    sha =
        simp
          (laws.get-create_object, laws.get-add_string, get-add_optional laws, string-item_of laws);
  }

  board-Board : Board (board json cfg)
  unfolding board string_at str_eq and_then
  board-Board = elim (Bool-cases (int_eq cfg.board.rssi (pos 0))) [
    | inl e ↦ record {
      type =
          simp (
            e,
            laws.get-create_object,
            laws.get-add_string,
            get-add_optional laws,
            laws.string-text,
          );
      name =
          simp (
            e,
            laws.get-create_object,
            laws.get-add_string,
            get-add_optional laws,
            laws.string-text,
          );
      ssid = simp (
        e,
        laws.get-create_object,
        laws.get-add_string,
        get-add_optional laws,
        string-item_of laws,
      );
      rssi = simp (e, laws.get-create_object, laws.get-add_string, get-add_optional laws);
    }
    | inr e ↦ record {
      type = simp (
        e,
        laws.get-create_object,
        laws.get-add_string,
        laws.get-add_number,
        get-add_optional laws,
        laws.string-text,
      );
      name = simp (
        e,
        laws.get-create_object,
        laws.get-add_string,
        laws.get-add_number,
        get-add_optional laws,
        laws.string-text,
      );
      ssid = simp (
        e,
        laws.get-create_object,
        laws.get-add_string,
        laws.get-add_number,
        get-add_optional laws,
        or_added-false laws,
        string-item_of laws,
      );
      rssi = simp (
        e,
        laws.get-create_object,
        laws.get-add_string,
        laws.get-add_number,
        get-add_optional laws,
        laws.number-int,
      );
    }
  ]

  root-Requested : Requested (request_root json cfg)
  unfolding request_root string_at str_eq and_then
  root-Requested = record {
    application = (
      application json cfg,
      simp (laws.get-create_object, laws.get-add_item, get-add_optional laws),
      application-Application,
    );
    board = (
      board json cfg,
      simp (laws.get-create_object, laws.get-add_item, get-add_optional laws),
      board-Board,
    );
    mac_address = simp (
      laws.get-create_object,
      laws.get-add_item,
      get-add_optional laws,
      or_optional-false laws,
      string-item_of laws,
    );
    uuid =
        simp
          (laws.get-create_object, laws.get-add_item, get-add_optional laws, string-item_of laws);
  }

  -- The body of the request says what the configuration says: if the library prints the object as a
  -- text of fewer than `size` bytes and parses the text to the object again, then
  -- `ota_build_request_json` succeeds with the text, and whoever parses it finds the version of the
  -- application, the type and the name of the board, and the hash, the device's id, the client's id,
  -- the ssid and the strength of the signal exactly if they are not empty and not 0. Names are found
  -- as they were added.
  pub build_request-Requested :
      (size : ℕ) (text : Bytes)
      → json.print (request_root json cfg) ≡ some text
      → length text < size
      → json.parse text ≡ some (request_root json cfg)
      → (build_request json cfg size true ≡ some text)
        × ((root : Item) × (json.parse text ≡ some root) × Requested root)
  unfolding build_request
  build_request-Requested size text print fits parse =
      let short : leb size (length text) ≡ false = ground arith in
      (rw (print, short, build_request) refl, (request_root json cfg, parse, root-Requested))
