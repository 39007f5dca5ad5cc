-- ===== src/Ota/Request.antt =====
-- The request of src/ota_client.c: `ota_build_request_json` and the arguments of curl.
pub mod Fields
use xiaozhi.Base.{
  ℕ, ◌≡◌, ◌<◌, refl, ◌∙◌, Bool, true, false, not, ◌&&◌, List, [], ◌∷◌, ◌++◌, Option, none, some,
  arith, inl, inr, Bool-cases, if◌then◌else◌, length, leb,
}
use xiaozhi.Base.Int.{pos, int_eq}
use xiaozhi.Base.Strings.{Bytes, codes, is_empty, truncate, str_eq}
use xiaozhi.Config.Types.{AppConfig}
use xiaozhi.Ota.{OtaJson, Child, Fetched, fetch}
use xiaozhi.Protocol.{Json, string_at, and_then}
use xiaozhi.Protocol.Laws.{Laws, same_key, or_added}

module _ {Item : Type 0} (json : Json Item) where
  unfoldable pub add_optional_string : Item → Bytes → Bytes → Item
  add_optional_string object key [] = object
  add_optional_string object key (c ∷ value) = json.add_string object key (c ∷ value)

  unfoldable pub application : AppConfig → Item
  application cfg =
      add_optional_string (json.add_string json.create_object (codes "version") cfg.ota.app_version)
        (codes "elf_sha256") cfg.ota.elf_sha256

  unfoldable pub board : AppConfig → Item
  board cfg =
      let named =
        json.add_string (json.add_string json.create_object (codes "type") cfg.board.type)
          (codes "name") cfg.board.name in
      let ssid = add_optional_string named (codes "ssid") cfg.board.ssid in
      if int_eq cfg.board.rssi (pos 0)
      then ssid
      else json.add_number ssid (codes "rssi") cfg.board.rssi

  unfoldable pub request_root : AppConfig → Item
  request_root cfg =
      add_optional_string
        (add_optional_string
          (json.add_item (json.add_item json.create_object (codes "application") (application cfg))
            (codes "board") (board cfg))
          (codes "mac_address") cfg.device.device_id)
        (codes "uuid") cfg.device.client_id

  -- `ota_build_request_json`; `created` is whether the three objects could be created, and `none` is
  -- the return value -1.
  unfoldable pub build_request : AppConfig → ℕ → Bool → Option Bytes
  build_request cfg out_size created =
      if not created then none else (elim (json.print (request_root cfg)) [
        | none ↦ none
        | some text ↦ if leb out_size (length text) then none else some text
      ])

-- The arguments of curl; each header is cut to its array.
unfoldable pub curl_args : AppConfig → Bytes → List Bytes
curl_args cfg body =
    let header_device = truncate 128 (codes "Device-Id: " ++ cfg.device.device_id) in
    let header_client = truncate 128 (codes "Client-Id: " ++ cfg.device.client_id) in
    let header_user_agent =
      truncate 160
        (codes "User-Agent: " ++ (cfg.board.name ++ (codes "/" ++ cfg.ota.app_version))) in
    let header_language = truncate 96 (codes "Accept-Language: " ++ cfg.ota.accept_language) in
    let language =
      if is_empty cfg.ota.accept_language then [] else codes "-H" ∷ header_language ∷ [] in
    codes "curl"
    ∷ codes "-sS"
    ∷ codes "-X"
    ∷ codes "POST"
    ∷ cfg.ota.url
    ∷ codes "-H"
    ∷ codes "Content-Type: application/json"
    ∷ codes "-H"
    ∷ header_device
    ∷ codes "-H"
    ∷ header_client
    ∷ codes "-H"
    ∷ header_user_agent
    ∷ (language ++ codes "--data-binary" ∷ body ∷ [])

-- `ota_fetch`, from the configuration on: the arguments with which the child is started, if it is, and
-- the result.
unfoldable pub fetch_for :
    {Item Answer : Type 0}
    → Json Item
    → OtaJson Answer
    → AppConfig
    → Bool
    → Bool
    → Bool
    → Child
    → Option (List Bytes) × Fetched
fetch_for json answers cfg created piped forked child = elim (build_request json cfg 2048 created) [
  | none ↦ (none, fetch answers false piped forked child)
  | some body ↦ (
    if piped && forked then some (curl_args cfg body) else none,
    fetch answers true piped forked child,
  )
]
