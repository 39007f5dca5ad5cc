-- ===== src/Ota.antt =====
-- src/ota_client.c and ota_client.h: the request that asks for the address of the server. The JSON
-- library, and what `pipe`, `fork`, `read` and `waitpid` return, are arguments.
pub mod Bounds
pub mod Request
use xiaozhi.Base.{
  ℕ, zero, suc, ◌+◌, ◌-◌, Bool, true, false, not, ◌&&◌, ◌||◌, List, [], ◌∷◌, ◌++◌, Option, none,
  some, ◌==◌, leb, ltb, if◌then◌else◌, length, take, Status, ok, failed,
}
use xiaozhi.Base.Int.{ℤ, pos, int_eq}
use xiaozhi.Base.Strings.{Bytes, codes, is_empty, truncate}
use xiaozhi.Config.Types.{AppConfig}

pub record OtaResponse : Type 0 where
  pub activation_required : Bool
  pub code : Bytes
  pub message : Bytes
  pub url : Bytes
  pub token : Bytes

abbrev pub zero_response : OtaResponse
zero_response = record {
  activation_required = false;
  code = [];
  message = [];
  url = [];
  token = [];
}

-- What the code uses of cJSON: `get` is `cJSON_GetObjectItemCaseSensitive` of an item that
-- `cJSON_IsObject` accepts, and `string` the `valuestring` of one that `cJSON_IsString` accepts.
pub record OtaJson (Item : Type 0) : Type 0 where
  pub parse : Bytes → Option Item
  pub get : Item → Bytes → Option Item
  pub string : Item → Option Bytes

-- `ota_trim_trailing_whitespace`
unfoldable pub is_trailing : ℕ → Bool
is_trailing ch = ch == b' ' || (ch == b'\n' || (ch == b'\r' || ch == b'\t'))

unfoldable pub trim_trailing_whitespace : Bytes → Bytes
trim_trailing_whitespace [] = []
trim_trailing_whitespace (ch ∷ text) =
    let rest = trim_trailing_whitespace text in
    if is_empty rest && is_trailing ch then [] else ch ∷ rest

-- `ota_append_pipe_output`: what each `read` returns, up to the one that returns 0 or, with `broken`,
-- less; `dst` holds the `used` bytes so far.
unfoldable pub append_reads : Bytes → ℕ → List Bytes → Bytes
append_reads dst dst_size [] = dst
append_reads dst dst_size (buffer ∷ reads) =
    append_reads
      (if leb (dst_size - 1) (length dst)
        then dst
        else dst ++ take (dst_size - 1 - length dst) buffer)
      dst_size reads

unfoldable pub append_pipe_output : ℕ → List Bytes → Bool → Status × Bytes
append_pipe_output dst_size reads broken =
    (if broken then failed else ok, append_reads [] dst_size reads)

module _ {Item : Type 0} (json : OtaJson Item) where
  -- `ota_copy_json_string` into an empty array.
  unfoldable pub copy_string : Option Item → Bytes → ℕ → Bytes
  copy_string none key dst_size = []
  copy_string (some object) key dst_size = elim (json.get object key) [
    | none ↦ []
    | some item ↦ elim (json.string item) [ none ↦ [] | some s ↦ truncate dst_size s ]
  ]

  unfoldable pub read_response : Item → OtaResponse
  read_response root =
      let activation = json.get root (codes "activation") in
      let websocket = json.get root (codes "websocket") in
      record {
        activation_required = not (is_empty (copy_string activation (codes "code") 64));
        code = copy_string activation (codes "code") 64;
        message = copy_string activation (codes "message") 256;
        url = copy_string websocket (codes "url") 256;
        token = copy_string websocket (codes "token") 256;
      }

  -- `ota_parse_response`: a message of the error, or the response.
  unfoldable pub parse_response : Bytes → Option OtaResponse
  parse_response text = elim (json.parse text) [
    | none ↦ none
    | some root ↦ some (read_response root)
  ]

-- How the child ended: its exit status, or `none` for another end.
pub record Child : Type 0 where
  pub reads : List Bytes
  pub broken : Bool
  pub waited : Bool
  pub exit_status : Option ℕ

pub data Fetched : Type 0 where
  response : OtaResponse → Fetched
  error : Bytes → Fetched

exited_well : Option ℕ → Bool
exited_well none = false
exited_well (some status) = status == 0

-- The message for a child that failed.
unfoldable pub child_error : Bytes → Option ℕ → Bytes
child_error (c ∷ output) status = c ∷ output
child_error [] none = codes "ota request failed"
child_error [] (some status) =
    if status == 127 then codes "curl command not found" else codes "ota request failed"

fetched : Option OtaResponse → Fetched
fetched none = error (codes "invalid ota response json")
fetched (some r) = response r

module _ {Item : Type 0} (json : OtaJson Item) where
  -- `ota_fetch`: whether the request fits its buffer, and whether `pipe` and `fork` succeed. `error`
  -- carries the message before it is cut to the caller's buffer.
  unfoldable pub fetch : Bool → Bool → Bool → Child → Fetched
  unfolding exited_well fetched
  fetch built piped forked child =
      if not built
      then error (codes "failed to build ota request body")
      else if not piped
      then error (codes "failed to create ota pipe")
      else if not forked
      then error (codes "failed to fork ota curl process")
      else if child.broken
      then error (codes "failed to read ota response")
      else if not child.waited
      then error (codes "failed to wait for ota curl process")
      else (let text =
            trim_trailing_whitespace (append_pipe_output 8192 child.reads child.broken).1 in
          if not (exited_well child.exit_status)
          then error (child_error text child.exit_status)
          else fetched (parse_response json text))
