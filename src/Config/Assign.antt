-- ===== src/Config/Assign.antt =====
-- `config_assign_value`: what one line of a section sets. Each section has a function; a key that it
-- does not know changes nothing.
pub mod Bounds
use xiaozhi.Base.{Bool, if◌then◌else◌}
use xiaozhi.Base.Strings.{Bytes, codes, str_eq, truncate}
use xiaozhi.Config.Text.{atoi}
use xiaozhi.Config.Types.{
  AppConfig, OtaConfig, ServerConfig, DeviceConfig, BoardConfig, AudioConfig, RuntimeConfig,
}

unfoldable pub assign_ota : OtaConfig → Bytes → Bytes → OtaConfig
assign_ota c key value =
    if str_eq key (codes "url")
    then record c { url = truncate 256 value }
    else if str_eq key (codes "accept_language")
    then record c { accept_language = truncate 32 value }
    else if str_eq key (codes "app_version")
    then record c { app_version = truncate 64 value }
    else if str_eq key (codes "elf_sha256")
    then record c { elf_sha256 = truncate 96 value }
    else c

unfoldable pub assign_server : ServerConfig → Bytes → Bytes → ServerConfig
assign_server c key value =
    if str_eq key (codes "url")
    then record c { url = truncate 256 value }
    else if str_eq key (codes "token")
    then record c { token = truncate 256 value }
    else if str_eq key (codes "protocol_version")
    then record c { protocol_version = atoi value }
    else c

unfoldable pub assign_device : DeviceConfig → Bytes → Bytes → DeviceConfig
assign_device c key value =
    if str_eq key (codes "device_id")
    then record c { device_id = truncate 64 value }
    else if str_eq key (codes "client_id")
    then record c { client_id = truncate 64 value }
    else c

unfoldable pub assign_board : BoardConfig → Bytes → Bytes → BoardConfig
assign_board c key value =
    if str_eq key (codes "type")
    then record c { type = truncate 64 value }
    else if str_eq key (codes "name")
    then record c { name = truncate 64 value }
    else if str_eq key (codes "ssid")
    then record c { ssid = truncate 64 value }
    else if str_eq key (codes "rssi")
    then record c { rssi = atoi value }
    else c

unfoldable pub assign_audio : AudioConfig → Bytes → Bytes → AudioConfig
assign_audio c key value =
    if str_eq key (codes "capture_device")
    then record c { capture_device = truncate 64 value }
    else if str_eq key (codes "playback_device")
    then record c { playback_device = truncate 64 value }
    else if str_eq key (codes "input_sample_rate")
    then record c { input_sample_rate = atoi value }
    else if str_eq key (codes "silence_timeout_ms")
    then record c { silence_timeout_ms = atoi value }
    else if str_eq key (codes "silence_threshold")
    then record c { silence_threshold = atoi value }
    else if str_eq key (codes "max_utterance_ms")
    then record c { max_utterance_ms = atoi value }
    else c

unfoldable pub assign_runtime : RuntimeConfig → Bytes → Bytes → RuntimeConfig
assign_runtime c key value =
    if str_eq key (codes "log_level")
    then record c { log_level = truncate 16 value }
    else if str_eq key (codes "reconnect_backoff_ms")
    then record c { reconnect_backoff_ms = atoi value }
    else c

unfoldable pub assign_value : AppConfig → Bytes → Bytes → Bytes → AppConfig
assign_value c section key value =
    if str_eq section (codes "ota")
    then record c { ota = assign_ota c.ota key value }
    else if str_eq section (codes "server")
    then record c { server = assign_server c.server key value }
    else if str_eq section (codes "device")
    then record c { device = assign_device c.device key value }
    else if str_eq section (codes "board")
    then record c { board = assign_board c.board key value }
    else if str_eq section (codes "audio")
    then record c { audio = assign_audio c.audio key value }
    else if str_eq section (codes "runtime")
    then record c { runtime = assign_runtime c.runtime key value }
    else c
