-- ===== src/Config/Types.antt =====
-- src/config.h: the configuration record, and what an empty file makes of it. A string field is the
-- string in its array, whose size stands in `Fits`.
pub mod Sizes
use xiaozhi.Base.{ℕ, []}
use xiaozhi.Base.Int.{ℤ, pos}
use xiaozhi.Base.Strings.{Bytes, codes, truncate}

pub record ServerConfig : Type 0 where
  pub url : Bytes
  pub token : Bytes
  pub protocol_version : ℤ

pub record OtaConfig : Type 0 where
  pub url : Bytes
  pub accept_language : Bytes
  pub app_version : Bytes
  pub elf_sha256 : Bytes

pub record DeviceConfig : Type 0 where
  pub device_id : Bytes
  pub client_id : Bytes

pub record BoardConfig : Type 0 where
  pub type : Bytes
  pub name : Bytes
  pub ssid : Bytes
  pub rssi : ℤ

pub record AudioConfig : Type 0 where
  pub capture_device : Bytes
  pub playback_device : Bytes
  pub input_sample_rate : ℤ
  pub silence_timeout_ms : ℤ
  pub silence_threshold : ℤ
  pub max_utterance_ms : ℤ

pub record RuntimeConfig : Type 0 where
  pub log_level : Bytes
  pub reconnect_backoff_ms : ℤ

pub record AppConfig : Type 0 where
  pub ota : OtaConfig
  pub server : ServerConfig
  pub device : DeviceConfig
  pub board : BoardConfig
  pub audio : AudioConfig
  pub runtime : RuntimeConfig

-- `config_apply_defaults`
unfoldable pub defaults : AppConfig
defaults = record {
  ota = record { url = []; accept_language = []; app_version = []; elf_sha256 = [] };
  server = record { url = []; token = []; protocol_version = pos 1 };
  device = record { device_id = []; client_id = [] };
  board = record { type = []; name = []; ssid = []; rssi = pos 0 };
  audio = record {
    capture_device = truncate 64 (codes "default");
    playback_device = truncate 64 (codes "default");
    input_sample_rate = pos 16000;
    silence_timeout_ms = pos 1200;
    silence_threshold = pos 500;
    max_utterance_ms = pos 15000;
  };
  runtime = record { log_level = truncate 16 (codes "info"); reconnect_backoff_ms = pos 3000 };
}
