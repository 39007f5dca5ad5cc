-- ===== src/Config/Types/Sizes.antt =====
-- The sizes of the arrays of the configuration record: every string ends inside its array.
use xiaozhi.Base.{◌<◌, arith, length}
use xiaozhi.Config.Types.{
  OtaConfig, ServerConfig, DeviceConfig, BoardConfig, AudioConfig, AppConfig, defaults,
}

pub record OtaFits (c : OtaConfig) : Type 0 where
  pub url : length c.url < 256
  pub accept_language : length c.accept_language < 32
  pub app_version : length c.app_version < 64
  pub elf_sha256 : length c.elf_sha256 < 96

pub record ServerFits (c : ServerConfig) : Type 0 where
  pub url : length c.url < 256
  pub token : length c.token < 256

pub record DeviceFits (c : DeviceConfig) : Type 0 where
  pub device_id : length c.device_id < 64
  pub client_id : length c.client_id < 64

pub record BoardFits (c : BoardConfig) : Type 0 where
  pub type : length c.type < 64
  pub name : length c.name < 64
  pub ssid : length c.ssid < 64

pub record AudioFits (c : AudioConfig) : Type 0 where
  pub capture_device : length c.capture_device < 64
  pub playback_device : length c.playback_device < 64

pub record Fits (c : AppConfig) : Type 0 where
  pub ota : OtaFits c.ota
  pub server : ServerFits c.server
  pub device : DeviceFits c.device
  pub board : BoardFits c.board
  pub audio : AudioFits c.audio
  pub log_level : length c.runtime.log_level < 16

pub defaults-Fits : Fits defaults
unfolding defaults
defaults-Fits = omega arith
