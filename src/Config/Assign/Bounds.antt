-- ===== src/Config/Assign/Bounds.antt =====
-- An assignment keeps every string inside its array.
use xiaozhi.Base.{◌<◌, arith, length}
use xiaozhi.Base.Strings.{Bytes, length-truncate}
use xiaozhi.Config.Assign.{
  assign_ota, assign_server, assign_device, assign_board, assign_audio, assign_runtime,
  assign_value,
}
use xiaozhi.Config.Types.{
  OtaConfig, ServerConfig, DeviceConfig, BoardConfig, AudioConfig, RuntimeConfig, AppConfig,
}
use xiaozhi.Config.Types.Sizes.{OtaFits, ServerFits, DeviceFits, BoardFits, AudioFits, Fits}

module _ (key value : Bytes) where
  ota : (c : OtaConfig) → OtaFits c → OtaFits (assign_ota c key value)
  unfolding assign_ota
  ota c f = record {
    url = ground (arith, length-truncate 256 value);
    accept_language = ground (arith, length-truncate 32 value);
    app_version = ground (arith, length-truncate 64 value);
    elf_sha256 = ground (arith, length-truncate 96 value);
  }

  server : (c : ServerConfig) → ServerFits c → ServerFits (assign_server c key value)
  unfolding assign_server
  server c f = ground (arith, length-truncate 256 value)

  device : (c : DeviceConfig) → DeviceFits c → DeviceFits (assign_device c key value)
  unfolding assign_device
  device c f = ground (arith, length-truncate 64 value)

  board : (c : BoardConfig) → BoardFits c → BoardFits (assign_board c key value)
  unfolding assign_board
  board c f = ground (arith, length-truncate 64 value)

  audio : (c : AudioConfig) → AudioFits c → AudioFits (assign_audio c key value)
  unfolding assign_audio
  audio c f = ground (arith, length-truncate 64 value)

  runtime :
      (c : RuntimeConfig)
      → length c.log_level < 16
      → length (assign_runtime c key value).log_level < 16
  unfolding assign_runtime
  runtime c f = ground (arith, length-truncate 16 value)

-- `config_assign_value` never fills an array beyond its end, whatever the section, key and value.
pub assign_value-Fits :
    (c : AppConfig) (section key value : Bytes) → Fits c → Fits (assign_value c section key value)
unfolding assign_value
assign_value-Fits c section key value f = ground (
  arith,
  ota key value c.ota f.ota,
  server key value c.server f.server,
  device key value c.device f.device,
  board key value c.board f.board,
  audio key value c.audio f.audio,
  runtime key value c.runtime f.log_level,
)
