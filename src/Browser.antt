-- ===== src/Browser.antt =====
-- The service for the browser, which the voice client does not use: src/command.c, ws_server.c and
-- sensor_sim.c. The JSON library is the argument `Protocol.Json`.
pub mod Command
pub mod Server
pub mod Sensor
