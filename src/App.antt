-- ===== src/App.antt =====
-- src/app.c and app.h: the runtime of the program, its main loop and its handlers.
pub mod State
pub mod System
pub mod Send
pub mod Actions
pub mod Messages
pub mod Callbacks
pub mod Loop
pub mod Setup
pub mod Consistent
pub mod Decoder
pub mod Recover
pub mod Talk
