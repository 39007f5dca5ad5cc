-- ===== src/Lib.antt =====
-- A model of xiaozhi, a voice client in C (src/), of the service for the browser beside it, and of
-- tools/decode_opus_dump.c, with proofs about them.
--
-- The program connects by websocket to a server that understands speech. Three threads feed its main
-- loop with events: the websocket client's, the microphone's and the playback's. The loop
-- (src/app.c) pops an event, asks the session (src/session.c) for an action, and carries it out on the
-- client, the microphone and the playback.
--
-- Files, and the code that each models:
--   Base, Base/*: Boolean tests and lists over native numbers, C strings, `int` and memory blocks
--   Alsa: the calls of ALSA on a device, and what a thread holds after them
--   Log: src/log.c
--   Event, EventQueue: src/event_queue.c and event_queue.h, `event_queue_*`
--   Session: src/session.c, `session_init` and `session_handle_event`
--   AudioBuffer: src/audio_buffer.c, `audio_buffer_*`
--   MsgQueue: src/msg_queue.c, `msg_queue_*`
--   Client: src/xiaozhi_client.c: State and TextQueue (the records and the queue of texts), Receive
--     (fragments), Calls (`xiaozhi_client_*` and the thread), Callback (`xiaozhi_client_callback`)
--   Config: src/config.c: Types (the record and its defaults), Text (`trim` and the C library), Assign
--     (`config_assign_value`), Load (`config_load_from_string`, `config_load_file`)
--   Protocol: src/xiaozhi_protocol.c, `xiaozhi_build_*` and `xiaozhi_parse_incoming_json`;
--     Protocol/Laws: what a JSON library does with an object, which the copy of cJSON is taken to do
--   Capture, Playback: src/audio_capture.c and audio_playback.c, with Device for the opening of the
--     ALSA device and the calls on it
--   Opus: src/opus_codec.c
--   Ota: src/ota_client.c, the fetch and its answer; Ota/Request: the body and the arguments of curl
--   Dump: the dump of an upload in src/app.c; Dump/Decode and Dump/Wav: tools/decode_opus_dump.c
--   App: src/app.c: State (`app_runtime_t`), Send (`app_send_*`), Actions (`app_handle_action`),
--     Messages (`app_handle_protocol_event`), Callbacks (`app_client_on_*`, `app_capture_on_pcm`), Loop
--     (`app_run`), Setup (`app_init`, `app_destroy`)
--   App/System: the threads together: a step is one round of the main loop, one callback of the client
--     or the start or end of its thread, one round of the playback's thread, or a part of a round of
--     the microphone's: up to its reading, up to the packet, the writing, the queueing, the measuring
--   Program: src/main.c
--   Browser: src/command.c (Command), ws_server.c (Server) and sensor_sim.c (Sensor)
--   Fifo: the bounded queue that the rings are compared with
--   Tests: the theorems at concrete inputs
--
-- A C function that changes an object takes the object and returns it beside its result; 0 and -1 are
-- `ok` and `failed`. What the operating system and the libraries (libwebsockets, ALSA, libopus, the copy
-- of cJSON in src/cJSON.c) answer is an argument: a Boolean for each allocation, thread or file, a list
-- for a device that is called in a loop, a record of functions for cJSON. `size_t` is 64 bits wide and
-- its sums are taken modulo 2 ^ 64. In App/System, `realloc` has no memory for 2 ^ 60 pointers, and
-- the product of a number of slots and their size is taken not to wrap. What libwebsockets reports of a
-- connection as `lws_context_destroy` closes it is an argument, `Closing`.
--
-- Fuel: the doubling of the text queue's capacity has as much fuel as slots are needed, and the reading
-- of a dump is shown to need one round more than packets. A loop that waits on a device or a condition
-- is modelled over the list of the answers that it gets.
--
-- Not modelled: the guards for NULL pointers, what the client logs, mutexes (each call that holds one
-- is a single step), the interleaving inside a round of the main loop, of a callback of the client and
-- of a round of the playback, the wrap of the time of silence near INT_MAX, the shutdown of the threads while
-- they run, the names of dump files, the child process of the OTA request beyond its arguments, the
-- wake word detector (src/wakeword_snowboy.cc), src/cJSON.c, and src/http_server.c, whose callback only
-- calls libwebsockets.
pub mod Base
pub mod Event
pub mod Session
pub mod Fifo
pub mod EventQueue
pub mod AudioBuffer
pub mod MsgQueue
pub mod Client
pub mod Config
pub mod Protocol
pub mod Dump
pub mod Capture
pub mod Playback
pub mod Opus
pub mod Ota
pub mod Alsa
pub mod App
pub mod Browser
pub mod Log
pub mod Program
mod Tests
