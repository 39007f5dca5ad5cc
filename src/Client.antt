-- ===== src/Client.antt =====
-- src/xiaozhi_client.c: the websocket client. Its parts are in the child modules: its state, the queue
-- of texts to send, the reassembly of received messages, the calls of the program, the callback of
-- libwebsockets and the thread.
pub mod State
pub mod TextQueue
pub mod Receive
pub mod Calls
pub mod Callback
