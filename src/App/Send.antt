-- ===== src/App/Send.antt =====
-- The messages that the program queues, and the file that an upload is recorded in.
use xiaozhi.App.State.{App, World}
use xiaozhi.Base.{none, some, Status, ok, failed, if◌then◌else◌}
use xiaozhi.Base.Int.{pos}
use xiaozhi.Base.Strings.{Bytes, codes, is_empty}
use xiaozhi.Client.Calls.{queue_text}
use xiaozhi.Client.State.{Client}
use xiaozhi.Dump.{Dump, open_dump}
use xiaozhi.Protocol.{
  HelloConfig, build_hello, build_listen_start_manual, build_listen_stop_manual, build_abort,
}

-- `xiaozhi_client_queue_text` on the program's client.
with_client : App → Status × Client → Status × App
with_client app (rc, client) = (rc, record app { client = client })

-- A message, if it could be built.
unfoldable pub send_built : {Item : Type 0} → World Item → App → Status × Bytes → Status × App
unfolding with_client
send_built w app (failed, payload) = (failed, app)
send_built w app (ok, payload) = with_client app (queue_text app.client payload w.memory w.copied)

unfoldable pub hello_config : App → HelloConfig
hello_config app = record {
  protocol_version = app.config.server.protocol_version;
  sample_rate = app.config.audio.input_sample_rate;
  channels = pos 1;
  frame_duration_ms = pos 60;
}

unfoldable pub send_hello : {Item : Type 0} → World Item → App → Status × App
unfolding send_built hello_config
send_hello w app = elim (build_hello w.json (hello_config app) 512 w.objects_created) [
  | none ↦ (failed, app)
  | some payload ↦ send_built w app (ok, payload)
]

unfoldable pub send_listen_start : {Item : Type 0} → World Item → App → Status × App
unfolding send_built
send_listen_start w app =
    if is_empty app.session_id
    then (failed, app)
    else send_built w app (build_listen_start_manual app.session_id 256)

unfoldable pub send_listen_stop : {Item : Type 0} → World Item → App → Status × App
unfolding send_built
send_listen_stop w app =
    if is_empty app.session_id
    then (failed, app)
    else send_built w app (build_listen_stop_manual app.session_id 256)

unfoldable pub send_abort : {Item : Type 0} → World Item → App → Status × App
unfolding send_built
send_abort w app = send_built w app (build_abort (some (codes "manual_interrupt")) 256)

unfoldable pub with_dump : App → Status × Dump → Status × App
with_dump app (rc, dump) = (rc, record app { dump = dump })

-- `app_open_opus_dump_file`
unfoldable pub open_opus_dump_file : {Item : Type 0} → World Item → App → Status × App
unfolding with_dump
open_opus_dump_file w app = with_dump app (open_dump app.dump w.in_build w.in_tmp)
