-- ===== src/Browser/Sensor.antt =====
-- src/sensor_sim.c: the thread that simulates a sensor. The texts that it prints are an argument; the
-- queue is the one that `sensor_sim_start` is given, which other threads use too.
pub mod Threads
use xiaozhi.Base.{Bool, true, false, not, ◌&&◌, Status, ok, failed, if◌then◌else◌}
use xiaozhi.Base.Strings.{Bytes, truncate}
use xiaozhi.MsgQueue
use xiaozhi.MsgQueue.{MsgQueue}

-- `running`, and whether the thread is there.
pub record Sensor : Type 0 where
  pub running : Bool
  pub thread : Bool

unfoldable pub start : Sensor → Bool → Status × Sensor
start s thread_made =
    if s.running
    then (ok, s)
    else if not thread_made
    then (failed, record s { running = false })
    else (ok, record { running = true; thread = true })

-- The thread sees `running` cleared and is joined.
unfoldable pub stop : Sensor → Sensor
stop s = if not s.running then s else record { running = false; thread = false }

-- A round of `sensor_thread_func`, if the thread is there and goes on: the text that `snprintf` prints
-- into 256 bytes is pushed.
unfoldable pub sense : Sensor → MsgQueue → Bytes → MsgQueue
sense s queue text =
    if s.thread && s.running
    then MsgQueue.push queue (truncate MsgQueue.max_msg_len text)
    else queue
