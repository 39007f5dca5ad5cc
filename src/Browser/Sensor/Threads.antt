-- ===== src/Browser/Sensor/Threads.antt =====
-- When the thread of the sensor runs, and what it leaves in the queue.
use xiaozhi.Base.{◌≡◌, refl, Bool, true, false, List, [], ◌∷◌}
use xiaozhi.Base.Strings.{Bytes, truncate}
use xiaozhi.Browser.Sensor.{Sensor, start, stop, sense}
use xiaozhi.MsgQueue
use xiaozhi.MsgQueue.{MsgQueue}
use xiaozhi.MsgQueue.Refine.{IsValid, push-IsValid}

-- The calls of other threads, and the rounds of the sensor's, with the text that each prints.
pub data Act : Type 0 where
  starts : Bool → Act
  stops : Act
  senses : Bytes → Act

unfoldable pub act : Act → Sensor × MsgQueue → Sensor × MsgQueue
act (starts made) (s, q) = ((start s made).1, q)
act stops (s, q) = (stop s, q)
act (senses text) (s, q) = (s, sense s q text)

unfoldable pub act_all : List Act → Sensor × MsgQueue → Sensor × MsgQueue
act_all [] x = x
act_all (a ∷ acts) x = act_all acts (act a x)

-- What a reader of the code expects: whether a thread runs, and the texts that were pushed.
abbrev pub runs : Bool → List Act → Bool
runs b [] = b
runs true (starts made ∷ acts) = runs true acts
runs false (starts made ∷ acts) = runs made acts
runs b (stops ∷ acts) = runs false acts
runs b (senses text ∷ acts) = runs b acts

abbrev pub at : Bool → Sensor
at b = record { running = b; thread = b }

-- From a sensor that is off and a valid queue, in any order of calls of start and stop and of rounds of
-- the thread, whether or not each thread can be made: the thread is there exactly if `running` is set,
-- that is so exactly if the last call that had an effect was a start that could make its thread, and
-- the queue stays valid.
pub act_all-runs :
    (acts : List Act) (b : Bool) {q : MsgQueue}
    → IsValid q
    → ((act_all acts (at b, q)).0 ≡ at (runs b acts)) × IsValid (act_all acts (at b, q)).1
unfolding act_all act start stop sense
act_all-runs [] b v = (refl, v)
act_all-runs (starts made ∷ acts) true v = act_all-runs acts true v
act_all-runs (starts true ∷ acts) false v = act_all-runs acts true v
act_all-runs (starts false ∷ acts) false v = act_all-runs acts false v
act_all-runs (stops ∷ acts) true v = act_all-runs acts false v
act_all-runs (stops ∷ acts) false v = act_all-runs acts false v
act_all-runs (senses text ∷ acts) true v =
    act_all-runs acts true (push-IsValid (truncate MsgQueue.max_msg_len text) v)
act_all-runs (senses text ∷ acts) false v = act_all-runs acts false v
