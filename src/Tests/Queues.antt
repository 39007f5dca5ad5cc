-- ===== src/Tests/Queues.antt =====
-- The session, the event queue and the message queue.
use mathlib.Core.Quot
use xiaozhi.Base.{
  ◌≡◌, true, false, ◌≢◌, refl, inl, inr, [], ◌∷◌, ◌++◌, none, some, arith, drop, map,
}
use xiaozhi.Base.Int.{pos}
use xiaozhi.Base.Strings.{codes, truncate}
use xiaozhi.Browser.Sensor.Threads.{starts, stops, senses, act_all, runs, at, act_all-runs}
use xiaozhi.Event.{Event, EventType}
use xiaozhi.EventQueue
use xiaozhi.EventQueue.Abstract.{IsBounded, queue-IsBounded}
use xiaozhi.EventQueue.Deadline.{Timespec}
use xiaozhi.EventQueue.Waiting.{Pops, pop-Splits, pop-ne-none}
use xiaozhi.EventQueue.{EventQueue, Sleep, woken, timed_out, Popped, zero_event}
use xiaozhi.MsgQueue
use xiaozhi.MsgQueue.Refine.{msg_pop_refines, msg_push_all_refines}
use xiaozhi.MsgQueue.{MsgQueue, max_msg_len}
use xiaozhi.Session.Graph.{Edge, Follows, handle_event_graph}
use xiaozhi.Session.Script.{Keeps, script, emitted, emitted-Keeps}
use xiaozhi.Session.{Action, Session, State, init, goes, handle_event}

abbrev ready_session : Session
ready_session = record { state = State.ready }

handle_event_graph_example :
    ((a : Action) (t : State)
      → Edge State.ready EventType.manual_start a t
      → handle_event ready_session EventType.manual_start ≡ goes a t)
    × Follows State.ready EventType.manual_start (handle_event ready_session EventType.manual_start)
handle_event_graph_example = handle_event_graph ready_session EventType.manual_start

emitted-Keeps_example : Keeps script (emitted init (EventType.manual_start ∷ EventType.error ∷ []))
emitted-Keeps_example = emitted-Keeps (EventType.manual_start ∷ EventType.error ∷ [])

abbrev start_event : Event
start_event = record zero_event { type = EventType.manual_start }

abbrev stop_event : Event
stop_event = record zero_event { type = EventType.manual_stop }

-- A queue for two events, which holds one, in its second slot.
abbrev one_event : EventQueue
one_event = record {
  items = zero_event ∷ start_event ∷ [];
  capacity = 2;
  head = 1;
  tail = 0;
  count = 1;
}

one_event-IsValid : EventQueue.Invariant.IsValid one_event
one_event-IsValid = record {
  storage = refl;
  small = omega arith;
  head_in = omega arith;
  count_in = omega arith;
  tail_at = refl;
}

abbrev pub no_event : EventQueue
no_event = record one_event { tail = 1; count = 0 }

pub no_event-IsValid : EventQueue.Invariant.IsValid no_event
no_event-IsValid = record {
  storage = refl;
  small = omega arith;
  head_in = omega arith;
  count_in = omega arith;
  tail_at = refl;
}

queue-IsBounded_example : IsBounded (Quot.mk (one_event, one_event-IsValid))
queue-IsBounded_example = queue-IsBounded (Quot.mk (one_event, one_event-IsValid))

abbrev clock : Timespec
clock = record { tv_sec = 5; tv_nsec = 999_000_000 }

-- A sleep in which an event is pushed.
abbrev pushed_sleep : Sleep
pushed_sleep = record { pushed = stop_event ∷ []; wake = woken }

abbrev after_pop : EventQueue
after_pop = record {
  items = zero_event ∷ stop_event ∷ [];
  capacity = 2;
  head = 0;
  tail = 0;
  count = 0;
}

pop_sleeping :
    EventQueue.pop no_event (pos 100) (pushed_sleep ∷ [])
    ≡ some (Popped.event stop_event, after_pop)
unfolding EventQueue.pop EventQueue.wait_locked EventQueue.wait_loop EventQueue.push_all
    EventQueue.push EventQueue.take_head
pop_sleeping = refl

pop-Splits_example : Pops true no_event (pushed_sleep ∷ []) (Popped.event stop_event) after_pop
pop-Splits_example = pop-Splits (pos 100) (pushed_sleep ∷ []) no_event-IsValid pop_sleeping

pop-ne-none_example : EventQueue.pop one_event (pos 100) [] ≢ none
pop-ne-none_example = pop-ne-none one_event (pos 100) [] (inr (inl (λ e. omega arith)))

-- A queue for two messages, which holds one.
abbrev one_message : MsgQueue
one_message = record { buffer = codes "hi" ∷ [] ∷ []; head = 0; tail = 1; count = 1; capacity = 2 }

one_message-IsValid : MsgQueue.Refine.IsValid one_message
one_message-IsValid = record {
  slots = refl;
  small = omega arith;
  head_in = omega arith;
  count_in = omega arith;
  tail_at = refl;
}

msg_push_all_refines_example :
    MsgQueue.Refine.contents (MsgQueue.Refine.push_all one_message (codes "a" ∷ codes "b" ∷ []))
    ≡ drop 1 (
        MsgQueue.Refine.contents one_message
        ++ map (truncate max_msg_len) (codes "a" ∷ codes "b" ∷ []))
msg_push_all_refines_example = msg_push_all_refines (codes "a" ∷ codes "b" ∷ []) one_message-IsValid

act_all-runs_example :
    ((act_all (starts true ∷ senses (codes "x") ∷ stops ∷ []) (at false, one_message)).0
      ≡ at (runs false (starts true ∷ senses (codes "x") ∷ stops ∷ [])))
    × MsgQueue.Refine.IsValid
        (act_all (starts true ∷ senses (codes "x") ∷ stops ∷ []) (at false, one_message)).1
act_all-runs_example =
    act_all-runs (starts true ∷ senses (codes "x") ∷ stops ∷ []) false one_message-IsValid
