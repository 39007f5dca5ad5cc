-- ===== src/Session/Graph.antt =====
-- `session_handle_event` against the graph of the conversation.
use xiaozhi.Base.{◌≡◌, ◌⊎◌, inl, inr, refl}
use xiaozhi.Event.{EventType}
use xiaozhi.Session.{State, Action, Session, goes, handle_event}

-- An edge: in a state, an event makes the action and the next state.
pub data Edge : State → EventType → Action → State → Type 0 where
  start_idle : Edge State.idle EventType.manual_start Action.connect State.connecting
  wake_idle : Edge State.idle EventType.wakeword_detected Action.connect State.connecting
  start_wake : Edge State.wake_detecting EventType.manual_start Action.connect State.connecting
  wake_wake : Edge State.wake_detecting EventType.wakeword_detected Action.connect State.connecting
  opened : Edge State.connecting EventType.ws_connected Action.send_hello State.handshaking
  greet : Edge State.handshaking EventType.ws_hello Action.nothing State.ready
  start_ready : Edge State.ready EventType.manual_start Action.start_listen State.uploading_audio
  wake_ready :
      Edge State.ready EventType.wakeword_detected Action.start_listen State.uploading_audio
  stop : Edge State.uploading_audio EventType.manual_stop Action.stop_listen State.waiting_tts
  start_playing : Edge State.playing_tts EventType.manual_start Action.abort State.connecting
  wake_playing : Edge State.playing_tts EventType.wakeword_detected Action.abort State.connecting
  fail : (s : State) → Edge s EventType.error Action.return_to_wake State.error_backoff

-- What the code does in state `s` on event `e` is an edge, or nothing.
abbrev pub Follows : State → EventType → Action × Session → Type 0
Follows s e (a, t) = Edge s e a t.state ⊎ ((a ≡ Action.nothing) × (t.state ≡ s))

follows : (s : State) (e : EventType) → Follows s e (handle_event (record { state = s }) e)
unfolding handle_event
follows State.idle EventType.manual_start = inl start_idle
follows State.idle EventType.wakeword_detected = inl wake_idle
follows State.wake_detecting EventType.manual_start = inl start_wake
follows State.wake_detecting EventType.wakeword_detected = inl wake_wake
follows State.connecting EventType.ws_connected = inl opened
follows State.handshaking EventType.ws_hello = inl greet
follows State.ready EventType.manual_start = inl start_ready
follows State.ready EventType.wakeword_detected = inl wake_ready
follows State.uploading_audio EventType.manual_stop = inl stop
follows State.playing_tts EventType.manual_start = inl start_playing
follows State.playing_tts EventType.wakeword_detected = inl wake_playing
follows s EventType.error = inl (fail s)
follows _ _ = inr (refl, refl)

taken :
    {s t : State} {e : EventType} {a : Action}
    → Edge s e a t
    → handle_event (record { state = s }) e ≡ goes a t
unfolding handle_event
taken start_idle = refl
taken wake_idle = refl
taken start_wake = refl
taken wake_wake = refl
taken opened = refl
taken greet = refl
taken start_ready = refl
taken wake_ready = refl
taken stop = refl
taken start_playing = refl
taken wake_playing = refl
taken (fail s) = refl

-- The session follows the graph: every edge is taken, with its action and its next state, and a
-- call that takes no edge returns NONE and leaves the state alone.
pub handle_event_graph :
    (session : Session) (e : EventType)
    → ((a : Action) (t : State) → Edge session.state e a t → handle_event session e ≡ goes a t)
      × Follows session.state e (handle_event session e)
handle_event_graph session e = ((λ a t edge. taken edge), follows session.state e)
