-- ===== src/Session.antt =====
-- src/session.c and session.h: the state machine of a conversation. A session is passed by value,
-- and the call returns the action beside the new session.
pub mod Graph
pub mod Script
use xiaozhi.Base.{Bool, true, false, if◌then◌else◌}
use xiaozhi.Event.{EventType}

pub data State : Type 0 where
  idle wake_detecting connecting handshaking ready : State
  uploading_audio waiting_tts playing_tts error_backoff : State

pub data Action : Type 0 where
  nothing connect send_hello start_listen stop_listen abort start_playback return_to_wake : Action

pub record Session : Type 0 where
  pub state : State

unfoldable pub init : Session
init = record { state = State.idle }

-- `event == APP_EVENT_MANUAL_START || event == APP_EVENT_WAKEWORD_DETECTED`
abbrev pub is_start : EventType → Bool
is_start EventType.manual_start = true
is_start EventType.wakeword_detected = true
is_start _ = false

abbrev pub is_connected : EventType → Bool
is_connected EventType.ws_connected = true
is_connected _ = false

abbrev pub is_hello : EventType → Bool
is_hello EventType.ws_hello = true
is_hello _ = false

abbrev pub is_stop : EventType → Bool
is_stop EventType.manual_stop = true
is_stop _ = false

abbrev pub is_error : EventType → Bool
is_error EventType.error = true
is_error _ = false

-- `session->state = s; return a;`
abbrev pub goes : Action → State → Action × Session
goes a s = (a, record { state = s })

handle_error : Session → Action × Session
handle_error session = goes Action.return_to_wake State.error_backoff

-- The `switch`; its argument is `session->state`. In UPLOADING_AUDIO a binary event returns NONE,
-- as the end of the function does.
switch_state : State → Session → EventType → Action × Session
switch_state State.idle session event =
    if is_start event then goes Action.connect State.connecting else (Action.nothing, session)
switch_state State.wake_detecting session event =
    if is_start event then goes Action.connect State.connecting else (Action.nothing, session)
switch_state State.connecting session event =
    if is_connected event
    then goes Action.send_hello State.handshaking
    else (Action.nothing, session)
switch_state State.handshaking session event =
    if is_hello event then goes Action.nothing State.ready else (Action.nothing, session)
switch_state State.ready session event =
    if is_start event
    then goes Action.start_listen State.uploading_audio
    else (Action.nothing, session)
switch_state State.uploading_audio session event =
    if is_stop event then goes Action.stop_listen State.waiting_tts else (Action.nothing, session)
switch_state State.playing_tts session event =
    if is_start event then goes Action.abort State.connecting else (Action.nothing, session)
switch_state _ session event = (Action.nothing, session)

unfoldable pub handle_event : Session → EventType → Action × Session
unfolding handle_error switch_state
handle_event session event =
    if is_error event then handle_error session else switch_state session.state session event
