-- ===== src/Session/Script.antt =====
-- What a session asks of the program over a whole conversation, when nobody else sets its state.
use xiaozhi.Base.{ℕ, suc, List, [], ◌∷◌, ◌++◌, ◌≡◌, refl, take, drop, take-nil, replicate}
use xiaozhi.Event.{EventType}
use xiaozhi.Session.{State, Action, Session, init, handle_event}

-- The actions other than NONE, in order.
abbrev emit : Action → List Action → List Action
emit Action.nothing acts = acts
emit a acts = a ∷ acts

unfoldable pub emitted : Session → List EventType → List Action
emitted session [] = []
emitted session (e ∷ es) = let (a, next) = handle_event session e in emit a (emitted next es)

abbrev pub script : List Action
script = Action.connect ∷ Action.send_hello ∷ Action.start_listen ∷ Action.stop_listen ∷ []

-- The actions that lie ahead of a state.
abbrev ahead : State → List Action
ahead State.idle = script
ahead State.wake_detecting = script
ahead State.connecting = drop 1 script
ahead State.handshaking = drop 2 script
ahead State.ready = drop 2 script
ahead State.uploading_audio = drop 3 script
ahead State.playing_tts = Action.abort ∷ drop 1 script
ahead _ = []

-- Some of `plan`, in order from its start, then only RETURN_TO_WAKE.
pub record Keeps (plan acts : List Action) : Type 0 where
  pub done : ℕ
  pub failures : ℕ
  pub shape : acts ≡ take done plan ++ replicate failures Action.return_to_wake

Keeps-cons : {plan acts : List Action} (a : Action) → Keeps plan acts → Keeps (a ∷ plan) (a ∷ acts)
Keeps-cons a k = record { done = suc k.done; failures = k.failures; shape = rw k.shape }

-- A failure ends the plan.
Keeps-fail :
    {acts : List Action} (plan : List Action)
    → Keeps [] acts
    → Keeps plan (Action.return_to_wake ∷ acts)
Keeps-fail plan k = record {
  done = 0;
  failures = suc k.failures;
  shape = rw k.shape (rw (take-nil Action));
}

keeps : (s : State) (es : List EventType) → Keeps (ahead s) (emitted (record { state = s }) es)
unfolding emitted handle_event
keeps State.idle (EventType.manual_start ∷ es) = Keeps-cons _ (keeps State.connecting es)
keeps State.idle (EventType.wakeword_detected ∷ es) = Keeps-cons _ (keeps State.connecting es)
keeps State.wake_detecting (EventType.manual_start ∷ es) = Keeps-cons _ (keeps State.connecting es)
keeps State.wake_detecting (EventType.wakeword_detected ∷ es) =
    Keeps-cons _ (keeps State.connecting es)
keeps State.connecting (EventType.ws_connected ∷ es) = Keeps-cons _ (keeps State.handshaking es)
keeps State.handshaking (EventType.ws_hello ∷ es) = keeps State.ready es
keeps State.ready (EventType.manual_start ∷ es) = Keeps-cons _ (keeps State.uploading_audio es)
keeps State.ready (EventType.wakeword_detected ∷ es) = Keeps-cons _ (keeps State.uploading_audio es)
keeps State.uploading_audio (EventType.manual_stop ∷ es) = Keeps-cons _ (keeps State.waiting_tts es)
keeps State.playing_tts (EventType.manual_start ∷ es) = Keeps-cons _ (keeps State.connecting es)
keeps State.playing_tts (EventType.wakeword_detected ∷ es) =
    Keeps-cons _ (keeps State.connecting es)
keeps s [] = record { done = 0; failures = 0; shape = refl }
keeps s (EventType.error ∷ es) = Keeps-fail (ahead s) (keeps State.error_backoff es)
keeps s (_ ∷ es) = keeps s es

-- Over any events, a session fresh from `session_init` asks for CONNECT, SEND_HELLO, START_LISTEN
-- and STOP_LISTEN at most, each once and in this order, and after the first failure for nothing but
-- RETURN_TO_WAKE.
pub emitted-Keeps : (es : List EventType) → Keeps script (emitted init es)
unfolding init
emitted-Keeps es = keeps State.idle es
