-- ===== src/Browser/Server/Broadcast.antt =====
-- What a session of the browser is sent, over any sequence of callbacks.
use xiaozhi.Base.{
  ◌≡◌, refl, ap, List, [], ◌∷◌, ◌++◌, Option, none, some, ltb, length, if◌then◌else◌, arith,
}
use xiaozhi.Base.Strings.{Bytes}
use xiaozhi.Browser.Command.{command_parse, parsed, after_type, act, set_led}
use xiaozhi.Browser.Server.{
  c_string, answer, PerSession, Reason, established, receive, writeable, closed, other,
  receive_command, write_latest, callback,
}
use xiaozhi.Protocol.{Json}

-- A callback of the session: the broadcast message and the array `response` as they are then.
pub record Event : Type 0 where
  pub stack : Bytes
  pub global : Bytes
  pub reason : Reason

module _ {Item : Type 0} (json : Json Item) where
  unfoldable pub all_written : PerSession → List Event → List Bytes
  all_written pss [] = []
  all_written pss (e ∷ events) =
      let (pss', written) = callback json e.stack e.global pss e.reason in
      written ++ all_written pss' events

  -- What one callback is expected to send.
  abbrev pub latest : Bytes → List Bytes
  latest [] = []
  latest (c ∷ global) = (c ∷ global) ∷ []

  -- To a text of fewer than 1024 bytes, as a C string, that is JSON: the answer to the command.
  -- To any other, nothing.
  abbrev pub answered : Bytes → Bytes → Option Item → List Bytes
  answered stack text none = []
  answered stack text (some root) = (command_parse json text stack 1024).response ∷ []

  abbrev pub reply : Bytes → Bytes → List Bytes
  reply stack payload =
      let text = c_string payload in
      if ltb (length payload) 1024 then answered stack text (json.parse text) else []

  abbrev pub due : Bytes → Bytes → Reason → List Bytes
  due stack global writeable = latest global
  due stack global (receive payload) = reply stack payload
  due stack global _ = []

  abbrev pub all_due : List Event → List Bytes
  all_due [] = []
  all_due (e ∷ events) = due e.stack e.global e.reason ++ all_due events

  fresh : PerSession
  fresh = record { msg = [] }

  -- Whether there is an answer is whether the text is JSON.
  status-answered :
      (stack text : Bytes) (root : Option Item)
      → json.parse text ≡ root
      → answer (command_parse json text stack 1024) ≡ answered stack text root
  unfolding answer command_parse parsed after_type act set_led
  status-answered stack text none e = rw e refl
  status-answered stack text (some root) e = ground (arith, e)

  receive-reply : (stack payload : Bytes) → receive_command json stack payload ≡ reply stack payload
  unfolding receive_command
  receive-reply stack payload =
      ap (λ xs. if ltb (length payload) 1024 then xs else [])
        (status-answered stack (c_string payload) (json.parse (c_string payload)) refl)

  callback-due :
      (stack global : Bytes) (reason : Reason)
      → callback json stack global fresh reason ≡ (fresh, due stack global reason)
  unfolding callback write_latest fresh
  callback-due stack global established = refl
  callback-due stack global (receive payload) = ap (λ xs. (fresh, xs)) (receive-reply stack payload)
  callback-due stack [] writeable = refl
  callback-due stack (c ∷ global) writeable = ground arith
  callback-due stack global closed = refl
  callback-due stack global other = refl

  from_fresh : (events : List Event) → all_written fresh events ≡ all_due events
  unfolding all_written
  from_fresh [] = refl
  from_fresh (e ∷ events) =
      rw (callback-due e.stack e.global e.reason)
        (ap (λ rest. due e.stack e.global e.reason ++ rest) (from_fresh events))

  -- From its start on, whatever libwebsockets reports and however the broadcast message changes in
  -- between, a session is sent just this, in order: at each writeable callback the broadcast message
  -- of that moment, if it is not empty, and for each message that it receives the answer of
  -- `command_parse`, if the message has fewer than 1024 bytes and is JSON, and nothing otherwise, not
  -- even the error that `command_parse` has prepared. Nothing is kept from one callback to the next, so
  -- that a message that stays is sent again by each.
  pub all_written_lem :
      (stack global : Bytes) (pss : PerSession) (events : List Event)
      → all_written pss (record { stack = stack; global = global; reason = established } ∷ events)
        ≡ all_due events
  unfolding all_written callback fresh
  all_written_lem stack global pss events = from_fresh events
