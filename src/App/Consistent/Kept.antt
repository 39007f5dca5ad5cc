-- ===== src/App/Consistent/Kept.antt =====
-- An action of the session keeps the flags of the runtime in agreement.
use xiaozhi.App.Actions.{report, start_listen, handle_action, upload_on, open_upload}
use xiaozhi.App.Consistent.{
  Consistent, Off, Off-Consistent, Queues-Off, Queues-Consistent, push_event-Consistent,
  check-Consistent, start-Queues, hello-Queues, connect-Consistent, stop_listen-Consistent,
  abort-Consistent, return_to_wake-Off,
}
use xiaozhi.App.Messages.{handle_session}
use xiaozhi.App.Send.{send_listen_start, send_hello, with_dump, open_opus_dump_file}
use xiaozhi.App.State.{App, World, set_state}
use xiaozhi.Base.{
  ◌≡◌, ◌≢◌, ◌⊎◌, refl, sym, ap, subst, ◌∙◌, Bool, true, false, [], ◌∷◌, none, some, Status, ok,
  failed, arith, inl, inr, Bool-cases,
}
use xiaozhi.Base.Int.{negsuc}
use xiaozhi.Base.Strings.{Bytes, codes, is_empty}
use xiaozhi.Capture.{set_uploading}
use xiaozhi.Dump.{Dump, open_dump}
use xiaozhi.Event.{EventType}
use xiaozhi.Session.{Action, Session, State, handle_event}

opened : (d : Dump) (a b : Bool) → (open_dump d a b).0 ≡ ok → (open_dump d a b).1.file ≢ none
unfolding open_dump
opened d a b e = ground arith

upload_on-Consistent :
    (app : App) (p : Status × Dump)
    → Off app
    → app.session_id ≢ []
    → (p.0 ≡ ok → p.1.file ≢ none)
    → Consistent (upload_on (with_dump app p))
unfolding upload_on with_dump set_state report set_uploading
upload_on-Consistent app (failed, d) o s f =
    push_event-Consistent (record app { dump = d }) EventType.error
      (some (codes "failed to open opus dump file")) (negsuc 0)
      (Off-Consistent (record { microphone = o.microphone; client = o.client; upload = o.upload }))
upload_on-Consistent app (ok, d) o s f = record {
  microphone = refl;
  client = o.client;
  upload = λ e. (refl, f refl, s);
}

no_session :
    {Item : Type 0} (w : World Item) (app : App)
    → is_empty app.session_id ≡ true
    → (send_listen_start w app).0 ≢ ok
unfolding send_listen_start
no_session w app h = rw h (λ e. cc)

some_session : (id : Bytes) → is_empty id ≡ false → id ≢ []
some_session [] h = cc
some_session (c ∷ id) h = λ e. cc

-- A message is queued only for a session that is known.
sent_session :
    {Item : Type 0} (w : World Item) (app : App)
    → (send_listen_start w app).0 ≡ ok
    → (send_listen_start w app).1.session_id ≢ []
sent_session w app e = elim (Bool-cases (is_empty app.session_id)) [
  | inl h ↦ absurd (no_session w app h e)
  | inr h ↦ λ z. absurd (
      some_session app.session_id h
        (sym (ap (λ (a : App). a.session_id) (start-Queues w app).result) ∙ z))
]

-- What the session answers, for what the flags need: it ends an upload, it was in another state, or it
-- changes nothing.
session_step :
    (s : Session) (t : EventType)
    → (((handle_event s t).0 ≡ Action.stop_listen) ⊎ ((handle_event s t).0 ≡ Action.return_to_wake))
      ⊎ ((s.state ≢ State.uploading_audio) ⊎ (handle_event s t ≡ (Action.nothing, s)))
unfolding handle_event
session_step s t = ground arith

open-Consistent :
    {Item : Type 0} (w : World Item) (x : Status × App)
    → Off x.1
    → (x.0 ≡ ok → x.1.session_id ≢ [])
    → Consistent (open_upload w x)
unfolding open_upload report open_opus_dump_file
open-Consistent w (failed, app) o s =
    push_event-Consistent app EventType.error (some (codes "failed to queue listen start"))
      (negsuc 0) (Off-Consistent o)
open-Consistent w (ok, app) o s =
    upload_on-Consistent app (open_dump app.dump w.in_build w.in_tmp) o (s refl)
      (opened app.dump w.in_build w.in_tmp)

start_listen-Consistent :
    {Item : Type 0} (w : World Item) {app : App} → Off app → Consistent (start_listen w app)
unfolding start_listen
start_listen-Consistent w {app} o =
    open-Consistent w (send_listen_start w app) (Queues-Off (start-Queues w app) o)
      (sent_session w app)

-- Whatever the action, if there is no upload.
without_upload-Consistent :
    {Item : Type 0} (w : World Item) (app : App) (a : Action)
    → Off app
    → Consistent (handle_action w app a)
unfolding handle_action
without_upload-Consistent w app Action.nothing o = Off-Consistent o
without_upload-Consistent w app Action.connect o = connect-Consistent w o
without_upload-Consistent w app Action.send_hello o =
    check-Consistent (codes "failed to queue hello") (send_hello w app)
      (Queues-Consistent (hello-Queues w app) (Off-Consistent o))
without_upload-Consistent w app Action.start_listen o = start_listen-Consistent w o
without_upload-Consistent w app Action.stop_listen o = stop_listen-Consistent w app o.client
without_upload-Consistent w app Action.abort o = abort-Consistent w app o.client
without_upload-Consistent w app Action.start_playback o = Off-Consistent o
without_upload-Consistent w app Action.return_to_wake o =
    Off-Consistent (return_to_wake-Off w app o.client)

-- Outside the state of an upload, none runs.
elsewhere-Off : {app : App} → Consistent app → app.session.state ≢ State.uploading_audio → Off app
elsewhere-Off {app} c ne = elim (Bool-cases app.upload_enabled) [
  | inl e ↦ absurd (ne (c.upload e).0)
  | inr e ↦ record { microphone = c.microphone ∙ e; client = c.client; upload = e }
]

session-Off : {app : App} (s : Session) → Off app → Off (record app { session = s })
session-Off s o = record { microphone = o.microphone; client = o.client; upload = o.upload }

pub session-Consistent :
    {Item : Type 0} (w : World Item) (app : App) (t : EventType)
    → Consistent app
    → Consistent (handle_session w app t)
unfolding handle_session handle_action
session-Consistent w app t c =
    let s = record app { session = (handle_event app.session t).1 } in
    elim (session_step app.session t) [
      | inl (inl e) ↦ rw e (stop_listen-Consistent w s c.client)
      | inl (inr e) ↦ rw e (Off-Consistent (return_to_wake-Off w s c.client))
      | inr (inl e) ↦
          without_upload-Consistent w s (handle_event app.session t).0
            (session-Off (handle_event app.session t).1 (elsewhere-Off c e))
      | inr (inr e) ↦
          subst
            (λ (x : Action × Session).
              Consistent (handle_action w (record app { session = x.1 }) x.0))
            (sym e) c
    ]
