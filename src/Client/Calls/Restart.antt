-- ===== src/Client/Calls/Restart.antt =====
-- What a restart of the client does and what it keeps.
use xiaozhi.Base.{
  Bool, true, false, ◌≡◌, refl, ok, failed, if◌then◌else◌, arith, [], ◌∷◌, Option, inl, inr,
  Bool-cases, Option-cases,
}
use xiaozhi.Base.Strings.{Bytes, truncate}
use xiaozhi.Client.Calls.{
  start, stop, Closing, thread_begin, gives_up, connect_info, ConnectInfo, Uri,
}
use xiaozhi.Client.State.{Client, on_error}

-- `xiaozhi_client_stop` and `xiaozhi_client_start` of a client that runs, as the program calls
-- them to reconnect: it is then not connected and has no websocket, it runs exactly if the new
-- thread could be made, and what it had still to send and had received in part is as before.
pub restart_lem :
    (client : Client) (closing : Closing) (thread_made : Bool)
    → client.running ≡ true
    → let (rc, next) = start (stop client closing).0 thread_made in
      (next.connected ≡ false)
      × (next.wsi ≡ false)
      × (next.context ≡ false)
      × (next.running ≡ thread_made)
      × (rc ≡ (if thread_made then ok else failed))
      × (next.pending_text ≡ client.pending_text)
      × (next.pending_binary ≡ client.pending_binary)
      × (next.recv_text ≡ client.recv_text)
      × (next.recv_binary ≡ client.recv_binary)
unfolding start stop
restart_lem client closing thread_made h = ground arith

thread_begin-gives_up :
    (client : Client) (made : Bool) (parse_uri : Bytes → Option Uri) (initiate : ConnectInfo → Bool)
    → (thread_begin client made parse_uri initiate).serving ≡ false
    → (m : Bytes) × (thread_begin client made parse_uri initiate ≡ gives_up client m)
unfolding thread_begin
thread_begin-gives_up client false parse_uri initiate s = (_, refl)
thread_begin-gives_up client true parse_uri initiate s =
    elim (Option-cases (parse_uri (truncate 256 client.config.url))) [
      | inl e ↦ rw (e, thread_begin) (_, refl)
      | inr (uri, e) ↦ elim (Bool-cases (initiate (connect_info uri))) [
        | inl i ↦ cc (rw (e, thread_begin, i) at s)
        | inr i ↦ rw (e, thread_begin, i) (_, refl)
      ]
    ]

-- A thread of a client that runs, if it gives up before its loop, has told the program of one
-- error and leaves `running` set, so that a `xiaozhi_client_start` with no `xiaozhi_client_stop`
-- before it succeeds and starts no thread.
pub given_up_start :
    (client : Client) (made : Bool) (parse_uri : Bytes → Option Uri) (initiate : ConnectInfo → Bool)
    (thread_made : Bool)
    → client.running ≡ true
    → (thread_begin client made parse_uri initiate).serving ≡ false
    → let begun = thread_begin client made parse_uri initiate in
      ((m : Bytes) × (begun.calls ≡ on_error m ∷ []))
      × (start begun.client thread_made ≡ (ok, begun.client))
unfolding start
given_up_start client made parse_uri initiate thread_made h s =
    let (m, e) = thread_begin-gives_up client made parse_uri initiate s in rw e ((m, refl), rw h)
