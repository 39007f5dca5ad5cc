-- ===== src/Protocol/Build.antt =====
-- The messages fit the buffers of 256 bytes that the program gives for them.
use xiaozhi.Base.{
  ℕ, ◌≡◌, ◌≢◌, ◌<◌, ◌-◌, refl, [], ◌∷◌, ◌++◌, arith, length, length-append, ok, take_all,
}
use xiaozhi.Base.Strings.{Bytes, codes}
use xiaozhi.Protocol.{print_text, listen_text, build_listen_start_manual, build_listen_stop_manual}

print_text_lem : (text : Bytes) (size : ℕ) → length text < size → print_text text size ≡ (ok, text)
unfolding print_text
print_text_lem text size h = ground (arith, take_all (size - 1) text)

listen-fits :
    (c : ℕ) (id rest : Bytes)
    → length (c ∷ id) < 64
    → length rest < 100
    → length (listen_text (c ∷ id) rest) < 256
unfolding listen_text
listen-fits c id rest h k = ground (
  arith,
  length-append (codes "{\"session_id\":\"") ((c ∷ id) ++ rest),
  length-append (c ∷ id) rest,
)

-- A session id that fits its array and is not empty is put whole into both messages, which start and
-- stop listening, and neither call fails: what is written is the whole text, with no byte cut off.
pub build_listen_manual_lem :
    (id : Bytes)
    → id ≢ []
    → length id < 64
    → (build_listen_start_manual id 256 ≡ (
      ok,
      listen_text id (codes "\",\"type\":\"listen\",\"state\":\"start\",\"mode\":\"manual\"}"),
    ))
      × (build_listen_stop_manual id 256 ≡ (
        ok,
        listen_text id (codes "\",\"type\":\"listen\",\"state\":\"stop\",\"mode\":\"manual\"}"),
      ))
unfolding build_listen_start_manual build_listen_stop_manual
build_listen_manual_lem [] ne h = absurd (ne refl)
build_listen_manual_lem (c ∷ id) ne h = (
  print_text_lem
      (listen_text (c ∷ id)
        (codes "\",\"type\":\"listen\",\"state\":\"start\",\"mode\":\"manual\"}"))
      256
      (listen-fits c id (codes "\",\"type\":\"listen\",\"state\":\"start\",\"mode\":\"manual\"}") h
        (omega arith)),
  print_text_lem
      (listen_text (c ∷ id)
        (codes "\",\"type\":\"listen\",\"state\":\"stop\",\"mode\":\"manual\"}"))
      256
      (listen-fits c id (codes "\",\"type\":\"listen\",\"state\":\"stop\",\"mode\":\"manual\"}") h
        (omega arith)),
)
