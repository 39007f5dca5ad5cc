-- ===== src/Playback/Device/Holding.antt =====
-- What the playback's thread holds of the device over the calls that it makes.
use xiaozhi.Alsa.{Call, chain, Held, nothing_held, device_held, call_on, calls_on, calls_on-append}
use xiaozhi.AudioBuffer
use xiaozhi.AudioBuffer.{AudioBuffer, Block}
use xiaozhi.Base.{
  ℕ, ◌≡◌, refl, sym, ap, ◌∙◌, inl, inr, Bool-cases, Bool, true, false, not, List, [], ◌∷◌, ◌++◌,
  Option, none, some, if◌then◌else◌, arith, zero, suc,
}
use xiaozhi.Base.Int.{ℤ, pos, int_eq}
use xiaozhi.Playback.{PlaybackConfig, Playback, Player, needs_open, Turn, play, after_pop, turn}
use xiaozhi.Playback.Device.{
  SwAnswers, sw_end, sw_sized, apply_sw_params, Answers, apply, after_settings, open_device,
  releases, write_calls, play_calls, popped_calls, turn_calls, Turning, opens, turned, thread_calls,
  device_after,
}

sized-keeps :
    (a : SwAnswers) (sizes : Option (ℕ × ℕ))
    → calls_on device_held (sw_sized a sizes).1 ≡ some device_held
unfolding sw_sized sw_end chain calls_on call_on
sized-keeps a none = refl
sized-keeps a (some (buffer_size, period_size)) = ground arith

sw-keeps : (a : SwAnswers) → calls_on device_held (apply_sw_params a).1 ≡ some device_held
unfolding apply_sw_params
sw-keeps a = sized-keeps a a.sizes

-- `audio_playback_open_device` uses only what it holds, and on every path it frees the parameters that
-- it allocated; it leaves the device open if it returns 0, and closed otherwise.
pub open_device-balanced :
    (c : PlaybackConfig) (sample_rate : ℤ) (a : Answers)
    → calls_on nothing_held (open_device c sample_rate a).1
      ≡ some (record nothing_held { device = int_eq (open_device c sample_rate a).0 (pos 0) })
unfolding open_device after_settings apply chain calls_on call_on
open_device-balanced c sample_rate a = ground (arith, sw-keeps a.sw)

abbrev pub holds : Option ℤ → Held
holds none = nothing_held
holds (some current_rate) = device_held

releases-held : (device : Option ℤ) → calls_on (holds device) (releases device) ≡ some nothing_held
unfolding calls_on call_on
releases-held none = refl
releases-held (some current_rate) = refl

writes-held :
    (writes : ℕ) (written : Bool)
    → calls_on device_held (write_calls writes written) ≡ some device_held
unfolding calls_on call_on
writes-held zero true = refl
writes-held zero false = refl
writes-held (suc writes) written = writes-held writes written

-- A device that is opened anew.
opened-held :
    (c : PlaybackConfig) (device : Option ℤ) (sample_rate : ℤ) (a : Answers) (writes : ℕ)
    (written b : Bool)
    → int_eq (open_device c sample_rate a).0 (pos 0) ≡ b
    → calls_on (holds device) (
        releases device
        ++ ((open_device c sample_rate a).1 ++ (if b then write_calls writes written else [])))
      ≡ some (record nothing_held { device = b })
unfolding calls_on
opened-held c device sample_rate a writes written b e =
    calls_on-append (releases device) _ (holds device) {h' = nothing_held} (releases-held device)
    ∙ calls_on-append (open_device c sample_rate a).1 _ nothing_held
        {h' = record nothing_held { device = b }}
        (open_device-balanced c sample_rate a
          ∙ ap (λ k. some (record nothing_held { device = k })) e)
    ∙ ends b
  where
    ends :
        (k : Bool)
        → calls_on
            (record nothing_held { device = k })
            (if k then write_calls writes written else [])
          ≡ some (record nothing_held { device = k })
    ends true = writes-held writes written
    ends false = refl

reopened-held :
    (pb : Playback) (current_rate : ℤ) (block : Block) (a : Answers) (writes : ℕ) (written b : Bool)
    → int_eq (open_device pb.config block.sample_rate a).0 (pos 0) ≡ b
    → int_eq current_rate block.sample_rate ≡ false
    → calls_on device_held
        (play_calls pb.config (some current_rate) block.sample_rate a writes written)
      ≡ some (holds (play pb (some current_rate) block b written).player.device)
unfolding play play_calls calls_on needs_open
reopened-held pb current_rate block a writes written true e differs =
    rw (differs, e)
      (opened-held pb.config (some current_rate) block.sample_rate a writes written true e)
reopened-held pb current_rate block a writes written false e differs =
    rw (differs, e)
      (opened-held pb.config (some current_rate) block.sample_rate a writes written false e)

play-held :
    (pb : Playback) (device : Option ℤ) (block : Block) (a : Answers) (writes : ℕ)
    (written b : Bool)
    → int_eq (open_device pb.config block.sample_rate a).0 (pos 0) ≡ b
    → calls_on (holds device) (play_calls pb.config device block.sample_rate a writes written)
      ≡ some (holds (play pb device block b written).player.device)
unfolding play play_calls needs_open
play-held pb none block a writes written true e =
    rw e (opened-held pb.config none block.sample_rate a writes written true e)
play-held pb none block a writes written false e =
    rw e (opened-held pb.config none block.sample_rate a writes written false e)
play-held pb (some current_rate) block a writes written b e =
    elim (Bool-cases (int_eq current_rate block.sample_rate)) [
      | inl same ↦ rw same (writes-held writes written)
      | inr differs ↦ reopened-held pb current_rate block a writes written b e differs
    ]

abbrev HoldsAfter : Option ℤ → List Call → Turn → Type 0
HoldsAfter device calls t = calls_on (holds device) calls ≡ some (holds t.player.device)

if-HoldsAfter :
    (b : Bool) (device : Option ℤ) (calls calls' : List Call) (t t' : Turn)
    → HoldsAfter device calls t
    → HoldsAfter device calls' t'
    → HoldsAfter device (if b then calls else calls') (if b then t else t')
if-HoldsAfter true device calls calls' t t' h h' = h
if-HoldsAfter false device calls calls' t t' h h' = h'

popped-held :
    (p : Player) (x : Option Block × AudioBuffer) (a : Answers) (writes : ℕ) (b written : Bool)
    → ((k : Block) → x.0 ≡ some k → int_eq (open_device p.pb.config k.sample_rate a).0 (pos 0) ≡ b)
    → HoldsAfter p.device (popped_calls p x.0 a writes written) (after_pop p x b written)
unfolding popped_calls after_pop calls_on
popped-held p (none, q) a writes b written h = refl
popped-held p (some k, q) a writes b written h =
    play-held (record p.pb { queue = q }) p.device k a writes written b (h k refl)

head_popped :
    (b : AudioBuffer) (k : Block)
    → (AudioBuffer.pop b).0 ≡ some k
    → AudioBuffer.block_at b b.head ≡ k
unfolding AudioBuffer.pop
head_popped b k e = ground arith

turn-held :
    (device : Option ℤ) (t : Turning)
    → HoldsAfter device
        (turn_calls (record { pb = t.pb; device = device }) t.answers t.writes t.written)
        (turned device t)
unfolding turn_calls turn
turn-held device t =
    let p : Player = record { pb = t.pb; device = device } in
    let rc = λ (k : Block). int_eq (open_device t.pb.config k.sample_rate t.answers).0 (pos 0) in
    let free = releases-held device in
    if-HoldsAfter (not t.pb.running) device _ _ _ _ free (
      if-HoldsAfter t.pb.stop_requested device _ _ _ _ free (
        popped-held p (AudioBuffer.pop t.pb.queue) t.answers t.writes (opens t) t.written
          (λ k e. ap rc (sym (head_popped t.pb.queue k e)))))

-- After any rounds of the playback's thread, whatever the other threads do to the playback between
-- them and whatever the calls on the device return, the thread has used nothing that it did not hold,
-- and it holds the device exactly if it has a current rate, and no parameters; so when a round finds
-- `running` cleared and the thread ends, it has closed the device.
pub thread_calls-held :
    (device : Option ℤ) (ts : List Turning)
    → calls_on (holds device) (thread_calls device ts) ≡ some (holds (device_after device ts))
unfolding thread_calls device_after calls_on
thread_calls-held device [] = refl
thread_calls-held device (t ∷ ts) =
    let next = (turned device t).player.device in
    calls_on-append
      (turn_calls (record { pb = t.pb; device = device }) t.answers t.writes t.written)
      (thread_calls next ts) (holds device) {h' = holds next} (turn-held device t)
    ∙ thread_calls-held next ts
