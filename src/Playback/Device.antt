-- ===== src/Playback/Device.antt =====
-- `audio_playback_open_device`, `audio_playback_apply_sw_params` and the calls on the device that the
-- playback's thread makes.
pub mod Holding
use xiaozhi.Alsa.{
  any, access, format, channels, rate, period_time, buffer_time, current, avail_min,
  start_threshold, Call, pcm_open, hw_malloc, sw_malloc, hw_set, sw_set, hw_apply, sw_apply,
  hw_free, sw_free, get_params, write, prepare, drop, close, chain, Held, nothing_held, device_held,
  call_on, calls_on, calls_on-append,
}
use xiaozhi.AudioBuffer
use xiaozhi.AudioBuffer.{AudioBuffer, Block}
use xiaozhi.Base.{
  ℕ, ◌≡◌, refl, sym, ap, ◌∙◌, inl, inr, Bool-cases, Bool, true, false, not, ◌==◌, ltb, List, [],
  ◌∷◌, ◌++◌, Option, none, some, if◌then◌else◌, arith, Status, ok, failed, zero, suc, replicate,
}
use xiaozhi.Base.Int.{ℤ, pos, negsuc, is_negative, int_eq}
use xiaozhi.Playback.{
  PlaybackConfig, compute_start_threshold, Playback, Player, needs_open, Turn, play, after_pop,
  turn,
}

-- What the calls of `audio_playback_apply_sw_params` return: the sizes of the buffer and of a period,
-- and whether each other call succeeds.
pub record SwAnswers : Type 0 where
  pub sizes : Option (ℕ × ℕ)
  pub allocated : Bool
  pub current_good : Bool
  pub avail_good : Bool
  pub threshold_good : Bool
  pub applied : Bool

-- The frames with which the playback starts.
unfoldable pub threshold : ℕ → ℕ → ℕ
threshold buffer_size period_size =
    let start = compute_start_threshold buffer_size period_size 3 in
    if start == 0 then buffer_size else start

abbrev sw_settings : ℕ → ℕ → SwAnswers → List (Call × Bool)
sw_settings buffer_size period_size a =
    (sw_set current, a.current_good)
    ∷ (sw_set (avail_min (if ltb 0 period_size then period_size else 1)), a.avail_good)
    ∷ (sw_set (start_threshold (threshold buffer_size period_size)), a.threshold_good)
    ∷ []

unfoldable sw_end : SwAnswers → Bool × List Call → Status × List Call
sw_end a (true, made) = (if a.applied then ok else failed, made ++ sw_apply ∷ sw_free ∷ [])
sw_end a (false, made) = (failed, made ++ sw_free ∷ [])

abbrev behind : {A : Type 0} → List Call → A × List Call → A × List Call
behind first (a, calls) = (a, first ++ calls)

unfoldable sw_sized : SwAnswers → Option (ℕ × ℕ) → Status × List Call
unfolding sw_end
sw_sized a none = (failed, get_params ∷ [])
sw_sized a (some (buffer_size, period_size)) =
    if not a.allocated
    then (failed, get_params ∷ sw_malloc false ∷ [])
    else behind (get_params ∷ sw_malloc true ∷ [])
        (sw_end a (chain (sw_settings buffer_size period_size a)))

unfoldable pub apply_sw_params : SwAnswers → Status × List Call
unfolding sw_sized
apply_sw_params a = sw_sized a a.sizes

-- What the calls of `audio_playback_open_device` return: the error codes of `snd_pcm_open` and of
-- `snd_pcm_hw_params`, and whether each other call succeeds.
pub record Answers : Type 0 where
  pub opened : ℤ
  pub allocated : Bool
  pub any_good : Bool
  pub access_good : Bool
  pub format_good : Bool
  pub channels_good : Bool
  pub rate_good : Bool
  pub applied : ℤ
  pub sw : SwAnswers

abbrev settings : PlaybackConfig → ℤ → Answers → List (Call × Bool)
settings c sample_rate a =
    (hw_set any, a.any_good)
    ∷ (hw_set access, a.access_good)
    ∷ (hw_set format, a.format_good)
    ∷ (hw_set (channels c.channels), a.channels_good)
    ∷ (hw_set (rate sample_rate), a.rate_good)
    ∷ []

-- From `set_period_time_near`, whose result is ignored as the next call's is, on; `made` are the calls
-- before it. That the software parameters cannot be set is only logged.
unfoldable apply : Answers → List Call → ℤ × List Call
apply a made =
    let calls = made ++ hw_set (period_time 60000) ∷ hw_set (buffer_time 240000) ∷ hw_apply ∷ [] in
    if is_negative a.applied
    then (a.applied, calls ++ hw_free ∷ close ∷ [])
    else (pos 0, calls ++ hw_free ∷ (apply_sw_params a.sw).1)

unfoldable after_settings : Answers → Bool × List Call → ℤ × List Call
unfolding apply
after_settings a (true, made) = apply a made
after_settings a (false, made) = (negsuc 0, made ++ hw_free ∷ close ∷ [])

-- The result, and the calls that are made.
unfoldable pub open_device : PlaybackConfig → ℤ → Answers → ℤ × List Call
unfolding after_settings
open_device c sample_rate a =
    if is_negative a.opened
    then (a.opened, pcm_open false ∷ [])
    else if not a.allocated
    then (negsuc 0, pcm_open true ∷ hw_malloc false ∷ close ∷ [])
    else behind (pcm_open true ∷ hw_malloc true ∷ [])
        (after_settings a (chain (settings c sample_rate a)))

-- What the thread does with a device that it gives up.
abbrev releases : Option ℤ → List Call
releases none = []
releases (some current_rate) = drop ∷ close ∷ []

-- The writing of a block, in `writes` calls of `snd_pcm_writei` and `snd_pcm_recover`.
abbrev write_calls : ℕ → Bool → List Call
write_calls writes written = replicate writes write ++ (if written then [] else prepare ∷ [])

-- A round with a block.
unfoldable play_calls : PlaybackConfig → Option ℤ → ℤ → Answers → ℕ → Bool → List Call
play_calls c device sample_rate a writes written =
    if needs_open device sample_rate
    then (let (rc, calls) = open_device c sample_rate a in
        releases device
        ++ (calls ++ (if int_eq rc (pos 0) then write_calls writes written else [])))
    else write_calls writes written

unfoldable popped_calls : Player → Option Block → Answers → ℕ → Bool → List Call
unfolding play_calls
popped_calls p none a writes written = []
popped_calls p (some block) a writes written =
    play_calls p.pb.config p.device block.sample_rate a writes written

-- A round of `audio_playback_thread`.
unfoldable pub turn_calls : Player → Answers → ℕ → Bool → List Call
unfolding popped_calls
turn_calls p a writes written =
    if not p.pb.running
    then releases p.device
    else if p.pb.stop_requested
    then releases p.device
    else popped_calls p (AudioBuffer.pop p.pb.queue).0 a writes written

-- A round: the playback as the other threads have left it, and what the calls on the device return.
pub record Turning : Type 0 where
  pub pb : Playback
  pub answers : Answers
  pub writes : ℕ
  pub written : Bool

-- Whether the device opens for the block that is next.
abbrev pub opens : Turning → Bool
opens t =
    int_eq
      (open_device t.pb.config (AudioBuffer.block_at t.pb.queue t.pb.queue.head).sample_rate
        t.answers).0
      (pos 0)

abbrev turned : Option ℤ → Turning → Turn
turned device t = turn (record { pb = t.pb; device = device }) (opens t) t.written

-- The calls of some rounds, one after the other, from a device on, and the device after them.
unfoldable pub thread_calls : Option ℤ → List Turning → List Call
thread_calls device [] = []
thread_calls device (t ∷ ts) =
    turn_calls (record { pb = t.pb; device = device }) t.answers t.writes t.written
    ++ thread_calls (turned device t).player.device ts

unfoldable pub device_after : Option ℤ → List Turning → Option ℤ
device_after device [] = device
device_after device (t ∷ ts) = device_after (turned device t).player.device ts
