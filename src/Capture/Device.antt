-- ===== src/Capture/Device.antt =====
-- `audio_capture_open_device` and the calls on the device that the microphone's thread makes.
use xiaozhi.Alsa.{
  any, access, format, channels, rate, period_size, Call, pcm_open, hw_malloc, hw_set, hw_apply,
  hw_free, read, prepare, drop, close, chain, nothing_held, device_held, call_on, calls_on,
  calls_on-append,
}
use xiaozhi.Base.{
  ℕ, ◌≡◌, refl, ap, ◌∙◌, inl, inr, Bool-cases, Bool, true, false, not, List, [], ◌∷◌, ◌++◌, Option,
  none, some, if◌then◌else◌, arith,
}
use xiaozhi.Base.Int.{ℤ, pos, negsuc, is_negative, int_eq}
use xiaozhi.Capture.{CaptureConfig}

-- What the calls return: the error code of `snd_pcm_open` and of `snd_pcm_hw_params`, the number of
-- frames that `set_period_size_near` chose, and whether each other call succeeds.
pub record Answers : Type 0 where
  pub opened : ℤ
  pub allocated : Bool
  pub any_good : Bool
  pub access_good : Bool
  pub format_good : Bool
  pub channels_good : Bool
  pub rate_good : Bool
  pub period : Option ℕ
  pub applied : ℤ

pub record Opened : Type 0 where
  pub result : ℤ
  pub config : CaptureConfig
  pub calls : List Call

abbrev is_some : Option ℕ → Bool
is_some none = false
is_some (some n) = true

-- The calls between `snd_pcm_hw_params_malloc` and `snd_pcm_hw_params`.
abbrev settings : CaptureConfig → Answers → List (Call × Bool)
settings c a =
    (hw_set any, a.any_good)
    ∷ (hw_set access, a.access_good)
    ∷ (hw_set format, a.format_good)
    ∷ (hw_set (channels c.channels), a.channels_good)
    ∷ (hw_set (rate c.sample_rate), a.rate_good)
    ∷ (hw_set (period_size c.period_frames), is_some a.period)
    ∷ []

chosen : CaptureConfig → Option ℕ → CaptureConfig
chosen c none = c
chosen c (some frames) = record c { period_frames = frames }

-- From `snd_pcm_hw_params` on; `made` are the calls before it.
apply : CaptureConfig → Answers → List Call → Opened
unfolding chosen
apply c a made =
    if is_negative a.applied
    then record { result = a.applied; config = c; calls = made ++ hw_apply ∷ hw_free ∷ close ∷ [] }
    else record {
      result = pos 0;
      config = chosen c a.period;
      calls = made ++ hw_apply ∷ hw_free ∷ [];
    }

after_settings : CaptureConfig → Answers → Bool × List Call → Opened
unfolding apply
after_settings c a (true, made) = apply c a made
after_settings c a (false, made) = record {
  result = negsuc 0;
  config = c;
  calls = made ++ hw_free ∷ close ∷ [];
}

abbrev behind : List Call → Opened → Opened
behind first o = record o { calls = first ++ o.calls }

unfoldable pub open_device : CaptureConfig → Answers → Opened
unfolding after_settings
open_device c a =
    if is_negative a.opened
    then record { result = a.opened; config = c; calls = pcm_open false ∷ [] }
    else if not a.allocated
    then record {
      result = negsuc 0;
      config = c;
      calls = pcm_open true ∷ hw_malloc false ∷ close ∷ [];
    }
    else behind (pcm_open true ∷ hw_malloc true ∷ []) (after_settings c a (chain (settings c a)))

-- A round of the thread's loop: `snd_pcm_readi`, and `snd_pcm_prepare` after a read that fails.
abbrev round_calls : Bool → List Call
round_calls good = if good then read ∷ [] else read ∷ prepare ∷ []

abbrev rounds_calls : List Bool → List Call
rounds_calls [] = []
rounds_calls (good ∷ rounds) = round_calls good ++ rounds_calls rounds

-- `audio_capture_thread`: whether `calloc` finds memory for the samples, and whether each read of its
-- loop succeeds, up to the round that finds `running` cleared.
unfoldable pub thread_calls : CaptureConfig → Answers → Bool → List Bool → List Call
thread_calls c a allocated rounds =
    let o = open_device c a in
    if not (int_eq o.result (pos 0))
    then o.calls
    else if not allocated
    then o.calls ++ close ∷ []
    else o.calls ++ (rounds_calls rounds ++ drop ∷ close ∷ [])

-- `audio_capture_open_device` uses only what it holds, and on every path it frees the parameters that
-- it allocated; it leaves the device open if it returns 0, and closed otherwise.
pub open_device-balanced :
    (c : CaptureConfig) (a : Answers)
    → calls_on nothing_held (open_device c a).calls
      ≡ some (record nothing_held { device = int_eq (open_device c a).result (pos 0) })
unfolding open_device after_settings apply chain calls_on call_on
open_device-balanced c a = ground arith

rounds_keep : (rounds : List Bool) → calls_on device_held (rounds_calls rounds) ≡ some device_held
unfolding calls_on call_on
rounds_keep [] = refl
rounds_keep (true ∷ rounds) = rounds_keep rounds
rounds_keep (false ∷ rounds) = rounds_keep rounds

closes : calls_on device_held (drop ∷ close ∷ []) ≡ some nothing_held
unfolding calls_on call_on
closes = refl

closed : calls_on device_held (close ∷ []) ≡ some nothing_held
unfolding calls_on call_on
closed = refl

-- The thread of the microphone, once `running` is cleared and it ends, has used nothing that it did not
-- hold and holds neither the device nor its parameters: whatever each call on the device returns,
-- whether or not the memory for the samples is found, and whichever reads fail.
pub thread_calls-balanced :
    (c : CaptureConfig) (a : Answers) (allocated : Bool) (rounds : List Bool)
    → calls_on nothing_held (thread_calls c a allocated rounds) ≡ some nothing_held
unfolding thread_calls
thread_calls-balanced c a allocated rounds =
    let o = open_device c a in
    elim (Bool-cases (int_eq o.result (pos 0))) [
      | inl good ↦
          let opened : calls_on nothing_held o.calls ≡ some device_held =
            open_device-balanced c a ∙ ap (λ b. some (record nothing_held { device = b })) good in
          elim (Bool-cases allocated) [
            | inl found ↦
                rw (good, found)
                  (calls_on-append o.calls _ nothing_held {h' = device_held} opened
                    ∙ calls_on-append (rounds_calls rounds) _ device_held {h' = device_held}
                        (rounds_keep rounds)
                    ∙ closes)
            | inr missing ↦
                rw (good, missing)
                  (calls_on-append o.calls _ nothing_held {h' = device_held} opened ∙ closed)
          ]
      | inr bad ↦
          rw bad
            (open_device-balanced c a ∙ ap (λ b. some (record nothing_held { device = b })) bad)
    ]
