-- ===== src/Alsa.antt =====
-- The calls of ALSA that the microphone (src/audio_capture.c) and the playback (src/audio_playback.c)
-- make on a device, and what such a sequence of calls holds. What each call returns is part of it.
use xiaozhi.Base.{
  ℕ, ◌≡◌, ap, ◌++◌, inl, inr, Option-cases, Bool, true, false, not, ◌&&◌, List, [], ◌∷◌, Option,
  none, some, if◌then◌else◌,
}
use xiaozhi.Base.Int.{ℤ}

-- A call that sets something, by its name without the prefix.
pub data Setting : Type 0 where
  any access format : Setting
  channels rate : ℤ → Setting
  period_size : ℕ → Setting
  period_time buffer_time : ℕ → Setting
  current : Setting
  avail_min start_threshold : ℕ → Setting

-- `pcm_open` and the calls of malloc carry whether they succeeded.
pub data Call : Type 0 where
  pcm_open hw_malloc sw_malloc : Bool → Call
  hw_set sw_set : Setting → Call
  hw_apply sw_apply hw_free sw_free get_params : Call
  read write prepare drop close : Call

-- The calls of a chain, each of which is made only if the one before it succeeded.
unfoldable pub chain : List (Call × Bool) → Bool × List Call
chain [] = (true, [])
chain ((c, good) ∷ cs) =
    let (rest, calls) = chain cs in if good then (rest, c ∷ calls) else (false, c ∷ [])

-- What is held: the device, and the two objects of parameters.
pub record Held : Type 0 where
  pub device : Bool
  pub hw : Bool
  pub sw : Bool

abbrev pub nothing_held : Held
nothing_held = record { device = false; hw = false; sw = false }

abbrev pub device_held : Held
device_held = record { device = true; hw = false; sw = false }

abbrev needs : Bool → Held → Option Held
needs b h = if b then some h else none

-- One call: `none` if it uses what is not held, or takes what is held already.
unfoldable pub call_on : Held → Call → Option Held
call_on h (pcm_open good) = needs (not h.device) (record h { device = good })
call_on h (hw_malloc good) = needs (h.device && not h.hw) (record h { hw = good })
call_on h (sw_malloc good) = needs (h.device && not h.sw) (record h { sw = good })
call_on h (hw_set s) = needs (h.device && h.hw) h
call_on h hw_apply = needs (h.device && h.hw) h
call_on h hw_free = needs h.hw (record h { hw = false })
call_on h (sw_set s) = needs (h.device && h.sw) h
call_on h sw_apply = needs (h.device && h.sw) h
call_on h sw_free = needs h.sw (record h { sw = false })
call_on h close = needs (h.device && not h.hw && not h.sw) (record h { device = false })
call_on h _ = needs h.device h

unfoldable pub calls_on : Held → List Call → Option Held
calls_on h [] = some h
calls_on h (c ∷ cs) = elim (call_on h c) [ none ↦ none | some h' ↦ calls_on h' cs ]

pub calls_on-append :
    (xs ys : List Call) (h : Held) {h' : Held}
    → calls_on h xs ≡ some h'
    → calls_on h (xs ++ ys) ≡ calls_on h' ys
unfolding calls_on
calls_on-append [] ys h {h'} e = ap (λ k. calls_on k ys) (cc e)
calls_on-append (x ∷ xs) ys h {h'} e = elim (Option-cases (call_on h x)) [
  | inl none_left ↦ absurd (cc (rw (none_left, calls_on) at e))
  | inr (k, step) ↦
      rw (step, calls_on) (calls_on-append xs ys k {h' = h'} (rw (step, calls_on) at e))
]
