-- ===== src/Capture/Silence.antt =====
-- When the silence timeout is reported.
use xiaozhi.Base.{
  ℕ, ◌≡◌, ◌<◌, ◌≤◌, ◌+◌, refl, true, false, List, [], ◌∷◌, ◌++◌, arith, if◌then◌else◌,
}
use xiaozhi.Base.Int.{ℤ, pos, lt_int}
use xiaozhi.Capture.{Capture, max_abs_sample, natural, chunk_ms, measure}

-- What a round reads: its samples, and how many frames they are.
pub record Chunk : Type 0 where
  pub pcm : List ℤ
  pub frames : ℕ

-- The rounds of an upload: how often the timeout is reported, and the state after them.
abbrev pub hear_all : Capture → List Chunk → ℕ × Capture
hear_all cap [] = (0, cap)
hear_all cap (c ∷ cs) =
    let (timeout, cap') = measure cap true c.pcm c.frames in
    let (n, cap'') = hear_all cap' cs in (if timeout then n + 1 else n, cap'')

-- The time of silent chunks.
abbrev pub quiet_ms : Capture → List Chunk → ℕ
quiet_ms cap [] = 0
quiet_ms cap (c ∷ cs) = chunk_ms cap c.frames + quiet_ms cap cs

-- Every chunk is silent.
abbrev pub AllQuiet : Capture → List Chunk → Type 0
AllQuiet cap [] = Unit
AllQuiet cap (c ∷ cs) =
    (lt_int cap.config.silence_threshold (max_abs_sample c.pcm) ≡ false) × AllQuiet cap cs

measure_quiet :
    (cap : Capture) (t : ℕ) (c : Chunk)
    → cap.config.silence_timeout_ms ≡ pos t
    → 0 < t
    → lt_int cap.config.silence_threshold (max_abs_sample c.pcm) ≡ false
    → cap.silence_accumulator_ms + chunk_ms cap c.frames < t
    → measure cap true c.pcm c.frames ≡ (
      false,
      record cap { silence_accumulator_ms = cap.silence_accumulator_ms + chunk_ms cap c.frames },
    )
unfolding measure natural
measure_quiet cap t c e h q l = ground arith

measure_timeout :
    (cap : Capture) (t : ℕ) (c : Chunk)
    → cap.config.silence_timeout_ms ≡ pos t
    → 0 < t
    → lt_int cap.config.silence_threshold (max_abs_sample c.pcm) ≡ false
    → t ≤ cap.silence_accumulator_ms + chunk_ms cap c.frames
    → measure cap true c.pcm c.frames ≡ (true, record cap { silence_accumulator_ms = 0 })
unfolding measure natural
measure_timeout cap t c e h q l = ground arith

sum : ℕ → Capture → Capture
sum n cap = record cap { silence_accumulator_ms = n }

quiet-sum : (n : ℕ) (cap : Capture) (cs : List Chunk) → quiet_ms (sum n cap) cs ≡ quiet_ms cap cs
unfolding sum chunk_ms
quiet-sum n cap [] = refl
quiet-sum n cap (c ∷ cs) = rw (quiet-sum n cap cs) refl

AllQuiet-sum : (n : ℕ) (cap : Capture) (cs : List Chunk) → AllQuiet cap cs → AllQuiet (sum n cap) cs
unfolding sum
AllQuiet-sum n cap [] q = tt
AllQuiet-sum n cap (c ∷ cs) q = (q.0, AllQuiet-sum n cap cs q.1)

-- While an upload is silent, the timeout is reported once, at the first chunk that brings the silent
-- time to the timeout, and then the time is counted from 0 again: with silent chunks that stay below
-- the timeout before it, and one that reaches it. The timeout is above 0.
pub hear_all-once :
    (cap : Capture) (t : ℕ) (cs : List Chunk) (c : Chunk)
    → cap.config.silence_timeout_ms ≡ pos t
    → 0 < t
    → AllQuiet cap (cs ++ c ∷ [])
    → cap.silence_accumulator_ms + quiet_ms cap cs < t
    → t ≤ cap.silence_accumulator_ms + quiet_ms cap cs + chunk_ms cap c.frames
    → (hear_all cap cs
        ≡ (0, record cap { silence_accumulator_ms = cap.silence_accumulator_ms + quiet_ms cap cs }))
      × (hear_all cap (cs ++ c ∷ []) ≡ (1, record cap { silence_accumulator_ms = 0 }))
unfolding sum chunk_ms
hear_all-once cap t [] c e h q b l =
    (ground arith, rw (measure_timeout cap t c e h q.0 (omega arith)) refl)
hear_all-once cap t (d ∷ cs) c e h q b l =
    let n = cap.silence_accumulator_ms + chunk_ms cap d.frames in
    let m = measure_quiet cap t d e h q.0 (omega arith) in
    let same = quiet-sum n cap cs in
    let ih =
      hear_all-once (sum n cap) t cs c e h (AllQuiet-sum n cap (cs ++ c ∷ []) q.1)
        (rw same (omega arith)) (rw same (omega arith)) in
    (rw (m, ih.0, same) (ground arith), rw (m, ih.1) refl)
