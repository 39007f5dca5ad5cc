-- ===== src/EventQueue/Deadline.antt =====
-- The absolute time up to which `event_queue_wait_locked` sleeps.
use xiaozhi.Base.{ℕ, ◌+◌, ◌-◌, ◌*◌, ◌/◌, ◌%◌, ◌<◌, ◌≡◌, arith, leb, if◌then◌else◌}

pub record Timespec : Type 0 where
  pub tv_sec : ℕ
  pub tv_nsec : ℕ

-- `now` is what `clock_gettime` gave; the call is made with a positive timeout only.
pub deadline : Timespec → ℕ → Timespec
deadline now timeout_ms =
    let sec = now.tv_sec + timeout_ms / 1000 in
    let nsec = now.tv_nsec + (timeout_ms % 1000) * 1_000_000 in
    if leb 1_000_000_000 nsec
    then record { tv_sec = sec + 1; tv_nsec = nsec - 1_000_000_000 }
    else record { tv_sec = sec; tv_nsec = nsec }

abbrev pub nanoseconds : Timespec → ℕ
nanoseconds t = t.tv_sec * 1_000_000_000 + t.tv_nsec

-- From a clock whose nanoseconds are below a second, the deadline lies `timeout_ms` milliseconds
-- ahead, and its nanoseconds are below a second too, as `pthread_cond_timedwait` wants.
pub deadline_lem :
    (now : Timespec) (timeout_ms : ℕ)
    → now.tv_nsec < 1_000_000_000
    → ((deadline now timeout_ms).tv_nsec < 1_000_000_000)
      × (nanoseconds (deadline now timeout_ms) ≡ nanoseconds now + timeout_ms * 1_000_000)
unfolding deadline
deadline_lem now timeout_ms h = ground arith
