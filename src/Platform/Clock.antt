-- ===== src/Platform/Clock.antt =====
-- `timeconv_abs` of Platform.c: the absolute deadline of a timed wait.
use workqueue.Prelude.{ℕ, ◌+◌, ◌*◌, ◌/◌, ◌%◌, ◌≤◌, ◌<◌, ◌≡◌, arith}
use workqueue.Platform.Codes.{dword}

-- struct timespec
pub record Timespec : Type 0 where
  pub tv_sec : ℕ
  pub tv_nsec : ℕ

-- The sum `ms + tv_nsec / 1000000` is a `_dword`. `cur` is what `clock_gettime` gave.
unfoldable pub timeconv_abs : ℕ → Timespec → Timespec
timeconv_abs ms cur =
    let total_clock = (ms + cur.tv_nsec / 1000000) % dword in
    record {
      tv_sec = cur.tv_sec + total_clock / 1000;
      tv_nsec = total_clock % 1000 * 1000000 + cur.tv_nsec % 1000000;
    }

-- A time in nanoseconds.
abbrev pub nanoseconds : Timespec → ℕ
nanoseconds t = t.tv_sec * 1000000000 + t.tv_nsec

-- Of a normalised time and a wait that with the milliseconds of that time fits a `_dword`, the
-- deadline is normalised, and is exactly `ms` milliseconds later.
pub timeconv_abs_lem :
    (ms : ℕ) (cur : Timespec)
    → cur.tv_nsec < 1000000000
    → ms + cur.tv_nsec / 1000000 < dword
    → ((timeconv_abs ms cur).tv_nsec < 1000000000)
      × (nanoseconds (timeconv_abs ms cur) ≡ nanoseconds cur + ms * 1000000)
unfolding timeconv_abs
timeconv_abs_lem ms cur small fits = omega arith

-- Of a normalised time and a `_dword` wait that with the milliseconds of that time does not fit
-- a `_dword`, the deadline lies in the second of the current time, whatever the wait.
pub timeconv_abs_wraps :
    (ms : ℕ) (cur : Timespec)
    → cur.tv_nsec < 1000000000
    → ms < dword
    → dword ≤ ms + cur.tv_nsec / 1000000
    → (timeconv_abs ms cur).tv_sec ≡ cur.tv_sec
unfolding timeconv_abs
timeconv_abs_wraps ms cur small is_dword wraps = omega arith
