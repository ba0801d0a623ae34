-- ===== src/Platform/Codes.antt =====
-- The result codes of WQ.h. A `_dword` is a number below 2 ^ 32.
use workqueue.Prelude.{ℕ, ◌^◌}

abbrev pub dword : ℕ
dword = 2 ^ 32

-- INFINITE
abbrev pub infinite : ℕ
infinite = 0xffff_ffff

-- WQ_SIGNALED, WQ_FAIL, WQ_TIMED_OUT and WQ_INVALID
abbrev pub signaled : ℕ
signaled = 0

abbrev pub fail : ℕ
fail = 0xffff_ffff

abbrev pub timed_out : ℕ
timed_out = 0x102

abbrev pub invalid : ℕ
invalid = 0x80

-- WQOK, WQENOMEM, WQEINVAL, WQENODEV and WQEALREADY
abbrev pub wqok : ℕ
wqok = 0

abbrev pub wqenomem : ℕ
wqenomem = 1

abbrev pub wqeinval : ℕ
wqeinval = 2

abbrev pub wqenodev : ℕ
wqenodev = 3

abbrev pub wqealready : ℕ
wqealready = 7
