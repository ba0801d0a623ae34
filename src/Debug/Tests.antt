-- ===== src/Debug/Tests.antt =====
-- Messages of debug.c, and the theorems at them.
use workqueue.Debug.Rows.{Wide, debug_memory_lem, rows}
use workqueue.Debug.Listing.{hex_digit, debug_memory}
use workqueue.Debug.Messages.{debug_lem}
use workqueue.Prelude.{
  ◌==◌, if◌then◌else◌, ◌%◌, ◌/◌, zero, suc, ◌++◌, List, length, replicate, ℕ, arith, take, map, ◌≡◌,
  refl, none, some, true, [], ◌∷◌,
}
use workqueue.Debug.Sinks.{
  Sink, debug_init, register_file, register_console, DebugPar, debug, to_file, to_net, to_console,
}

-- "wq" in front, a file, a socket and the console.
abbrev registered : DebugPar
registered = record {
  lv = 4;
  prefix = some (0x77 ∷ 0x71 ∷ []);
  files = to_file 16 ∷ [];
  nets = to_net none 514 ∷ [];
  redirections = [];
  buse = true;
}

test_register :
    register_console (register_file (some 16) (debug_init 4 none))
    ≡ some (record registered { prefix = none; nets = [] })
unfolding register_console register_file debug_init
test_register = refl

debug_lem_example :
    debug 1 (0x21 ∷ []) (some registered)
    ≡ map
        (λ (s : Sink). (s, take 1023 (0x77 ∷ 0x71 ∷ 0x21 ∷ [])))
        (to_file 16 ∷ to_net none 514 ∷ to_console ∷ [])
debug_lem_example =
    debug_lem 1 (0x21 ∷ []) registered (omega arith) (omega arith) (omega arith)
      (omega arith, (omega arith, tt)) (omega arith, tt)

-- The hexadecimal digits of a number without zeros in front, as `%p` of glibc prints an address
-- behind "0x".
hex_digits : ℕ → ℕ → List ℕ → List ℕ
unfolding hex_digit
hex_digits zero n us = us
hex_digits (suc fuel) n us =
    let more = hex_digits fuel (n / 16) (hex_digit (n % 16) ∷ us) in if n == 0 then us else more

abbrev pointer_text : ℕ → List ℕ
pointer_text q = 0x30 ∷ 0x78 ∷ hex_digits 16 q []

-- A page of a shared library, in front of 18 bytes.
pointer_text-Wide : Wide pointer_text 0x7fab_1234_5000 18
unfolding hex_digits
pointer_text-Wide zero small = (
  refl,
  (
    omega arith,
    (
      omega arith,
      (
        omega arith,
        (
          omega arith,
          (
            omega arith,
            (
              omega arith,
              (
                omega arith,
                (
                  omega arith,
                  (
                    omega arith,
                    (omega arith, (omega arith, (omega arith, (omega arith, (omega arith, tt))))),
                  ),
                ),
              ),
            ),
          ),
        ),
      ),
    ),
  ),
)
pointer_text-Wide (suc zero) small = (
  refl,
  (
    omega arith,
    (
      omega arith,
      (
        omega arith,
        (
          omega arith,
          (
            omega arith,
            (
              omega arith,
              (
                omega arith,
                (
                  omega arith,
                  (
                    omega arith,
                    (omega arith, (omega arith, (omega arith, (omega arith, (omega arith, tt))))),
                  ),
                ),
              ),
            ),
          ),
        ),
      ),
    ),
  ),
)
pointer_text-Wide (suc (suc k)) small = absurd (omega arith)

low_pointer : length (pointer_text 0x40_0000) ≡ 8
unfolding hex_digits
low_pointer = refl

debug_memory_lem_example :
    debug_memory pointer_text 0x7fab_1234_5000 (replicate 16 0x41 ++ 0x42 ∷ 0x0a ∷ [])
    ≡ rows pointer_text 0x7fab_1234_5000 1 (replicate 16 0x41 ++ 0x42 ∷ 0x0a ∷ [])
debug_memory_lem_example =
    debug_memory_lem pointer_text 0x7fab_1234_5000 (replicate 16 0x41 ++ 0x42 ∷ 0x0a ∷ [])
      pointer_text-Wide
