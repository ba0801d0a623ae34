-- ===== src/Debug/Sinks.antt =====
-- The state of debug.c, its registrations, and `_debug`. A name of a file and a function of
-- the caller are addresses. The server of messages and what the system does with a message are
-- left out. Memory is always given.
use workqueue.Prelude.{
  drop, set, replicate, map, ◌+◌, length, ◌-◌, ◌==◌, bit_or, ltb, if◌then◌else◌, ◌++◌, take, Bool,
  ℕ, List, Option, none, some, true, false, [], ◌∷◌,
}

-- What a message goes to.
pub data Sink : Type 0 where
  to_file : ℕ → Sink
  to_net : Option ℕ → ℕ → Sink
  to_redirection : ℕ → Sink
  to_console : Sink

-- _debug_par, with its lists in the order of their links. A prefix is a string without its end.
pub record DebugPar : Type 0 where
  pub lv : ℕ
  pub prefix : Option (List ℕ)
  pub files : List Sink
  pub nets : List Sink
  pub redirections : List Sink
  pub buse : Bool

-- `_dpar`, which may be NULL.
abbrev pub Global : Type 0
Global = Option DebugPar

unfoldable pub debug_init : ℕ → Global → Global
debug_init lv (some d) = some d
debug_init lv none =
    some (record { lv = lv; prefix = none; files = []; nets = []; redirections = []; buse = false })

-- `_debug_deinit`, where no server runs.
unfoldable pub debug_deinit : Global → Global
debug_deinit d = none

unfoldable pub register_prefix : Option (List ℕ) → Global → Global
register_prefix prefix none = none
register_prefix prefix (some d) = some (record d { prefix = prefix })

unfoldable pub register_file : Option ℕ → Global → Global
register_file path none = none
register_file none (some d) = some d
register_file (some path) (some d) = some (record d { files = d.files ++ to_file path ∷ [] })

unfoldable pub register_net : Option ℕ → ℕ → Global → Global
register_net ip port none = none
register_net ip port (some d) = some (record d { nets = d.nets ++ to_net ip port ∷ [] })

unfoldable pub register_redirection : Option ℕ → Global → Global
register_redirection f none = none
register_redirection none (some d) = some d
register_redirection (some f) (some d) =
    some (record d { redirections = d.redirections ++ to_redirection f ∷ [] })

unfoldable pub register_console : Global → Global
register_console none = none
register_console (some d) = some (record d { buse = true })

abbrev pub buffer_size : ℕ
buffer_size = 1024

-- Bytes that are written at a place.
abbrev pub write_at : ℕ → List ℕ → List ℕ → List ℕ
write_at i bytes buffer = take i buffer ++ bytes ++ drop (i + length bytes) buffer

-- What `vsnprintf` writes of a text: at most n bytes, the last of which ends the string.
abbrev pub snprintf : ℕ → List ℕ → List ℕ
snprintf n text = take (n - 1) text ++ 0 ∷ []

abbrev pub prefix_of : Option (List ℕ) → List ℕ
prefix_of none = []
prefix_of (some p) = p

-- The buffer of `_debug`, of this size, for a formatted text.
unfoldable pub debug_buffer : ℕ → Option (List ℕ) → List ℕ → List ℕ
debug_buffer size prefix text =
    let p = prefix_of prefix in
    let copied = if ltb (length p) (size - 1) then length p else size - 1 in
    let b = write_at 0 (take copied p) (replicate size 0) in
    let printed =
      if ltb (length p) (size - 1)
      then write_at (length p) (snprintf (size - length p) text) b
      else b in
    set printed (size - 1) 0

-- The string at the start of a buffer.
unfoldable pub string_at : List ℕ → List ℕ
string_at [] = []
string_at (x ∷ xs) = let rest = string_at xs in if x == 0 then [] else x ∷ rest

-- `_debug`: what the message goes to, in the order of the calls, with the string that it is given.
-- The test of the level is `BIT_SET`, whose value is that of `level | lv`.
unfoldable pub debug : ℕ → List ℕ → Global → List (Sink × List ℕ)
debug level text none = []
debug level text (some d) =
    if bit_or level d.lv == 0
    then []
    else map (λ (s : Sink). (s, string_at (debug_buffer buffer_size d.prefix text)))
        (d.files ++ d.nets ++ d.redirections ++ (if d.buse then to_console ∷ [] else []))
