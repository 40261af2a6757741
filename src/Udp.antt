-- ===== src/Udp.antt =====
-- src/udp_server.c and `run_lua` of src/lua_rds.c: a datagram is given to the script, and its answer is
-- sent back. What the calls of the socket library answer is given to the operations.
use rds.Common.{ℕ, List, [], ◌∷◌, Bool, true, false, Option, none, some, if◌then◌else◌, take}
use rds.Lua.{Lua, World}

-- `hooks.data_handle`, where it is a function, and its call: `none` is an error, and `some none` a
-- result that is no string.
pub record Handler (L : Lua) : Type 0 where
  pub data_handle : L.Interp → Option L.Fn
  pub pcall_data : L.Fn → List ℕ → World L → Option (Option (List ℕ)) × World L

-- What is written to `cmd_output`: at most 254 bytes.
unfoldable pub command_output : Option (Option (List ℕ)) → List ℕ
command_output none = []
command_output (some none) = []
command_output (some (some text)) = take 254 text

-- `run_lua`, with `cmd_output` and a length of 0 at the start.
unfoldable pub run_lua : (L : Lua) → Handler L → List ℕ → World L → List ℕ × World L
unfolding command_output
run_lua L h text w = elim (h.data_handle w.1) [
  | none ↦ ([], w)
  | some f ↦ let (result, w') = h.pcall_data f text w in (command_output result, w')
]

-- `poll_udp_server`. `none` is a time-out or an error, and the datagram is cut to 511 bytes. The first
-- result is what is sent back, if anything is.
unfoldable pub poll_udp_server :
    (L : Lua) → Handler L → Option (List ℕ) → World L → Option (List ℕ) × World L
unfolding run_lua
poll_udp_server L h none w = (none, w)
poll_udp_server L h (some []) w = (none, w)
poll_udp_server L h (some (c ∷ cs)) w =
    let (output, w') = run_lua L h (take 511 (c ∷ cs)) w in
    (elim output [ [] ↦ none | x ∷ xs ↦ some (x ∷ xs) ], w')

-- The static `sockfd`, and the descriptors that have been closed.
pub record Socket : Type 0 where
  pub sockfd : Option ℕ
  pub closed : List ℕ

-- `open_udp_server`, with the answers of `socket` and `bind`; `false` is -1.
unfoldable pub open_udp_server : Option ℕ → Bool → Socket → Bool × Socket
open_udp_server none bound s = (false, record s { sockfd = none })
open_udp_server (some fd) bound s =
    if bound
    then (true, record s { sockfd = some fd })
    else (false, record { sockfd = none; closed = fd ∷ s.closed })

-- `close_udp_server`, without the end of the interpreter.
unfoldable pub close_udp_server : Socket → Socket
close_udp_server s = elim s.sockfd [
  | none ↦ s
  | some fd ↦ record { sockfd = none; closed = fd ∷ s.closed }
]
