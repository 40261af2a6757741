-- ===== src/Tests/Udp.antt =====
-- A command that is too long, a server that opens, and two rounds of the modulator.
use rds.Common.{◌≡◌, refl, [], ◌∷◌, true, false, none, some, replicate, length, ◌++◌}
use rds.Udp.{Handler, run_lua, poll_udp_server, open_udp_server, close_udp_server}
use rds.Ipc.{ipc_connect, ipc_close}
use rds.Searcher.{prefix, suffix, path_char, module_path}
use package.rds.Tests.Groups.{silent, worded}

-- It answers with the text that it is given.
abbrev echo : Handler silent
echo = record { data_handle = λ i. some tt; pcall_data = λ f text w. (some (some text), w) }

reply_is_cut : length (run_lua silent echo (replicate 300 0x41) (worded, tt)).0 ≡ 254
unfolding run_lua
reply_is_cut = refl

reply_is :
    poll_udp_server silent echo (some (0x41 ∷ 0x42 ∷ [])) (worded, tt)
    ≡ (some (0x41 ∷ 0x42 ∷ []), (worded, tt))
unfolding poll_udp_server
reply_is = refl

opened_and_closed :
    close_udp_server (open_udp_server (some 7) true (record { sockfd = none; closed = [] })).1
    ≡ record { sockfd = none; closed = 7 ∷ [] }
unfolding open_udp_server close_udp_server
opened_and_closed = refl

connected_and_closed :
    ipc_close (ipc_connect true true (record { connected = false; prev_output = [] })).1
    ≡ record { connected = false; prev_output = 0 ∷ 0 ∷ 0 ∷ 0 ∷ [] }
unfolding ipc_connect ipc_close
connected_and_closed = refl

-- "a.b" is /etc/rds95/a/b.lua
path_is : module_path (0x61 ∷ 0x2e ∷ 0x62 ∷ []) ≡ some (prefix ++ (0x61 ∷ 0x2f ∷ 0x62 ∷ suffix))
unfolding module_path path_char
path_is = refl
