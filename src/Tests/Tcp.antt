-- ===== src/Tests/Tcp.antt =====
-- A server with one client that is lost.
use rds.Common.{ℕ, ◌≡◌, ◌+◌, ◌==◌, if◌then◌else◌, refl, [], ◌∷◌, true, none, some}
use rds.Tcp.{Net, Opening, Answer, sent, failed, init_tcp_server, accept_tcp_clients}
use rds.Tcp.{send_to_tcp_clients, close_tcp_server, is_tcp_server_running}
use rds.Tcp.Laws.{Reached, opened, accepted, served, IsBalanced, Reached-IsBalanced, held, count}
use rds.Tcp.Laws.{close_tcp_server-closes_all}

abbrev fresh : Net
fresh = record {
  server = record { server_socket = none; port = 0; clients = []; running = true };
  closed = [];
}

abbrev good : Opening
good = record { socket = some 3; options_set = true; bound = true; listens = true }

abbrev listening : Net
listening = (init_tcp_server good 5000 fresh).1

-- Two clients connect; the first is lost.
abbrev both : Net
both = accept_tcp_clients (some 5) (accept_tcp_clients (some 4) listening)

abbrev answers : ℕ → Answer
answers i = if i == 0 then failed else sent

abbrev one_lost : Net
one_lost = (send_to_tcp_clients answers both).1

one_lost_is : (send_to_tcp_clients answers both).0 ≡ 5 ∷ []
unfolding init_tcp_server accept_tcp_clients send_to_tcp_clients
one_lost_is = refl

still_running : is_tcp_server_running one_lost ≡ true
unfolding init_tcp_server accept_tcp_clients send_to_tcp_clients is_tcp_server_running
still_running = refl

one_lost-Reached : Reached one_lost (5 ∷ 4 ∷ [])
unfolding init_tcp_server accept_tcp_clients
one_lost-Reached = served both (5 ∷ 4 ∷ []) answers (
    accepted (accept_tcp_clients (some 4) listening) (4 ∷ []) (some 5)
      (accepted listening [] (some 4) (opened good 5000 fresh refl refl)))

Reached-IsBalanced_example : IsBalanced one_lost (5 ∷ 4 ∷ [])
Reached-IsBalanced_example = Reached-IsBalanced one_lost (5 ∷ 4 ∷ []) one_lost-Reached

close_tcp_server-closes_all_example :
    (held (close_tcp_server one_lost).server.clients ≡ [])
    × ((x : ℕ)
        → count x (close_tcp_server one_lost).closed ≡ count x (3 ∷ []) + count x (5 ∷ 4 ∷ []))
unfolding init_tcp_server accept_tcp_clients send_to_tcp_clients
close_tcp_server-closes_all_example =
    close_tcp_server-closes_all one_lost (5 ∷ 4 ∷ []) one_lost-Reached refl
