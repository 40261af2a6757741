-- ===== src/Tcp.antt =====
-- src/tcp_server.c: the table of clients. What the calls of the socket library answer is given to the
-- operations; the descriptors that they close, and what they send, are recorded. The lock around the
-- table and the messages are not modelled.
pub mod Laws
use rds.Common.{ℕ, zero, suc, ◌+◌, List, [], ◌∷◌, ◌++◌, Bool, true, false, not, Option, none, some}
use rds.Common.{if◌then◌else◌, set, replicate}

-- TCPClient, without the address, which is only stored; `none` is the descriptor -1.
pub record TcpClient : Type 0 where
  pub socket : Option ℕ
  pub active : Bool

-- TCPServer
pub record TcpServer : Type 0 where
  pub server_socket : Option ℕ
  pub port : ℕ
  pub clients : List TcpClient
  pub running : Bool

-- The server with the descriptors that have been closed, the last one first.
pub record Net : Type 0 where
  pub server : TcpServer
  pub closed : List ℕ

abbrev pub max_tcp_clients : ℕ
max_tcp_clients = 10

-- A slot that nobody uses.
abbrev pub gone : TcpClient
gone = record { socket = none; active = false }

-- What `socket`, `setsockopt`, `bind` and `listen` answer.
pub record Opening : Type 0 where
  pub socket : Option ℕ
  pub options_set : Bool
  pub bound : Bool
  pub listens : Bool

-- `init_tcp_server`; the result is 0 or -1, here `true` or `false`.
unfoldable pub init_tcp_server : Opening → ℕ → Net → Bool × Net
init_tcp_server o port net = elim o.socket [
  | none ↦ (false, record net { server = record net.server { server_socket = none } })
  | some fd ↦
      let opened = record net.server { server_socket = some fd } in
      if not o.options_set
      then (false, record { server = opened; closed = fd ∷ net.closed })
      else if not o.bound
      then (false, record { server = opened; closed = fd ∷ net.closed })
      else if not o.listens
      then (false, record { server = opened; closed = fd ∷ net.closed })
      else (
        true,
        record net {
          server = record opened {
            port = port;
            running = true;
            clients = replicate max_tcp_clients gone;
          };
        },
      )
]

-- The first slot that is not active, counted from `i`.
unfoldable pub free_slot : List TcpClient → ℕ → Option ℕ
free_slot [] i = none
free_slot (c ∷ cs) i = if c.active then free_slot cs (i + 1) else some i

-- `accept_tcp_clients`, with the answer of `accept`.
unfoldable pub accept_tcp_clients : Option ℕ → Net → Net
unfolding free_slot
accept_tcp_clients answer net =
    let clients = net.server.clients in
    if not net.server.running then net else elim answer [
      | none ↦ net
      | some fd ↦ elim (free_slot clients 0) [
        | none ↦ record net { closed = fd ∷ net.closed }
        | some slot ↦ record net {
          server = record net.server {
            clients = set clients slot (record { socket = some fd; active = true });
          };
        }
      ]
    ]

-- What `send` answers: it has sent something, it would block, or it has failed otherwise.
pub data Answer : Type 0 where
  sent would_block failed : Answer

-- One round of the loop of `send_to_tcp_clients`: the slot, and the descriptors that are closed and
-- sent to. A descriptor of -1 fails.
unfoldable pub send_client : Answer → TcpClient → TcpClient × List ℕ × List ℕ
send_client answer c = if not c.active then (c, [], []) else elim c.socket [
  | none ↦ (gone, [], [])
  | some fd ↦ elim answer [
    | sent ↦ (c, [], fd ∷ [])
    | would_block ↦ (c, [], [])
    | failed ↦ (gone, fd ∷ [], [])
  ]
]

-- `answers` has the answer for each slot.
unfoldable pub send_clients : (ℕ → Answer) → ℕ → List TcpClient → List TcpClient × List ℕ × List ℕ
unfolding send_client
send_clients answers i [] = ([], [], [])
send_clients answers i (c ∷ cs) =
    let (c', closed, to) = send_client (answers i) c in
    let (cs', more, others) = send_clients answers (i + 1) cs in
    (c' ∷ cs', more ++ closed, to ++ others)

-- `send_to_tcp_clients`: the descriptors that the data are sent to, in order.
unfoldable pub send_to_tcp_clients : (ℕ → Answer) → Net → List ℕ × Net
unfolding send_clients
send_to_tcp_clients answers net =
    let (clients, closed, to) = send_clients answers 0 net.server.clients in
    if not net.server.running then ([], net) else (
      to,
      record { server = record net.server { clients = clients }; closed = closed ++ net.closed },
    )

unfoldable pub is_tcp_server_running : Net → Bool
is_tcp_server_running net = net.server.running

-- One round of the loop of `close_tcp_server`.
unfoldable pub close_client : TcpClient → TcpClient × List ℕ
close_client c =
    if not c.active
    then (c, [])
    else elim c.socket [ none ↦ (gone, []) | some fd ↦ (gone, fd ∷ []) ]

unfoldable pub close_clients : List TcpClient → List TcpClient × List ℕ
unfolding close_client
close_clients [] = ([], [])
close_clients (c ∷ cs) =
    let (c', closed) = close_client c in
    let (cs', more) = close_clients cs in (c' ∷ cs', more ++ closed)

-- The descriptor of the server itself, which is closed last.
abbrev pub listener : Option ℕ → List ℕ
listener none = []
listener (some fd) = fd ∷ []

unfoldable pub close_tcp_server : Net → Net
unfolding close_clients
close_tcp_server net =
    let server = net.server in
    let (clients, closed) = close_clients server.clients in
    if not server.running then net else record {
      server = record server { running = false; clients = clients; server_socket = none };
      closed = listener server.server_socket ++ (closed ++ net.closed);
    }
