-- ===== src/Tcp/Laws.antt =====
-- What becomes of the descriptors of the clients.
use rds.Common.{none-some}
use rds.Common.{ℕ, suc, ◌+◌, ◌≡◌, ◌≤◌, ◌-◌, refl, ap, ap₂, ◌∙◌, arith, List, [], ◌∷◌, ◌++◌}
use rds.Common.{Bool, true, false, Option, none, some, ◌==◌, if◌then◌else◌, set, length}
use rds.Common.{Bool-cases, Option-cases, inl, inr, length-set}
use mathlib.Core.Path.{subst}
use mathlib.Core.Option.{some-injective}
use package.rds.Tcp.{TcpClient, Net, Opening, Answer, sent, would_block, failed}
use package.rds.Tcp.{init_tcp_server, free_slot, accept_tcp_clients, send_client, send_clients}
use package.rds.Tcp.{send_to_tcp_clients, close_client, close_clients, close_tcp_server, listener}

-- How often a descriptor stands in a list.
abbrev pub count : ℕ → List ℕ → ℕ
count x [] = 0
count x (y ∷ ys) = (if x == y then 1 else 0) + count x ys

count-append : (x : ℕ) (ys zs : List ℕ) → count x (ys ++ zs) ≡ count x ys + count x zs
count-append x [] zs = omega arith
count-append x (y ∷ ys) zs = omega (arith, count-append x ys zs)

-- The descriptor that a slot holds.
abbrev pub held_by : TcpClient → List ℕ
held_by c = if c.active then listener c.socket else []

abbrev pub held : List TcpClient → List ℕ
held [] = []
held (c ∷ cs) = held_by c ++ held cs

-- A free slot holds nothing, so the new client is the only change.
free_slot-count :
    (x fd : ℕ) (cs : List TcpClient) (i slot : ℕ)
    → free_slot cs i ≡ some slot
    → (i ≤ slot)
      × (count x (held (set cs (slot - i) (record { socket = some fd; active = true })))
          ≡ (if x == fd then 1 else 0) + count x (held cs))
unfolding free_slot
free_slot-count x fd [] i slot e = absurd (none-some e)
free_slot-count x fd (c ∷ cs) i slot e = elim (Bool-cases c.active) [
  | inl busy ↦
      let later : free_slot cs (i + 1) ≡ some slot = simp busy at e in
      let (past, rest) = free_slot-count x fd cs (i + 1) slot later in
      let at : slot - i ≡ suc (slot - (i + 1)) = omega arith in
      let put = set cs (slot - (i + 1)) (record { socket = some fd; active = true }) in
      (
        omega arith,
        rw at (
            omega (
              arith,
              rest,
              count-append x (held_by c) (held put),
              count-append x (held_by c) (held cs),
            )),
      )
  | inr free ↦
      let here : some i ≡ some slot = simp free at e in
      let same : i ≡ slot = some-injective i slot here in
      let at : slot - i ≡ 0 = omega (arith, same) in
      let nothing : held_by c ≡ [] = ap (λ b. if b then listener c.socket else []) free in
      (omega (arith, same), rw (at, nothing) refl)
]

first_slot-count :
    (x fd : ℕ) (cs : List TcpClient) (slot : ℕ)
    → free_slot cs 0 ≡ some slot
    → count x (held (set cs slot (record { socket = some fd; active = true })))
      ≡ (if x == fd then 1 else 0) + count x (held cs)
first_slot-count x fd cs slot found =
    let from_start : slot - 0 ≡ slot = omega arith in
    subst
      (λ k.
        count x (held (set cs k (record { socket = some fd; active = true })))
        ≡ (if x == fd then 1 else 0) + count x (held cs))
      from_start (free_slot-count x fd cs 0 slot found).1

-- Sending gives up a descriptor only by closing it.
send_fields-count :
    (x : ℕ) (a : Answer) (socket : Option ℕ) (active : Bool)
    → let c : TcpClient = record { socket = socket; active = active } in
      let (c', closed, to) = send_client a c in
      count x (held_by c) ≡ count x (held_by c') + count x closed
unfolding send_client
send_fields-count x a s false = omega arith
send_fields-count x a none true = omega arith
send_fields-count x sent (some fd) true = omega arith
send_fields-count x would_block (some fd) true = omega arith
send_fields-count x failed (some fd) true = omega arith

send_client-count :
    (x : ℕ) (a : Answer) (c : TcpClient)
    → let (c', closed, to) = send_client a c in
      count x (held_by c) ≡ count x (held_by c') + count x closed
send_client-count x a c = send_fields-count x a c.socket c.active

send_clients-count :
    (x : ℕ) (answers : ℕ → Answer) (i : ℕ) (cs : List TcpClient)
    → let (cs', closed, to) = send_clients answers i cs in
      (length cs' ≡ length cs) × (count x (held cs) ≡ count x (held cs') + count x closed)
unfolding send_clients
send_clients-count x answers i [] = (refl, refl)
send_clients-count x answers i (c ∷ cs) =
    let (size, rest) = send_clients-count x answers (i + 1) cs in
    let (c', closed, to) = send_client (answers i) c in
    let (cs', more, others) = send_clients answers (i + 1) cs in
    (
      ap suc size,
      omega (
        arith,
        rest,
        send_client-count x (answers i) c,
        count-append x (held_by c) (held cs),
        count-append x (held_by c') (held cs'),
        count-append x more closed,
      ),
    )

close_fields :
    (x : ℕ) (socket : Option ℕ) (active : Bool)
    → let c : TcpClient = record { socket = socket; active = active } in
      let (c', closed) = close_client c in
      (held_by c' ≡ []) × (count x closed ≡ count x (held_by c))
unfolding close_client
close_fields x s false = (refl, refl)
close_fields x none true = (refl, refl)
close_fields x (some fd) true = (refl, refl)

close_clients-count :
    (x : ℕ) (cs : List TcpClient)
    → let (cs', closed) = close_clients cs in (held cs' ≡ []) × (count x closed ≡ count x (held cs))
unfolding close_clients
close_clients-count x [] = (refl, refl)
close_clients-count x (c ∷ cs) =
    let (empty, rest) = close_clients-count x cs in
    let (none_left, one) = close_fields x c.socket c.active in
    let (c', closed) = close_client c in
    let (cs', more) = close_clients cs in
    (
      ap₂ (◌++◌ {A = ℕ}) none_left empty,
      omega (arith, rest, one, count-append x more closed, count-append x (held_by c) (held cs)),
    )

-- The descriptors that a call of `accept_tcp_clients` takes from `accept`.
abbrev pub taken : Option ℕ → Net → List ℕ
taken answer net = if net.server.running then listener answer else []

-- The states of the server with the descriptors that `accept` has given to it: it is opened, then
-- clients are accepted and data sent, in any order.
pub data Reached : Net → List ℕ → Type 0 where
  opened :
      (o : Opening) (port : ℕ) (net : Net)
      → net.closed ≡ []
      → (init_tcp_server o port net).0 ≡ true
      → Reached (init_tcp_server o port net).1 []
  accepted :
      (net : Net) (fds : List ℕ) (answer : Option ℕ)
      → Reached net fds
      → Reached (accept_tcp_clients answer net) (taken answer net ++ fds)
  served :
      (net : Net) (fds : List ℕ) (answers : ℕ → Answer)
      → Reached net fds
      → Reached (send_to_tcp_clients answers net).1 fds

-- No descriptor is lost, or closed twice.
pub record IsBalanced (net : Net) (fds : List ℕ) : Type 0 where
  pub slots : length net.server.clients ≡ 10
  pub balance : (x : ℕ) → count x fds ≡ count x (held net.server.clients) + count x net.closed

init_fields-IsBalanced :
    (socket : Option ℕ) (options_set bound listens : Bool) (port : ℕ) (net : Net)
    → let o : Opening = record {
      socket = socket;
      options_set = options_set;
      bound = bound;
      listens = listens;
    } in
      net.closed ≡ []
      → (init_tcp_server o port net).0 ≡ true
      → IsBalanced (init_tcp_server o port net).1 []
unfolding init_tcp_server
init_fields-IsBalanced none b c d port net e good = cc
init_fields-IsBalanced (some fd) false c d port net e good = cc
init_fields-IsBalanced (some fd) true false d port net e good = cc
init_fields-IsBalanced (some fd) true true false port net e good = cc
init_fields-IsBalanced (some fd) true true true port net e good = record {
  slots = refl;
  balance = λ x. rw e refl;
}

accept_tcp_clients-IsBalanced :
    (net : Net) (fds : List ℕ) (answer : Option ℕ)
    → IsBalanced net fds
    → IsBalanced (accept_tcp_clients answer net) (taken answer net ++ fds)
unfolding accept_tcp_clients
accept_tcp_clients-IsBalanced net fds none v = elim (Bool-cases net.server.running) [
  | inl on ↦ simp on v
  | inr off ↦ simp off v
]
accept_tcp_clients-IsBalanced net fds (some fd) v = elim (Bool-cases net.server.running) [
  | inl on ↦ simp on (elim (Option-cases (free_slot net.server.clients 0)) [
    | inl full ↦ simp full (record { slots = v.slots; balance = λ x. omega (arith, v.balance x) })
    | inr (slot, found) ↦ simp found (record {
      slots = length-set net.server.clients slot _ ∙ v.slots;
      balance =
          λ x. omega (arith, v.balance x, first_slot-count x fd net.server.clients slot found);
    })
  ])
  | inr off ↦ simp off v
]

send_to_tcp_clients-IsBalanced :
    (net : Net) (fds : List ℕ) (answers : ℕ → Answer)
    → IsBalanced net fds
    → IsBalanced (send_to_tcp_clients answers net).1 fds
unfolding send_to_tcp_clients
send_to_tcp_clients-IsBalanced net fds answers v = elim (Bool-cases net.server.running) [
  | inl on ↦
      let (cs', closed, to) = send_clients answers 0 net.server.clients in
      simp on (record {
        slots = (send_clients-count 0 answers 0 net.server.clients).0 ∙ v.slots;
        balance = λ x. omega (
          arith,
          v.balance x,
          (send_clients-count x answers 0 net.server.clients).1,
          count-append x closed net.closed,
        );
      })
  | inr off ↦ simp off v
]

-- However the calls of the socket library answer, and in whatever order clients connect and data are
-- sent: there are ten slots, and each descriptor that `accept` has given is either held by an active
-- slot or has been closed, once for each time it was given.
pub Reached-IsBalanced : (net : Net) (fds : List ℕ) → Reached net fds → IsBalanced net fds
Reached-IsBalanced _ _ (opened o port net e good) =
    init_fields-IsBalanced o.socket o.options_set o.bound o.listens port net e good
Reached-IsBalanced _ _ (accepted net fds answer r) =
    accept_tcp_clients-IsBalanced net fds answer (Reached-IsBalanced net fds r)
Reached-IsBalanced _ _ (served net fds answers r) =
    send_to_tcp_clients-IsBalanced net fds answers (Reached-IsBalanced net fds r)

-- When a running server is closed, every descriptor that `accept` has given has been closed as often as
-- it was given, and that of the server once more; no slot holds one.
pub close_tcp_server-closes_all :
    (net : Net) (fds : List ℕ)
    → Reached net fds
    → net.server.running ≡ true
    → let net' = close_tcp_server net in
      (held net'.server.clients ≡ [])
      × ((x : ℕ) → count x net'.closed ≡ count x (listener net.server.server_socket) + count x fds)
unfolding close_tcp_server
close_tcp_server-closes_all net fds r on =
    let v = Reached-IsBalanced net fds r in
    let cs = net.server.clients in
    let closed = (close_clients cs).1 in
    rw on (
      (close_clients-count 0 cs).0,
      λ x. omega (
        arith,
        v.balance x,
        (close_clients-count x cs).1,
        count-append x (listener net.server.server_socket) (closed ++ net.closed),
        count-append x closed net.closed,
      ),
    )
