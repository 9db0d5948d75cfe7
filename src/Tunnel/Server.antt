-- ===== src/Tunnel/Server.antt =====
-- amgi_tunnel/server.hpp, with the counter of session.hpp: the accept loop and the sessions that live. A session lives
-- while it is in the manager or an operation of it is under way.
use amgi_net_tools.Base.{
  ◌-◌, ℕ, ◌+◌, ◌%◌, ◌^◌, Bool, true, false, not, List, [], ◌∷◌, Option, some, none, length, ◌==◌,
  ◌&&◌, if◌then◌else◌,
}
use amgi_net_tools.Tunnel.Session
use amgi_net_tools.Tunnel.Session.{Session}
use amgi_net_tools.Tunnel.Events.{Event, take_off, handle, written, settle}
use amgi_net_tools.Tunnel.Manager.{join, leave, contains}

pub record Living : Type 0 where
  pub number : ℕ
  pub session : Session

pub record Server : Type 0 where
  pub waiting : ℕ  -- the session that waits for a connection
  pub members : List ℕ
  pub living : List Living  -- the sessions that were started and not yet destroyed
  pub scount : ℕ  -- a `size_t` of 64 bits
  pub is_running : Bool

abbrev pub incremented : ℕ → ℕ
incremented n = (n + 1) % 2 ^ 64

abbrev pub decremented : ℕ → ℕ
decremented n = (n + (2 ^ 64 - 1)) % 2 ^ 64

-- `start_accept` creates the next session.
unfoldable pub start_accept : Server → Server
start_accept s = record s { waiting = s.waiting + 1 }

unfoldable pub make : Server
unfolding start_accept
make =
    start_accept (record { waiting = 0; members = []; living = []; scount = 0; is_running = true })

-- The destructor of a session.
unfoldable pub destroyed : Server → Server
destroyed s = record s { scount = decremented s.scount }

-- `start` of the session that waited.
unfoldable pub started : Server → Server
started s = record s {
  members = join s.waiting s.members;
  living = record { number = s.waiting; session = Session.start Session.create } ∷ s.living;
  scount = incremented s.scount;
}

-- The completion handler of `async_accept`, with whether there was an error. After an error nothing points to the session.
unfoldable pub accept_done : Bool → Server → Server
unfolding started destroyed start_accept
accept_done false s = start_accept (started s)
accept_done true s = start_accept (destroyed s)

-- The signal handler.
unfoldable pub signalled : Server → Server
signalled s = record s { is_running = false }

unfoldable pub find : ℕ → List Living → Option Session
find i [] = none
find i (l ∷ ls) = let rest = find i ls in if i == l.number then some l.session else rest

unfoldable pub put : ℕ → Session → List Living → List Living
put i s [] = []
put i s (l ∷ ls) =
    let rest = put i s ls in if i == l.number then record l { session = s } ∷ ls else l ∷ rest

unfoldable pub remove : ℕ → List Living → List Living
remove i [] = []
remove i (l ∷ ls) = let rest = remove i ls in if i == l.number then ls else l ∷ rest

-- The number of operations under way.
unfoldable pub under_way : Session → ℕ
under_way s =
    s.resolves
    + s.connects
    + s.handshakes
    + s.local_reads
    + s.remote_reads
    + length s.remote_writes
    + length s.local_writes
    + s.closings

-- When a completion handler returns, its pointer to the session goes.
unfoldable pub release : ℕ → Session → Server → Server
unfolding destroyed under_way contains
release i s server =
    if not (contains i server.members) && (under_way s == 0)
    then destroyed (record server { living = remove i server.living })
    else server

-- The completion handler of a session with its result.
unfoldable pub answer : ℕ → Session × Bool → Server → Server
unfolding settle leave release
answer i (s, leaves) server =
    let after : Session = settle (s, leaves) in
    release i after (record server {
      members = if leaves then leave i server.members else server.members;
      living = put i after server.living;
    })

-- An event of a session, `none` where it cannot be.
unfoldable pub deliver : ℕ → Event → Server → Option Server
unfolding take_off handle written answer find
deliver i e server = elim (find i server.living) [
  | none ↦ none
  | some s ↦ elim (take_off e s) [
    | none ↦ none
    | some t ↦ some (answer i (handle e (written e s) t) server)
  ]
]
