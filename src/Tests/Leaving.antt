-- ===== src/Tests/Leaving.antt =====
-- A session of the tunnel whose client closes its connection.
use amgi_net_tools.Base.{ℕ, ◌≤◌, ◌⊎◌, ◌≡◌, refl, true, false, [], ◌∷◌, some, none}
use amgi_net_tools.Tunnel.Session.{
  Session, start, create, do_resolve, do_connect, handshake, do_read_from_local,
  do_read_from_remote, close,
}
use amgi_net_tools.Tunnel.Events.{
  Event, read_remote, resolved, connected, handshaken, local_received, failed, take_off, done,
  handle, written, settle,
}
use amgi_net_tools.Tunnel.Server.{
  Server, make, accept_done, started, start_accept, deliver, find, put, answer, release, under_way,
}
use amgi_net_tools.Tunnel.Manager.{contains, join, leave}
use amgi_net_tools.Tunnel.Histories.{Runs, made, accepts, happens}
use amgi_net_tools.Tunnel.Ending.{is_ending, weight}
use amgi_net_tools.Tunnel.Leaving.{unchanged, ended, accepting, Ends-weight}

-- With numbers of reads of the remote side and of operations of the shutdown under way.
abbrev closed_session : ℕ → ℕ → Session
unfolding create
closed_session reads closings = record create {
  remote_is_open = true;
  remote_reads = reads;
  closings = closings;
}

abbrev left : ℕ → ℕ → Server
unfolding make
left reads closings = record make {
  waiting = 2;
  living = record { number = 1; session = closed_session reads closings } ∷ [];
  scount = 1;
}

left-Runs : Runs 0 (left 1 2)
unfolding accept_done make start_accept started deliver find put answer release under_way contains
    join leave take_off done handle written settle start create do_resolve do_connect handshake
    do_read_from_local do_read_from_remote close
left-Runs =
    happens 1 (local_received [])
      (happens 1 handshaken
        (happens 1 connected (happens 1 resolved (accepts made refl) refl refl) refl refl) refl
        refl)
      refl refl

-- Its read fails, and then a connection is accepted.
Ends-weight_example :
    ((closed_session 1 2).local_is_open ≡ false)
    × (1 ≤ weight (closed_session 1 2))
    × ((find 1 (accept_done false (left 0 4)).living ≡ none)
        ⊎ (e : Event) × (t : Server) × (is_ending e ≡ true)
          × (deliver 1 e (accept_done false (left 0 4)) ≡ some t))
unfolding make deliver find put answer release under_way contains leave take_off done handle written
    settle create close
Ends-weight_example =
    Ends-weight 0 1 1 (left 1 2) (accept_done false (left 0 4)) (closed_session 1 2) left-Runs refl
      refl (accepting false (ended (failed read_remote) unchanged refl refl))
