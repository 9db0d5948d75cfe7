-- ===== src/Tests/Tunnels.antt =====
-- The tunnel at concrete inputs.
use amgi_net_tools.Base.{◌+◌, ◌%◌, ◌^◌, ◌≡◌, refl, true, [], ◌∷◌, some}
use amgi_net_tools.Tunnel.Session.{
  Session, start, create, do_resolve, do_connect, handshake, do_read_from_local,
  do_read_from_remote, do_write_to_remote,
}
use amgi_net_tools.Tunnel.Events.{
  resolved, connected, handshaken, local_received, remote_sent, take_off, done, handle, written,
  settle,
}
use amgi_net_tools.Base.Pipe.{first_or}
use amgi_net_tools.Tunnel.Relay.{accepted, completed}
use amgi_net_tools.Tunnel.Lossless.{Relays-Passes}
use amgi_net_tools.Base.Pipe.{Passes}
use amgi_net_tools.Tunnel.Server.{
  Server, make, accept_done, started, destroyed, start_accept, deliver, find, put, answer, release,
  under_way,
}
use amgi_net_tools.Tunnel.Manager.{contains, join, leave}
use amgi_net_tools.Tunnel.Busy.{Busy}
use amgi_net_tools.Tunnel.Histories.{made, accepts, refuses, happens, Runs-scount, Runs-Busy}

Relays-Passes_example : Passes 0x4000 (7 ∷ 8 ∷ 9 ∷ []) (7 ∷ 8 ∷ []) × Passes 0x4000 [] []
unfolding take_off done handle written settle first_or start create do_resolve do_connect handshake
    do_read_from_local do_read_from_remote do_write_to_remote
Relays-Passes_example = Relays-Passes _ _ (
    completed (local_received (9 ∷ []))
      (completed remote_sent
        (completed (local_received (7 ∷ 8 ∷ []))
          (completed handshaken (completed connected (completed resolved accepted refl) refl) refl)
          refl)
        refl)
      refl)

-- One accept that fails and two that do not.
Runs-scount_example : (1 + 1) % 2 ^ 64 ≡ 2 % 2 ^ 64
unfolding accept_done make start_accept started destroyed
Runs-scount_example = Runs-scount 1 _ (accepts (accepts (refuses made refl) refl) refl)

abbrev resolved_session : Session
unfolding do_connect create
resolved_session = record (do_connect create) { local_is_open = true }

abbrev happened : Server
unfolding make
happened = record make {
  waiting = 2;
  members = 1 ∷ [];
  living = record { number = 1; session = resolved_session } ∷ [];
  scount = 1;
}

Runs-Busy_example : (t : Session) × (find 1 happened.living ≡ some t) × Busy t
unfolding accept_done make start_accept started deliver find put answer release under_way contains
    join leave take_off done handle written settle start create do_resolve do_connect
Runs-Busy_example = Runs-Busy 0 happened 1 (happens 1 resolved (accepts made refl) refl refl) refl
