-- ===== src/Tunnel/Text.antt =====
-- amgi_tunnel/session.hpp: what is printed of a session when it starts and when it is destroyed.
use amgi_net_tools.Base.{◌^◌, ◌<◌, ◌≡◌, ap, true, false, Bytes, ◌++◌, codes, length, arith}
use amgi_net_tools.Decimal.{decimal}
use amgi_net_tools.Transport.Endpoint.{Socket, Direction, remote_end}
use amgi_net_tools.Transport.Endpoint
use amgi_net_tools.Tunnel.Manager.{ses_count}
use amgi_net_tools.Tunnel.Server.{Server, started, destroyed, accept_done, start_accept}
use amgi_net_tools.Tunnel.Histories.{Runs, accepts, Runs-scount}

-- The two overloads: of a socket, and of the lowest layer of a TLS stream.
abbrev pub ep_to_str : Socket → Direction → Bytes
ep_to_str sock dir = Endpoint.ep_to_str sock dir

abbrev pub tls_ep_to_str : Socket → Direction → Bytes
tls_ep_to_str lowest_layer dir = Endpoint.ep_to_str lowest_layer dir

-- The line of a session that starts, with the two counters as they are then.
unfoldable pub start_line : Socket → Server → Bytes
start_line local_sock s =
    (codes "accepted connection from " ++ ep_to_str local_sock remote_end)
    ++ (codes " , sescnt: " ++ decimal (ses_count (started s).members))
    ++ codes ", scnt: "
    ++ decimal (started s).scount
    ++ codes "\n"

-- The line of a session that is destroyed, with the ends as it has kept them.
unfoldable pub close_line : Bytes → Bytes → Bytes → Server → Bytes
close_line client_ep remote_ep remote_resolved_ep s =
    (codes "connection from " ++ client_ep ++ codes " to " ++ remote_ep ++ remote_resolved_ep)
    ++ (codes " closed, sescnt: " ++ decimal (ses_count s.members))
    ++ codes ", scnt: "
    ++ decimal (destroyed s).scount
    ++ codes "\n"

started-scount :
    (s : Server)
    → Runs 0 s
    → s.is_running ≡ true
    → length (started s).living < 2 ^ 64
    → (started s).scount ≡ length (started s).living
unfolding accept_done started start_accept
started-scount s history running few =
    let counted = Runs-scount 0 (accept_done false s) (accepts history running) in
    omega (arith, counted, few)

-- In a history of the server without a failed accept, and with less than 2 ^ 64 sessions, the number behind "scnt" in the line of
-- a session that starts is that of the sessions that live, itself included.
pub start_line-counts :
    (local_sock : Socket) (s : Server)
    → Runs 0 s
    → s.is_running ≡ true
    → length (started s).living < 2 ^ 64
    → start_line local_sock s
      ≡ (codes "accepted connection from " ++ ep_to_str local_sock remote_end)
        ++ (codes " , sescnt: " ++ decimal (ses_count (started s).members))
        ++ codes ", scnt: "
        ++ decimal (length (started s).living)
        ++ codes "\n"
unfolding start_line
start_line-counts local_sock s history running few =
    ap
      (λ n.
        (codes "accepted connection from " ++ ep_to_str local_sock remote_end)
        ++ (codes " , sescnt: " ++ decimal (ses_count (started s).members))
        ++ codes ", scnt: "
        ++ decimal n
        ++ codes "\n")
      (started-scount s history running few)
