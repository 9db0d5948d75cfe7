-- ===== src/Proxy/StreamManager.antt =====
-- What the manager does to the streams of a session: http_stream_manager.cpp, and with the same text
-- socks5_stream_manager.cpp. The callbacks, which call the protocol's handlers, are in Http and Socks5.
use amgi_net_tools.Base.{ℕ, Bytes, ◌∷◌, [], ok}
use amgi_net_tools.Base.Table
use amgi_net_tools.Transport.ServerStream
use amgi_net_tools.Transport.ServerStream.{ServerStream}
use amgi_net_tools.Transport.ClientStream
use amgi_net_tools.Proxy.Store.{Session, Pair, M, ◌>>=◌, lift, assign, when_found}

module _ {S : Type 0} where
  -- `sessions_.erase(it)`: the streams of the pair stay with their handlers.
  unfoldable pub erase : ℕ → Pair S → M S (Unit {0})
  erase id p m = ok (
    tt,
    record m { sessions = Table.erase id m.sessions; retired = (p.server, p.client) ∷ m.retired },
  )

  unfoldable pub stop : ℕ → M S (Unit {0})
  unfolding erase
  stop id = when_found id λ p.
      erase id (record p {
        client = ClientStream.do_stop p.client;
        server = ServerStream.do_stop p.server;
      })

  -- The argument is the identifier of the stream.
  unfoldable pub on_close : ℕ → M S (Unit {0})
  unfolding stop
  on_close stream_id = stop stream_id

  unfoldable pub read_server : ℕ → M S (Unit {0})
  read_server id =
      when_found id λ p. assign id (record p { server = ServerStream.do_read p.server })

  unfoldable pub write_server : ℕ → Bytes → M S (Unit {0})
  write_server id buffer =
      when_found id λ p. do
        s ← lift (ServerStream.do_write buffer p.server)
        assign id (record p { server = s })

  unfoldable pub read_client : ℕ → M S (Unit {0})
  read_client id =
      when_found id λ p. assign id (record p { client = ClientStream.do_read p.client })

  unfoldable pub write_client : ℕ → Bytes → M S (Unit {0})
  write_client id buffer =
      when_found id λ p. do
        c ← lift (ClientStream.do_write buffer p.client)
        assign id (record p { client = c })

  unfoldable pub connect : ℕ → Bytes → Bytes → M S (Unit {0})
  connect id host service = when_found id λ p. assign id (record p {
    client =
        ClientStream.do_start
          (ClientStream.do_set_service service (ClientStream.do_set_host host p.client));
  })

  -- The session that a pair starts with, in the protocol's first state.
  unfoldable pub new_session : S → ℕ → Session S
  new_session initial id = record {
    context = record {
      id = id;
      response = [];
      host = [];
      service = [];
      transferred_bytes_to_remote = 0;
      transferred_bytes_to_local = 0;
    };
    state = initial;
  }

  unfoldable pub new_pair : S → ServerStream → Pair S
  unfolding new_session
  new_pair initial upstream = record {
    id = upstream.id;
    server = upstream;
    client = ClientStream.make upstream.id;
    session = new_session initial upstream.id;
  }

  unfoldable pub on_accept : S → ServerStream → M S (Unit {0})
  unfolding new_pair
  on_accept initial upstream m = ok (
    tt,
    record m {
      sessions =
          Table.insert upstream.id (new_pair initial (ServerStream.do_start upstream)) m.sessions;
    },
  )
