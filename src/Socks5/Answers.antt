-- ===== src/Socks5/Answers.antt =====
-- What each answer of the automaton that writes or dials leaves of a pair.
use amgi_net_tools.Base.{
  ℕ, suc, ◌≤◌, ◌≡◌, Bool, true, false, Bytes, [], ◌∷◌, length, length-set, set, ok, >>=-eq-ok, inl,
  inr, arith,
}
use amgi_net_tools.Transport.Effects.{ServerWrote, ClientWrote, server_wrote, client_wrote}
use amgi_net_tools.Transport.ServerStream.{ServerStream}
use amgi_net_tools.Transport.ServerStream
use amgi_net_tools.Transport.ClientStream.{ClientStream}
use amgi_net_tools.Transport.ClientStream
use amgi_net_tools.Proxy.Store.{Pair}
use amgi_net_tools.Proxy.Events.{goes_on}
use amgi_net_tools.Socks5.Packet.{
  version, Inet, Address, is_socks5_auth_request, get_remote_address_info,
}
use amgi_net_tools.Socks5.Packet.Request.{IsRequest, is_valid_request_packet-Decides}
use amgi_net_tools.Socks5.State.{
  State, connection_request, connection_established, auth_mode, with_command,
}
use amgi_net_tools.Socks5.Automaton.{reply, on_hello, dial, finish, on_request, to_remote, to_local}

pub with_command-length :
    (code : ℕ) (response : Bytes) {r : Bytes}
    → with_command code response ≡ ok r
    → (length r ≡ length response) × (2 ≤ length response)
unfolding with_command
with_command-length code response h = ground (arith, length-set response 1 code)

-- The answer wrote to the server stream.
pub record Wrote (next : State) (p r : Pair State) : Type 0 where
  pub event : Bytes
  pub written : ServerWrote event p.server r.server
  pub client_kept : r.client ≡ p.client
  pub state_is : r.session.state ≡ next

-- What a dialled request leaves: the client stream resolves the host, and the request is kept.
pub record Dialled (buffer : Bytes) (p r : Pair State) : Type 0 where
  pub server_kept : r.server ≡ p.server
  pub resolves_more : r.client.resolves ≡ suc p.client.resolves
  pub connects_kept : r.client.connects ≡ p.client.connects
  pub reads_kept : r.client.reads ≡ p.client.reads
  pub writes_kept : r.client.writes ≡ p.client.writes
  pub buffer_kept : r.client.write_buffer ≡ p.client.write_buffer
  pub response_is : r.session.context.response ≡ buffer
  pub state_is : r.session.state ≡ connection_established

-- The bytes go to the client stream.
pub record Relayed (event : Bytes) (p r : Pair State) : Type 0 where
  pub written : ClientWrote event p.client r.client
  pub server_kept : r.server ≡ p.server
  pub state_is : r.session.state ≡ p.session.state

-- The bytes go to the server stream.
pub record RelayedIn (event : Bytes) (p r : Pair State) : Type 0 where
  pub written : ServerWrote event p.server r.server
  pub client_kept : r.client ≡ p.client
  pub state_is : r.session.state ≡ p.session.state

module _ (p : Pair State) {r : Pair State} where
  pub on_hello-Wrote :
      (buffer : Bytes) → on_hello buffer p ≡ ok (goes_on r) → Wrote connection_request p r
  unfolding on_hello
  on_hello-Wrote buffer h =
      let (error, checked, rest) = >>=-eq-ok (is_socks5_auth_request buffer) _ h in
      let answer : Bytes = version ∷ auth_mode error ∷ [] in
      let (s, wrote, last) = >>=-eq-ok (ServerStream.do_write answer p.server) _ rest in
      let w = server_wrote answer p.server wrote in
      record {
        event = answer;
        written = ground (arith, last, w);
        client_kept = ground (arith, last);
        state_is = ground (arith, last);
      }

  -- The reply is the stored response with its second byte set.
  pub reply-Wrote : (code : ℕ) (next : State) → reply code next p ≡ ok (goes_on r) → Wrote next p r
  unfolding reply
  reply-Wrote code next h =
      let (answer, set, rest) = >>=-eq-ok (with_command code p.session.context.response) _ h in
      let (s, wrote, last) = >>=-eq-ok (ServerStream.do_write answer p.server) _ rest in
      let w = server_wrote answer p.server wrote in
      record {
        event = answer;
        written = ground (arith, last, w);
        client_kept = ground (arith, last);
        state_is = ground (arith, last);
      }

  pub reply-response :
      (code : ℕ) (next : State)
      → reply code next p ≡ ok (goes_on r)
      → length r.session.context.response ≡ length p.session.context.response
  unfolding reply
  reply-response code next h =
      let (answer, set, rest) = >>=-eq-ok (with_command code p.session.context.response) _ h in
      let (s, wrote, last) = >>=-eq-ok (ServerStream.do_write answer p.server) _ rest in
      ground (arith, last, with_command-length code p.session.context.response set)

  dial-Dialled :
      (buffer : Bytes) (found : Bool) (address : Address)
      → dial buffer (found, address) p ≡ goes_on r
      → Dialled buffer p r
  unfolding dial ClientStream.do_start ClientStream.do_set_service ClientStream.do_set_host
  dial-Dialled buffer false address h = absurd (ground (arith, h))
  dial-Dialled buffer true address h = ground (arith, h)

  pub on_request-Dialled :
      (inet : Inet) (buffer : Bytes)
      → on_request inet buffer p ≡ ok (goes_on r)
      → Dialled buffer p r × IsRequest buffer
  unfolding on_request finish
  on_request-Dialled inet buffer h = elim (is_valid_request_packet-Decides buffer) [
    | inl (e, q) ↦
        let (address, found, last) =
          >>=-eq-ok (get_remote_address_info inet buffer _) _ (rw e at h) in
        (dial-Dialled buffer address.0 address.1 (ground (arith, last)), q)
    | inr (e, n) ↦ absurd (ground (arith, e, h))
  ]

  pub to_remote-Relayed :
      (buffer : Bytes) → to_remote buffer p ≡ ok (goes_on r) → Relayed buffer p r
  unfolding to_remote
  to_remote-Relayed buffer h =
      let (c, wrote, last) = >>=-eq-ok (ClientStream.do_write buffer p.client) _ h in
      let w = client_wrote buffer p.client wrote in
      record {
        written = ground (arith, last, w);
        server_kept = ground (arith, last);
        state_is = ground (arith, last);
      }

  pub to_local-RelayedIn :
      (buffer : Bytes) → to_local buffer p ≡ ok (goes_on r) → RelayedIn buffer p r
  unfolding to_local
  to_local-RelayedIn buffer h =
      let (s, wrote, last) = >>=-eq-ok (ServerStream.do_write buffer p.server) _ h in
      let w = server_wrote buffer p.server wrote in
      record {
        written = ground (arith, last, w);
        client_kept = ground (arith, last);
        state_is = ground (arith, last);
      }

  pub to_local-Wrote :
      (buffer : Bytes) → to_local buffer p ≡ ok (goes_on r) → Wrote p.session.state p r
  to_local-Wrote buffer h =
      let w = to_local-RelayedIn buffer h in
      record {
        event = buffer;
        written = w.written;
        client_kept = w.client_kept;
        state_is = w.state_is;
      }
