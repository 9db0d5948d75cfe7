-- ===== src/Http/Plain.antt =====
-- What happens to the bytes of a plain request, which is one of any method but `CONNECT`, and to its
-- response.
use amgi_net_tools.Base.{
  ◌≡◌, refl, Bytes, length, text_eq, false, some, none, ok, >>=-eq-ok, arith, ◌∙◌, ap,
}
use amgi_net_tools.Transport.Effects.{client_wrote}
use amgi_net_tools.Transport.ServerStream
use amgi_net_tools.Transport.ClientStream
use amgi_net_tools.Proxy.Store.{Pair}
use amgi_net_tools.Proxy.Events.{goes_on}
use amgi_net_tools.Proxy.Load.{Load, load}
use amgi_net_tools.Proxy.Network.{
  Completion, server_received, client_connected, client_sent, client_received, take_off, handle,
  Reaches, here, next,
}
use amgi_net_tools.Http.State.{
  State, k_http_done, wait_request, connection_established, ready_to_transfer_data,
  data_transfer_mode,
}
use amgi_net_tools.Http.Automaton.{finish, first_to_remote, to_remote, react}
use amgi_net_tools.Http.Discipline.{OneWay, IsTidy}

-- The first message is on its way to the remote host, or has arrived there.
abbrev pub PlainPhase : State → Load → Type 0
PlainPhase ready_to_transfer_data l =
    (l.server_reads ≡ 0) × (l.client_writes ≡ 1) × (l.client_reads ≡ 0) × (l.server_writes ≡ 0)
PlainPhase data_transfer_mode l = OneWay l
PlainPhase _ l = ⊥

-- The session runs a plain request: besides, no handshake, resolve or connect is under way.
pub record IsPlain (p : Pair State) : Type 0 where
  pub phase : PlainPhase p.session.state (load p)
  pub no_handshake : p.server.handshakes ≡ 0
  pub no_resolve : p.client.resolves ≡ 0
  pub no_connect : p.client.connects ≡ 0

module _ (p q : Pair State) {r : Pair State} where
  ready-IsPlain :
      (c : Completion)
      → p.session.state ≡ ready_to_transfer_data
      → IsPlain p
      → take_off c p ≡ some q
      → handle react c q ≡ ok (goes_on r)
      → IsPlain r × (r.session.context ≡ p.session.context)
  unfolding take_off handle react finish ServerStream.do_read
  ready-IsPlain client_sent s t taken h = ground arith
  ready-IsPlain _ s t taken h = ground arith

  transfer-IsPlain :
      (c : Completion)
      → p.session.state ≡ data_transfer_mode
      → IsPlain p
      → take_off c p ≡ some q
      → handle react c q ≡ ok (goes_on r)
      → IsPlain r
        × (r.session.context.transferred_bytes_to_local
            ≡ p.session.context.transferred_bytes_to_local)
  unfolding take_off handle react to_remote finish ServerStream.do_read
  transfer-IsPlain (server_received buffer) s t taken h =
      let answer : to_remote buffer q ≡ ok (goes_on r) = ground arith in
      let (c, wrote, last) = >>=-eq-ok (ClientStream.do_write buffer q.client) _ answer in
      ground (arith, last, client_wrote buffer q.client wrote)
  transfer-IsPlain _ s t taken h = ground arith

  step_in-IsPlain :
      (s : State) (c : Completion)
      → p.session.state ≡ s
      → IsPlain p
      → take_off c p ≡ some q
      → handle react c q ≡ ok (goes_on r)
      → IsPlain r
        × (r.session.context.transferred_bytes_to_local
            ≡ p.session.context.transferred_bytes_to_local)
  step_in-IsPlain ready_to_transfer_data c s t taken h =
      let (plain, same) = ready-IsPlain c s t taken h in
      (plain, ap (λ x. x.transferred_bytes_to_local) same)
  step_in-IsPlain data_transfer_mode c s t taken h = transfer-IsPlain c s t taken h
  step_in-IsPlain wait_request c s t taken h = absurd (ground (arith, t.phase))
  step_in-IsPlain connection_established c s t taken h = absurd (ground (arith, t.phase))

IsPlain-stays :
    {p r : Pair State}
    → IsPlain p
    → Reaches react p r
    → IsPlain r
      × (r.session.context.transferred_bytes_to_local
          ≡ p.session.context.transferred_bytes_to_local)
IsPlain-stays t here = (t, refl)
IsPlain-stays t (next {p} {q} c reached taken answered) =
    let (mid, same) = IsPlain-stays t reached in
    let (last, equal) = step_in-IsPlain p q p.session.state c refl mid taken answered in
    (last, equal ∙ same)

-- A plain session reads nothing from the remote side and writes nothing to the local side.
IsPlain-idle :
    (s : State) (p : Pair State)
    → p.session.state ≡ s
    → IsPlain p
    → (p.client.reads ≡ 0) × (length p.server.writes ≡ 0)
IsPlain-idle ready_to_transfer_data p s t = ground arith
IsPlain-idle _ p s t = ground arith

no_read :
    (p : Pair State) (buffer : Bytes)
    → p.client.reads ≡ 0
    → take_off (client_received buffer) p ≡ none
unfolding take_off
no_read p buffer h = ground arith

started-IsPlain :
    (p q : Pair State) {r : Pair State}
    → IsTidy p
    → p.session.state ≡ connection_established
    → text_eq p.session.context.response k_http_done ≡ false
    → take_off client_connected p ≡ some q
    → handle react client_connected q ≡ ok (goes_on r)
    → IsPlain r
unfolding take_off handle react first_to_remote
started-IsPlain p q {r} t s plain taken h =
    let answer : first_to_remote q ≡ ok (goes_on r) = ground arith in
    let (c, wrote, last) =
      >>=-eq-ok (ClientStream.do_write q.session.context.response q.client) _ answer in
    ground (arith, last, client_wrote q.session.context.response q.client wrote)

-- The defect: once the first message is on its way to the remote host, no order of events ever has a read of
-- the remote host under way. So no bytes of its response can arrive, nothing is ever written to the local side,
-- and no byte is counted as sent to it. The condition is that the session is in good order and connects with a
-- message other than the answer to `CONNECT`.
pub response_never_read :
    {p q r s : Pair State}
    → IsTidy p
    → p.session.state ≡ connection_established
    → text_eq p.session.context.response k_http_done ≡ false
    → take_off client_connected p ≡ some q
    → handle react client_connected q ≡ ok (goes_on r)
    → Reaches react r s
    → ((buffer : Bytes) → take_off (client_received buffer) s ≡ none)
      × (length s.server.writes ≡ 0)
      × (s.session.context.transferred_bytes_to_local
          ≡ r.session.context.transferred_bytes_to_local)
response_never_read {p} {q} {r} {s} t e plain taken answered reached =
    let (last, same) = IsPlain-stays (started-IsPlain p q t e plain taken answered) reached in
    let (idle, quiet) = IsPlain-idle s.session.state s refl last in
    (λ buffer. no_read s buffer idle, quiet, same)

-- The same defect in one step: when the first message of a plain request has been sent, two reads of the local
-- side are started at once, which share a buffer, and none of the remote side.
pub plain_reads_twice :
    {p q : Pair State}
    → IsPlain p
    → p.session.state ≡ ready_to_transfer_data
    → take_off client_sent p ≡ some q
    → (r : Pair State) × (handle react client_sent q ≡ ok (goes_on r))
      × (r.server.reads ≡ 2)
      × (r.client.reads ≡ 0)
unfolding take_off handle react ServerStream.do_read
plain_reads_twice {p} {q} t s taken =
    let r : Pair State = record q {
      server = ServerStream.do_read (ServerStream.do_read q.server);
      session = record { context = q.session.context; state = data_transfer_mode };
    } in
    (r, ground arith, ground arith, ground arith)
