-- ===== src/Transport/Effects.antt =====
-- What a write leaves of a stream.
use amgi_net_tools.Base.{
  suc, ◌≤◌, ◌≡◌, Bytes, [], ◌∷◌, ◌++◌, length, length-append, take, ok, fault, Fault, ◌≢◌,
  >>=-eq-ok, Result-cases, inl, inr, arith,
}
use amgi_net_tools.Transport.Buffer.{copy_into, copy_into-fits, copy_into-length, copy_into-take}
use amgi_net_tools.Transport.ServerStream.{ServerStream}
use amgi_net_tools.Transport.ServerStream
use amgi_net_tools.Transport.ClientStream.{ClientStream}
use amgi_net_tools.Transport.ClientStream

-- A write adds one operation, and its bytes are the first of the write buffer.
pub record ServerWrote (event : Bytes) (s t : ServerStream) : Type 0 where
  pub handshakes_kept : t.handshakes ≡ s.handshakes
  pub reads_kept : t.reads ≡ s.reads
  pub queued : t.writes ≡ s.writes ++ length event ∷ []
  pub one_more : length t.writes ≡ suc (length s.writes)
  pub buffer_kept : length t.write_buffer ≡ length s.write_buffer
  pub filled : take (length event) t.write_buffer ≡ event

pub record ClientWrote (event : Bytes) (s t : ClientStream) : Type 0 where
  pub resolves_kept : t.resolves ≡ s.resolves
  pub connects_kept : t.connects ≡ s.connects
  pub reads_kept : t.reads ≡ s.reads
  pub queued : t.writes ≡ s.writes ++ length event ∷ []
  pub one_more : length t.writes ≡ suc (length s.writes)
  pub buffer_kept : length t.write_buffer ≡ length s.write_buffer
  pub filled : take (length event) t.write_buffer ≡ event

pub server_wrote :
    (event : Bytes) (s : ServerStream) {t : ServerStream}
    → ServerStream.do_write event s ≡ ok t
    → ServerWrote event s t
unfolding ServerStream.do_write
server_wrote event s {t} h =
    let (b, copied, rest) = >>=-eq-ok (copy_into event s.write_buffer) _ h in
    ground (
      arith,
      length-append s.writes (length event ∷ []),
      copy_into-length event s.write_buffer copied,
      copy_into-take event s.write_buffer copied,
      rest,
    )

pub client_wrote :
    (event : Bytes) (s : ClientStream) {t : ClientStream}
    → ClientStream.do_write event s ≡ ok t
    → ClientWrote event s t
unfolding ClientStream.do_write
client_wrote event s {t} h =
    let (b, copied, rest) = >>=-eq-ok (copy_into event s.write_buffer) _ h in
    ground (
      arith,
      length-append s.writes (length event ∷ []),
      copy_into-length event s.write_buffer copied,
      copy_into-take event s.write_buffer copied,
      rest,
    )

-- An event no longer than the write buffer is written.
pub server_write-ne-fault :
    (event : Bytes) (s : ServerStream) {x : Fault}
    → length event ≤ length s.write_buffer
    → ServerStream.do_write event s ≢ fault x
unfolding ServerStream.do_write
server_write-ne-fault event s h e = ground (arith, copy_into-fits event s.write_buffer h)

pub client_write-ne-fault :
    (event : Bytes) (s : ClientStream) {x : Fault}
    → length event ≤ length s.write_buffer
    → ClientStream.do_write event s ≢ fault x
unfolding ClientStream.do_write
client_write-ne-fault event s h e = ground (arith, copy_into-fits event s.write_buffer h)

pub server_takes :
    (event : Bytes) (s : ServerStream)
    → length event ≤ length s.write_buffer
    → (t : ServerStream) × (ServerStream.do_write event s ≡ ok t) × ServerWrote event s t
server_takes event s h = elim (Result-cases (ServerStream.do_write event s)) [
  | inl (t, e) ↦ (t, e, server_wrote event s e)
  | inr (x, e) ↦ absurd (server_write-ne-fault event s h e)
]

pub client_takes :
    (event : Bytes) (s : ClientStream)
    → length event ≤ length s.write_buffer
    → (t : ClientStream) × (ClientStream.do_write event s ≡ ok t) × ClientWrote event s t
client_takes event s h = elim (Result-cases (ClientStream.do_write event s)) [
  | inl (t, e) ↦ (t, e, client_wrote event s e)
  | inr (x, e) ↦ absurd (client_write-ne-fault event s h e)
]
