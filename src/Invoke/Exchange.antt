-- ===== src/Invoke/Exchange.antt =====
-- soaagent/invoke_stub.c: what the tries of a call of `invoke_service` come to.
use ddmframework.Common.{ℕ, ◌≡◌, refl, List, ◌∷◌, ◌++◌, arith, inl, inr, ◌⊎◌}
use ddmframework.Socket.{SendReply, RecvReply, SelectReply, readable}
use ddmframework.Socket.Transfer.{the_net}
use ddmframework.Protocol.{message}
use ddmframework.Conn.{Store, conn_reconnect, conn_disconnect, conn_connect, write_conn}
use ddmframework.Invoke.Call.{
  Exchange, answered, unanswered, hanging, Peer, exchange, retry_times, call_tries,
}

-- A peer that takes the request of `identifier` and sends a message back.
abbrev pub responds :
    (replies : List SendReply) (reads : List RecvReply) (selects : List SelectReply)
    (res_identifier res_type : ℕ) (body rest : List ℕ)
    → Peer
responds replies reads selects res_identifier res_type body rest = (
  replies,
  the_net (message res_identifier res_type body ++ rest) reads (readable ∷ readable ∷ selects),
)

-- What two tries come to: the first decides unless it fails.
unfoldable pub verdict : (ℕ → Peer) → ℕ → List ℕ → Exchange
unfolding exchange
verdict peer identifier req_body = elim (exchange (peer 0) identifier req_body) [
  | answered body ↦ answered body
  | hanging ↦ hanging
  | unanswered ↦ exchange (peer 1) identifier req_body
]

pub Exchange-cases :
    (e : Exchange) → (e ≡ unanswered) ⊎ ((body : List ℕ) × (e ≡ answered body)) ⊎ (e ≡ hanging)
Exchange-cases unanswered = inl refl
Exchange-cases (answered body) = inr (inl (body, refl))
Exchange-cases hanging = inr (inr refl)

conn_reconnect-next : (st : Store) (conn : ℕ) → (conn_reconnect st conn).0.next_conn ≡ st.next_conn
unfolding conn_reconnect conn_disconnect conn_connect write_conn
conn_reconnect-next st conn = ground arith

-- The tries neither allocate a connection nor free one.
pub call_tries_lem :
    (peer : ℕ → Peer) (st : Store) (conn identifier : ℕ) (req_body : List ℕ)
    → ((call_tries retry_times peer 0 st conn identifier req_body).1
        ≡ verdict peer identifier req_body)
      × ((call_tries retry_times peer 0 st conn identifier req_body).0.next_conn ≡ st.next_conn)
unfolding call_tries verdict
call_tries_lem peer st conn identifier req_body =
    elim (Exchange-cases (exchange (peer 0) identifier req_body)) [
      | inl e ↦ rw (e, call_tries, verdict) (refl, conn_reconnect-next st conn)
      | inr (inl (body, e)) ↦ rw (e, call_tries, verdict) (refl, refl)
      | inr (inr e) ↦ rw (e, call_tries, verdict) (refl, refl)
    ]
