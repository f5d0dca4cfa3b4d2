-- ===== src/Invoke/Call.antt =====
-- soaagent/invoke_stub.c: `invoke_service`. What the kernel and the peer do in the i-th try is a
-- parameter; other threads do nothing to the pool of the node meanwhile.
use ddmframework.Common.{
  ℕ, zero, suc, true, ◌&&◌, ◌==◌, List, Option, none, some, Key, if◌then◌else◌, table_update,
}
use ddmframework.Clock.{Timeval, next_identifier}
use ddmframework.Conn.{Store, snprintf_s, conn_reconnect}
use ddmframework.ConnPool.{Pool, pool_require_connection, pool_release_connection}
use ddmframework.StringArray.{Next, null, found, out_of_range}
use ddmframework.Socket.{SendReply, send_done, send_failed, send_waiting, Net}
use ddmframework.Protocol.{Delivery, arrived, refused, pending, send_message, receive_message}
use ddmframework.ServiceResource.{Services, service_resource_require_node_key}
use ddmframework.NodeResource.{node_resource_get_by_key}
use ddmframework.Resource.{Resources}

-- BIZ_REQ_MSG_TYPE and BIZ_RES_MSG_TYPE
abbrev pub biz_req_msg_type : ℕ
biz_req_msg_type = 0x10

abbrev pub biz_res_msg_type : ℕ
biz_res_msg_type = 0x90

-- RETRY_TIMES
abbrev pub retry_times : ℕ
retry_times = 1

-- One request over the connection: the body of its response, no valid response, or a system call
-- that has not returned.
pub data Exchange : Type 0 where
  answered : List ℕ → Exchange
  unanswered : Exchange
  hanging : Exchange

unfoldable pub check_response : ℕ → Delivery → Exchange
check_response identifier (arrived res_identifier res_type body) =
    if res_identifier == identifier && res_type == biz_res_msg_type
    then answered body
    else unanswered
check_response identifier refused = unanswered
check_response identifier pending = hanging

-- What the kernel does with the request, and what comes back.
abbrev pub Peer : Type 0
Peer = List SendReply × Net

unfoldable pub exchange : Peer → ℕ → List ℕ → Exchange
unfolding check_response send_message receive_message
exchange (replies, net) identifier req_body =
    elim (send_message replies identifier biz_req_msg_type req_body).0 [
      | send_done ↦ check_response identifier (receive_message net).0
      | send_failed ↦ unanswered
      | send_waiting ↦ hanging
    ]

-- The loop, with `retry` tries left after this one: the connection is opened anew between two.
unfoldable pub call_tries : ℕ → (ℕ → Peer) → ℕ → Store → ℕ → ℕ → List ℕ → Store × Exchange
unfolding exchange conn_reconnect
call_tries zero peer i st conn identifier req_body = (st, exchange (peer i) identifier req_body)
call_tries (suc retry) peer i st conn identifier req_body =
    elim (exchange (peer i) identifier req_body) [
      | answered body ↦ (st, answered body)
      | hanging ↦ (st, hanging)
      | unanswered ↦
          call_tries retry peer (suc i) (conn_reconnect st conn).0 conn identifier req_body
    ]

-- What `invoke_service` gives: 0 with the body, -1, or nothing as long as a system call waits.
pub data Outcome : Type 0 where
  invoked : List ℕ → Outcome
  not_invoked : Outcome
  in_progress : Outcome

-- The connection goes back to the pool in any case, at the time `now`.
unfoldable pub give_back : Pool → ℕ → Timeval → Store × Exchange → Option (Store × Pool × Outcome)
unfolding pool_release_connection
give_back pool conn now (st, answered body) =
    elim (pool_release_connection st pool (some conn) true now) [
      | none ↦ none
      | some (st', pool') ↦ some (st', pool', invoked body)
    ]
give_back pool conn now (st, unanswered) =
    elim (pool_release_connection st pool (some conn) true now) [
      | none ↦ none
      | some (st', pool') ↦ some (st', pool', not_invoked)
    ]
give_back pool conn now (st, hanging) = some (st, pool, in_progress)

-- The part of `invoke_service` that works on the pool of the node. `counter` is the static counter
-- of `next_identifier`, which only a call with a connection moves.
unfoldable pub call_on_pool :
    (ℕ → Peer) → Timeval → Store → Pool → ℕ → List ℕ → Option (ℕ × Store × Pool × Outcome)
unfolding pool_require_connection next_identifier call_tries give_back
call_on_pool peer now st pool counter req_body = elim (pool_require_connection st pool) [
  | none ↦ none
  | some (st', pool', none) ↦ some (counter, st', pool', not_invoked)
  | some (st', pool', some conn) ↦
      let identifier = next_identifier counter in
      elim (give_back pool' conn now (call_tries retry_times peer 0 st' conn identifier req_body)) [
        | none ↦ none
        | some (st'', pool'', outcome) ↦ some (identifier, st'', pool'', outcome)
      ]
]

-- The local copy of the node key, `char node_key[30]`.
unfoldable pub copy_node_key : Key → Key
copy_node_key key = snprintf_s 30 key

unfoldable pub call_on_node :
    (ℕ → Peer) → Timeval → Resources → ℕ → Key → List ℕ → Option (ℕ × Resources × Outcome)
unfolding call_on_pool node_resource_get_by_key
call_on_node peer now r counter node_key req_body =
    elim (node_resource_get_by_key r.nodes node_key) [
      | none ↦ some (counter, r, not_invoked)
      | some pool ↦ elim (call_on_pool peer now r.nodes.store pool counter req_body) [
        | none ↦ none
        | some (counter', st, pool', outcome) ↦ some (
          counter',
          record r {
            nodes = record r.nodes {
              table = table_update node_key pool' r.nodes.table;
              store = st;
            };
          },
          outcome,
        )
      ]
    ]

-- The part of `invoke_service` after the choice of a node key.
unfoldable pub call_chosen :
    (ℕ → Peer)
    → Timeval
    → Resources
    → ℕ
    → (req_body : List ℕ) → Services × Next
    → Option (ℕ × Resources × Outcome)
unfolding call_on_node copy_node_key
call_chosen peer now r counter req_body (services, null) =
    some (counter, record r { services = services }, not_invoked)
call_chosen peer now r counter req_body (services, out_of_range) = none
call_chosen peer now r counter req_body (services, found key) =
    call_on_node peer now (record r { services = services }) counter (copy_node_key key) req_body

unfoldable pub invoke_service :
    (ℕ → Peer)
    → Timeval
    → Resources
    → ℕ
    → (group service version req_body : List ℕ) → Option (ℕ × Resources × Outcome)
unfolding service_resource_require_node_key call_chosen
invoke_service peer now r counter group service version req_body =
    call_chosen peer now r counter req_body
      (service_resource_require_node_key r.services group service version)
