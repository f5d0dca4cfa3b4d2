-- ===== src/Conn.antt =====
-- soaagent/conn_pool.c: the connection object and its operations. Connections live in a store and
-- are named by their addresses. The network answers the n-th `socket` and `connect` with
-- `attempt n`. Seconds are not negative.
use ddmframework.Common.{
  ℕ, suc, ◌-◌, ◌*◌, ◌%◌, ◌^◌, Bool, true, false, List, [], ◌∷◌, ltb, ◌==◌, if◌then◌else◌, take, mem,
  remove,
}
use ddmframework.Clock.{Timeval, get_time_difference}

-- HOST_NAME_LEN
abbrev pub host_name_len : ℕ
host_name_len = 100

-- The string of C at the start of some bytes: what stands before the first NUL.
unfoldable pub c_str : List ℕ → List ℕ
c_str [] = []
c_str (c ∷ s) = let rest = c_str s in if c == 0 then [] else c ∷ rest

-- `snprintf(buf, len, "%s", s)`
abbrev pub snprintf_s : ℕ → List ℕ → List ℕ
snprintf_s len s = take (len - 1) s

pub record Conn : Type 0 where
  pub sock_fd : ℕ
  pub host : List ℕ
  pub port : ℕ
  pub timeout_secs : ℕ
  pub last_used_time : Timeval
  pub last_check_time : Timeval
  pub connected : Bool
  pub error_occured : Bool

-- The answer to one `socket` and `connect`: the descriptor, whether the peer was reached, and the
-- time at the end.
pub record Attempt : Type 0 where
  pub fd : ℕ
  pub accepted : Bool
  pub at : Timeval

-- The memory of all connections, the next free address, and the open sockets of the process.
pub record Store : Type 0 where
  pub conns : ℕ → Conn
  pub next_conn : ℕ
  pub attempt : ℕ → Attempt
  pub attempts : ℕ
  pub open_fds : List ℕ

unfoldable pub write_conn : Store → ℕ → Conn → Store
write_conn st p c = record st { conns = λ q. if p == q then c else st.conns q }

-- `malloc(sizeof(conn_obj))`: a new address, with whatever the memory held.
unfoldable pub malloc_conn : Store → Store × ℕ
malloc_conn st = (record st { next_conn = suc st.next_conn }, st.next_conn)

unfoldable pub conn_init : Store → ℕ → List ℕ → ℕ → ℕ → Store
unfolding write_conn
conn_init st p host port timeout_secs = write_conn st p (record (st.conns p) {
  host = snprintf_s host_name_len host;
  port = port;
  timeout_secs = timeout_secs;
  connected = false;
  error_occured = false;
})

-- The flag is true for the result 0. A refused connection leaves its socket open.
unfoldable pub conn_connect : Store → ℕ → Store × Bool
unfolding write_conn
conn_connect st p =
    let answer = st.attempt st.attempts in
    let opened = record st { attempts = suc st.attempts; open_fds = answer.fd ∷ st.open_fds } in
    if answer.accepted
    then (
      write_conn opened p (record (st.conns p) {
        sock_fd = answer.fd;
        connected = true;
        error_occured = false;
        last_used_time = answer.at;
        last_check_time = answer.at;
      }),
      true,
    )
    else (write_conn opened p (record (st.conns p) { sock_fd = answer.fd }), false)

-- `close` fails on a descriptor that is not open.
unfoldable pub conn_disconnect : Store → ℕ → Store × Bool
unfolding write_conn
conn_disconnect st p =
    let fd = (st.conns p).sock_fd in
    (
      write_conn (record st { open_fds = remove fd st.open_fds }) p
          (record (st.conns p) { connected = false; error_occured = false }),
      mem fd st.open_fds,
    )

unfoldable pub conn_reconnect : Store → ℕ → Store × Bool
unfolding conn_disconnect conn_connect
conn_reconnect st p = conn_connect (conn_disconnect st p).0 p

unfoldable pub conn_is_idle_timeout : Conn → Timeval → ℕ → Bool
unfolding get_time_difference
conn_is_idle_timeout conn cur max_idle_seconds =
    ltb (max_idle_seconds * 1000 % 2 ^ 32) (get_time_difference conn.last_used_time cur)

unfoldable pub conn_is_checked_just_now : Conn → Timeval → ℕ → Bool
unfolding get_time_difference
conn_is_checked_just_now conn cur max_idle_seconds =
    ltb (get_time_difference conn.last_check_time cur) (max_idle_seconds * 1000 % 2 ^ 32)
