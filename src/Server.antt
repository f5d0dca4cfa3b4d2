-- ===== src/Server.antt =====
-- soaagent/server.c: the connections of local clients, dealt to worker threads, and a message of a
-- client, answered with what `invoke_service` makes of it. The buffers of libevent, the generated
-- codecs, and what `invoke_service` asks of the kernel are parameters.
pub mod Answer
pub mod Dialogue
pub mod Accept
pub mod Startup
pub mod Handover
pub mod Started
pub mod Served
pub mod ServedExamples
pub mod Examples
use ddmframework.Common.{
  ℕ, zero, suc, ◌+◌, ◌%◌, ◌≤◌, ◌≡◌, Bool, true, false, List, [], ◌∷◌, ◌++◌, Option, none, some,
  length, take, drop, ltb, leb, ◌==◌, if◌then◌else◌,
}
use ddmframework.Clock.{Timeval}
use ddmframework.Protocol.{read_be32}
use ddmframework.Resource.{Resources}
use ddmframework.Invoke.Call.{Peer, Outcome, invoked, not_invoked, in_progress, invoke_service}
use ddmframework.Proxy.{
  SoaProxyRequest, SoaProxyResponse, Codec, proxy_msg_header_size, proxy_msg, proxy_request_decode,
  proxy_response_encode,
}

-- The functions of an `evbuffer`; `none` is the result -1.
pub record Evbuffer : Type 1 where
  pub Buffer : Type 0
  pub evbuffer_get_length : Buffer → ℕ
  pub evbuffer_copyout : Buffer → ℕ → List ℕ
  pub evbuffer_drain : Buffer → ℕ → Option Buffer
  pub evbuffer_remove : Buffer → ℕ → List ℕ × Buffer
  pub evbuffer_add : Buffer → List ℕ → Option Buffer

-- What libevent documents of them: a buffer is a queue of bytes.
pub record EvbufferLaws (ev : Evbuffer) : Type 0 where
  pub content : ev.Buffer → List ℕ
  pub get_length : (b : ev.Buffer) → ev.evbuffer_get_length b ≡ length (content b)
  pub copyout : (b : ev.Buffer) (n : ℕ) → ev.evbuffer_copyout b n ≡ take n (content b)
  pub drain :
      (b : ev.Buffer) (n : ℕ)
      → n ≤ length (content b)
      → (b' : ev.Buffer) × (ev.evbuffer_drain b n ≡ some b') × (content b' ≡ drop n (content b))
  pub remove :
      (b : ev.Buffer) (n : ℕ)
      → ((ev.evbuffer_remove b n).0 ≡ take n (content b))
        × (content (ev.evbuffer_remove b n).1 ≡ drop n (content b))
  pub add :
      (b : ev.Buffer) (bytes : List ℕ)
      → (b' : ev.Buffer) × (ev.evbuffer_add b bytes ≡ some b') × (content b' ≡ content b ++ bytes)

-- The agent and one connection of a client. `counter` is the counter of `next_identifier`.
pub record Session (ev : Evbuffer) : Type 0 where
  pub resources : Resources
  pub counter : ℕ
  pub input : ev.Buffer
  pub output : ev.Buffer
  pub is_open : Bool

-- How `handle_buffer` ends: 0, -1, or not as long as `invoke_service` waits.
pub data Handled : Type 0 where
  handled : Handled
  handle_failed : Handled
  handling : Handled

module _ (ev : Evbuffer) (req : Codec SoaProxyRequest) (res : Codec SoaProxyResponse)
    (peer : ℕ → Peer) (now : Timeval) where
  -- `evbuffer_add` of the response; a failure is only logged.
  unfoldable pub respond : Session ev → ℕ → List ℕ → Session ev
  unfolding proxy_msg proxy_response_encode
  respond s status resp_buffer =
      elim (ev.evbuffer_add s.output (proxy_msg (proxy_response_encode res status resp_buffer))) [
        | none ↦ s
        | some output ↦ record s { output = output }
      ]

  unfoldable pub answer :
      Session ev → Option (ℕ × Resources × Outcome) → Option (Session ev × Handled)
  unfolding respond
  answer s none = none
  answer s (some (counter, resources, invoked resp_buffer)) =
      some (respond (record s { counter = counter; resources = resources }) 0 resp_buffer, handled)
  answer s (some (counter, resources, not_invoked)) =
      some (respond (record s { counter = counter; resources = resources }) 1 [], handled)
  answer s (some (counter, resources, in_progress)) =
      some (record s { counter = counter; resources = resources }, handling)

  unfoldable pub handle_body : Session ev → List ℕ → Option (Session ev × Handled)
  unfolding answer invoke_service proxy_request_decode
  handle_body s body = elim (proxy_request_decode req body) [
    | none ↦ some (s, handle_failed)
    | some req_msg ↦ answer s (
        invoke_service peer now s.resources s.counter req_msg.group_name req_msg.service_name
          req_msg.service_version req_msg.request)
  ]

  -- A whole message of `body_length` bytes after its header is in the buffer.
  unfoldable pub handle_message : Session ev → ℕ → Option (Session ev × Handled)
  unfolding handle_body
  handle_message s body_length = elim (ev.evbuffer_drain s.input proxy_msg_header_size) [
    | none ↦ some (s, handled)
    | some input ↦
        let (body, input') = ev.evbuffer_remove input body_length in
        if ltb 0 (length body)
        then handle_body (record s { input = input' }) body
        else some (record s { input = input' }, handled)
  ]

  unfoldable pub handle_buffer : Session ev → Option (Session ev × Handled)
  unfolding handle_message read_be32
  handle_buffer s =
      let available = ev.evbuffer_get_length s.input in
      let header = ev.evbuffer_copyout s.input proxy_msg_header_size in
      if leb proxy_msg_header_size available
      then (if ltb 0 (length header)
          then (if leb (proxy_msg_header_size + read_be32 header) available
              then handle_message s (read_be32 header)
              else some (s, handled))
          else some (s, handled))
      else some (s, handled)

  -- The connection is closed on an error.
  unfoldable pub readcb : Session ev → Option (Session ev × Handled)
  unfolding handle_buffer
  readcb s = elim (handle_buffer s) [
    | none ↦ none
    | some (s', handle_failed) ↦ some (record s' { is_open = false }, handle_failed)
    | some (s', handled) ↦ some (s', handled)
    | some (s', handling) ↦ some (s', handling)
  ]

-- The main thread: the counter of the workers, what was written to the pipes of the workers, the
-- latest last, and the descriptors that were closed.
pub record Acceptor : Type 0 where
  pub global_worker_num : ℕ
  pub global_cycle_counter : ℕ
  pub notified : List (ℕ × ℕ)
  pub closed : List ℕ

-- FD_SETSIZE
abbrev pub fd_setsize : ℕ
fd_setsize = 1024

-- The index and the counter; a division by 0 is a fault.
unfoldable pub get_next_worker_index : ℕ → ℕ → Option (ℕ × ℕ)
get_next_worker_index global_cycle_counter zero = none
get_next_worker_index global_cycle_counter (suc n) =
    let next = global_cycle_counter + 1 in
    some (global_cycle_counter % suc n, if ltb 0xFFFF next then 0 else next)

-- What `accept` gives is a descriptor, or nothing for an error.
unfoldable pub do_accept : Acceptor → Option ℕ → Option Acceptor
unfolding get_next_worker_index
do_accept a none = some a
do_accept a (some fd) =
    if ltb fd_setsize fd
    then some (record a { closed = a.closed ++ fd ∷ [] })
    else elim (get_next_worker_index a.global_cycle_counter a.global_worker_num) [
      | none ↦ none
      | some (worker_index, counter) ↦ some (record a {
        global_cycle_counter = counter;
        notified = a.notified ++ (worker_index, fd) ∷ [];
      })
    ]
