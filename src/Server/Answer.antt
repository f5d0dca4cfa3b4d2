-- ===== src/Server/Answer.antt =====
-- soaagent/server.c: what `readcb` does with the bytes of a client.
use ddmframework.Common.{
  append-nil, length-take, ℕ, ◌+◌, ◌≤◌, ◌<◌, ◌^◌, ◌≡◌, refl, sym, ap, ◌∙◌, true, List, [], ◌∷◌,
  ◌++◌, some, arith, length, length-append, take, drop, take-append, drop-append, ltb, leb,
  if◌then◌else◌,
}
use ddmframework.Clock.{Timeval}
use ddmframework.Protocol.{be32, read_be32}
use ddmframework.Protocol.RoundTrip.{read_be32-be32}
use ddmframework.Invoke.Call.{Peer}
use ddmframework.Proxy.{SoaProxyRequest, SoaProxyResponse, Codec, proxy_msg}
use ddmframework.Proxy.RoundTrip.{length-proxy_msg}
use ddmframework.Server.{
  Evbuffer, EvbufferLaws, Session, handled, handle_body, handle_message, handle_buffer, readcb,
}

stops :
    {A : Type 0} (available size n : ℕ) (go stop : A)
    → (4 ≤ available → available < 4 + n)
    → (if leb 4 available
        then (if ltb 0 size then (if leb (4 + n) available then go else stop) else stop)
        else stop)
      ≡ stop
stops available size n go stop h = ground arith

goes :
    {A : Type 0} (available size n : ℕ) (go stop : A)
    → 1 ≤ size
    → 4 + n ≤ available
    → (if leb 4 available
        then (if ltb 0 size then (if leb (4 + n) available then go else stop) else stop)
        else stop)
      ≡ go
goes available size n go stop h1 h = ground arith

first_four : (c later : List ℕ) → 4 ≤ length c → take 4 (c ++ later) ≡ take 4 c
first_four [] later h = absurd (omega arith)
first_four (x ∷ []) later h = absurd (omega arith)
first_four (x ∷ y ∷ []) later h = absurd (omega arith)
first_four (x ∷ y ∷ z ∷ []) later h = absurd (omega arith)
first_four (x ∷ y ∷ z ∷ t ∷ c) later h = refl

header_of : (body rest : List ℕ) → take 4 (proxy_msg body ++ rest) ≡ be32 (length body)
unfolding proxy_msg be32
header_of body rest = refl

drop_header : (body rest : List ℕ) → drop 4 (proxy_msg body ++ rest) ≡ body ++ rest
unfolding proxy_msg be32
drop_header body rest = refl

some_bytes : (body : List ℕ) → 1 ≤ length body → ltb 0 (length body) ≡ true
some_bytes body h = ground arith

-- The length that the first four bytes announce.
announces :
    (c later body rest : List ℕ)
    → length body < 2 ^ 32
    → 4 ≤ length c
    → c ++ later ≡ proxy_msg body ++ rest
    → read_be32 (take 4 c) ≡ length body
unfolding be32
announces c later body rest hl h4 h =
    ap read_be32 (sym (first_four c later h4) ∙ ap (take 4) h ∙ header_of body rest)
    ∙ read_be32-be32 (length body) [] hl

sizes :
    (c later body rest : List ℕ)
    → c ++ later ≡ proxy_msg body ++ rest
    → length c + length later ≡ 4 + length body + length rest
sizes c later body rest h = omega (
  arith,
  length-append c later,
  length-append (proxy_msg body) rest,
  length-proxy_msg body,
  ap length h,
)

module _ (ev : Evbuffer) (req : Codec SoaProxyRequest) (res : Codec SoaProxyResponse)
    (peer : ℕ → Peer) (now : Timeval) (laws : EvbufferLaws ev) where
  handle_buffer_incomplete :
      (s : Session ev) (body later : List ℕ)
      → length body < 2 ^ 32
      → 1 ≤ length later
      → laws.content s.input ++ later ≡ proxy_msg body
      → handle_buffer ev req res peer now s ≡ some (s, handled)
  unfolding handle_buffer
  handle_buffer_incomplete s body later hl h1 h =
      let c = laws.content s.input in
      let whole : c ++ later ≡ proxy_msg body ++ [] = h ∙ sym (append-nil (proxy_msg body)) in
      rw (laws.get_length s.input, laws.copyout s.input 4)
        (stops (length c) (length (take 4 c)) (read_be32 (take 4 c))
          (handle_message ev req res peer now s (read_be32 (take 4 c))) (some (s, handled))
          (λ h4. omega (arith, announces c later body [] hl h4 whole, sizes c later body [] whole)))

  -- As long as a part of a message is missing, be it of its header or of its body, nothing is taken
  -- from the buffer, nothing is answered, and the tables stay as they are.
  pub readcb_incomplete :
      (s : Session ev) (body later : List ℕ)
      → length body < 2 ^ 32
      → 1 ≤ length later
      → laws.content s.input ++ later ≡ proxy_msg body
      → readcb ev req res peer now s ≡ some (s, handled)
  unfolding readcb
  readcb_incomplete s body later hl h1 h =
      rw (handle_buffer_incomplete s body later hl h1 h, readcb) refl

  -- A whole message is handled.
  pub handle_buffer_whole :
      (s : Session ev) (body rest : List ℕ)
      → length body < 2 ^ 32
      → laws.content s.input ≡ proxy_msg body ++ rest
      → handle_buffer ev req res peer now s ≡ handle_message ev req res peer now s (length body)
  unfolding handle_buffer
  handle_buffer_whole s body rest hl h =
      let c = laws.content s.input in
      let whole : c ++ [] ≡ proxy_msg body ++ rest = append-nil c ∙ h in
      let size = sizes c [] body rest whole in
      let announced = announces c [] body rest hl (omega (arith, size)) whole in
      rw (laws.get_length s.input, laws.copyout s.input 4)
        (rw announced (
          goes (length c) (length (take 4 c)) (length body)
            (handle_message ev req res peer now s (length body)) (some (s, handled))
            (omega (arith, length-take 4 c, size)) (omega (arith, size))))

  -- Its body is taken from the buffer, with nothing of what follows.
  pub handle_message_whole :
      (s : Session ev) (body rest : List ℕ)
      → 1 ≤ length body
      → laws.content s.input ≡ proxy_msg body ++ rest
      → (input : ev.Buffer) × (handle_message ev req res peer now s (length body)
          ≡ handle_body ev req res peer now (record s { input = input }) body)
        × (laws.content input ≡ rest)
  unfolding handle_message
  handle_message_whole s body rest h1 h =
      let (input, drained, left) =
        laws.drain s.input 4 (
          omega (arith, ap length h, length-append (proxy_msg body) rest, length-proxy_msg body)) in
      let after : laws.content input ≡ body ++ rest =
        left ∙ ap (drop 4) h ∙ drop_header body rest in
      let (removed, rest_left) = laws.remove input (length body) in
      let taken : (ev.evbuffer_remove input (length body)).0 ≡ body =
        removed ∙ ap (take (length body)) after ∙ take-append body rest in
      (
        (ev.evbuffer_remove input (length body)).1,
        rw (drained, handle_message) (rw taken (rw (some_bytes body h1) refl)),
        rest_left ∙ ap (drop (length body)) after ∙ drop-append body rest,
      )
