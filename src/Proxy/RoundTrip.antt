-- ===== src/Proxy/RoundTrip.antt =====
-- soaagent/proxy_message.c: what is sent is received.
use ddmframework.Common.{
  ℕ, zero, ◌+◌, ◌≤◌, ◌<◌, ◌^◌, ◌≡◌, refl, ap, ap₂, ◌∙◌, true, false, List, [], ◌∷◌, ◌++◌, Option,
  none, some, arith, length, length-append, ltb, ◌==◌, take-append, drop-append, if◌then◌else◌,
}
use ddmframework.Socket.{
  SendReply, send_done, RecvReply, SelectReply, readable, Net, received, socket_receive,
}
use ddmframework.Socket.Transfer.{
  Takes, SendsOn, sends, ReadsOn, gots, the_net, socket_send-sends, socket_receive-readable,
  socket_receive-blocking,
}
use ddmframework.Protocol.{be32, read_be32}
use ddmframework.Protocol.RoundTrip.{read_be32-be32, whole_message}
use ddmframework.Proxy.{
  request_of, response_of, SoaProxyRequest, SoaProxyResponse, Codec, CodecLaws, proxy_msg,
  proxy_request_encode, proxy_response_encode, proxy_request_decode, proxy_response_decode,
  proxy_request_send, Receipt, receipt, decoded, after_proxy_body, after_proxy_header,
  proxy_request_receive, proxy_response_receive,
}

-- What a body is taken for: none at all is the message NULL.
unfoldable pub taken_for : {M : Type 0} → (List ℕ → Option M) → List ℕ → Receipt M
unfolding decoded
taken_for decode [] = receipt none
taken_for decode (b ∷ body) = decoded (decode (b ∷ body))

unannounced :
    {M : Type 0} (decode : List ℕ → Option M) (head : List ℕ) (net : Net)
    → read_be32 head ≡ 0
    → after_proxy_header decode (received head, net) ≡ (receipt none, net)
unfolding after_proxy_header
unannounced decode head net e = rw e refl

positive : (n : ℕ) → 1 ≤ n → (n == 0) ≡ false
positive n h = ground arith

announced :
    {M : Type 0} (decode : List ℕ → Option M) (head : List ℕ) (net : Net) (n : ℕ)
    → read_be32 head ≡ n
    → 1 ≤ n
    → after_proxy_header decode (received head, net)
      ≡ after_proxy_body decode (socket_receive net n 3)
unfolding after_proxy_header
announced decode head net n e h = rw (e, positive n h) refl

proxy_body :
    {M : Type 0} (decode : List ℕ → Option M) (b : ℕ) (body rest : List ℕ) (reads : List RecvReply)
    (selects : List SelectReply)
    → ReadsOn reads
    → length (b ∷ body) ≤ gots reads
    → (later : List RecvReply) × (after_proxy_body decode (
          socket_receive
            (the_net (b ∷ body ++ rest) reads (readable ∷ selects))
            (length (b ∷ body))
            3)
        ≡ (decoded (decode (b ∷ body)), the_net rest later selects))
unfolding after_proxy_body
proxy_body decode b body rest reads selects ho h =
    let second =
      socket_receive-readable (b ∷ body ++ rest) reads selects (length (b ∷ body)) 3 ho
        (omega arith) (omega (arith, length-append (b ∷ body) rest)) h (omega arith) in
    (
      second.0,
      ap (after_proxy_body decode) second.1
          ∙ ap₂ (λ (x y : List ℕ). (decoded (decode x), the_net y second.0 selects))
              (take-append (b ∷ body) rest) (drop-append (b ∷ body) rest),
    )

-- After the header of a body, the body is taken, and nothing else of the stream.
after_header_of :
    {M : Type 0} (decode : List ℕ → Option M) (body rest : List ℕ) (reads : List RecvReply)
    (selects : List SelectReply)
    → length body < 2 ^ 32
    → ReadsOn reads
    → length body ≤ gots reads
    → (later : List RecvReply) × (selects_left : List SelectReply) × (after_proxy_header decode
          (received (be32 (length body)), the_net (body ++ rest) reads (readable ∷ selects))
        ≡ (taken_for decode body, the_net rest later selects_left))
unfolding taken_for be32
after_header_of decode [] rest reads selects hl ho h = (
  reads,
  readable ∷ selects,
  unannounced decode (be32 0) (the_net rest reads (readable ∷ selects)) (read_be32-be32 0 [] hl),
)
after_header_of decode (b ∷ body) rest reads selects hl ho h =
    let (later, run) = proxy_body decode b body rest reads selects ho h in
    (
      later,
      selects,
      announced decode (be32 (length (b ∷ body)))
            (the_net (b ∷ body ++ rest) reads (readable ∷ selects)) (length (b ∷ body))
            (read_be32-be32 (length (b ∷ body)) [] hl) (omega arith)
          ∙ run,
    )

pub length-proxy_msg : (body : List ℕ) → length (proxy_msg body) ≡ 4 + length body
unfolding proxy_msg be32
length-proxy_msg body = omega arith

-- A request on the wire is received, whatever comes after it.
pub proxy_request_receive-proxy_msg :
    (codec : Codec SoaProxyRequest) (body rest : List ℕ) (reads : List RecvReply)
    (selects : List SelectReply)
    → length body < 2 ^ 32
    → ReadsOn reads
    → 4 + length body ≤ gots reads
    → (later : List RecvReply) × (selects_left : List SelectReply) × (proxy_request_receive codec
          (the_net (proxy_msg body ++ rest) reads (readable ∷ selects))
        ≡ (taken_for (proxy_request_decode codec) body, the_net rest later selects_left))
unfolding proxy_request_receive proxy_msg be32
proxy_request_receive-proxy_msg codec body rest reads selects hl ho h =
    let (left, first, on, more) =
      socket_receive-blocking (proxy_msg body ++ rest) reads (readable ∷ selects) 4 ho (omega arith)
        (omega (arith, length-append (proxy_msg body) rest, length-proxy_msg body)) (omega arith) in
    let (later, selects_left, run) =
      after_header_of (proxy_request_decode codec) body rest left selects hl on
        (omega (arith, more)) in
    (later, selects_left, ap (after_proxy_header (proxy_request_decode codec)) first ∙ run)

-- So is a response.
pub proxy_response_receive-proxy_msg :
    (codec : Codec SoaProxyResponse) (body rest : List ℕ) (reads : List RecvReply)
    (selects : List SelectReply)
    → length body < 2 ^ 32
    → ReadsOn reads
    → 4 + length body ≤ gots reads
    → (later : List RecvReply) × (selects_left : List SelectReply) × (proxy_response_receive codec
          (the_net (proxy_msg body ++ rest) reads (readable ∷ readable ∷ selects))
        ≡ (taken_for (proxy_response_decode codec) body, the_net rest later selects_left))
unfolding proxy_response_receive proxy_msg be32
proxy_response_receive-proxy_msg codec body rest reads selects hl ho h =
    let (left, first, on, more) =
      socket_receive-readable (proxy_msg body ++ rest) reads (readable ∷ selects) 4 3 ho
        (omega arith) (omega (arith, length-append (proxy_msg body) rest, length-proxy_msg body))
        (omega arith) (omega arith) in
    let (later, selects_left, run) =
      after_header_of (proxy_response_decode codec) body rest left selects hl on
        (omega (arith, more)) in
    (later, selects_left, ap (after_proxy_header (proxy_response_decode codec)) first ∙ run)

less : (n : ℕ) → ltb 0 (ℕ.suc n) ≡ true
less n = ground arith

-- What the peer of an encoder decodes: the message, and NULL for one that packs to nothing.
packed_or_nothing :
    {M : Type 0} (codec : Codec M) (m : M)
    → CodecLaws codec
    → (taken_for codec.unpack (if ltb 0 (codec.get_packed_size m) then codec.pack m else [])
        ≡ receipt (if ltb 0 (codec.get_packed_size m) then some m else none))
      × (length (if ltb 0 (codec.get_packed_size m) then codec.pack m else [])
          ≡ codec.get_packed_size m)
unfolding taken_for
packed_or_nothing codec m laws =
    by_bytes (codec.get_packed_size m) (codec.pack m) (laws.size m) (laws.unpacks m)
  where
    by_bytes :
        (n : ℕ) (bytes : List ℕ)
        → length bytes ≡ n
        → codec.unpack bytes ≡ some m
        → (taken_for codec.unpack (if ltb 0 n then bytes else [])
            ≡ receipt (if ltb 0 n then some m else none))
          × (length (if ltb 0 n then bytes else []) ≡ n)
    by_bytes zero bytes size unpacks = (refl, refl)
    by_bytes (ℕ.suc n) [] size unpacks = absurd (omega (arith, size))
    by_bytes (ℕ.suc n) (b ∷ bytes) size unpacks = rw (less n) (ap decoded unpacks, size)

-- A request that `proxy_request_send` sends, in the pieces that the kernel takes, is the one that
-- `proxy_request_receive` receives, and what was sent later stays in the stream, for a codec that
-- undoes its packing and kernels that answer without an error and often enough. A request that
-- packs to nothing is received as NULL.
pub proxy_request_receive-proxy_request_send :
    (codec : Codec SoaProxyRequest) (group service_name service_version request_body rest : List ℕ)
    (replies : List SendReply) (reads : List RecvReply) (selects : List SelectReply)
    → CodecLaws codec
    → codec.get_packed_size (request_of group service_name service_version request_body) < 2 ^ 32
    → Takes replies
        (proxy_msg (proxy_request_encode codec group service_name service_version request_body))
    → SendsOn replies
    → 4 + codec.get_packed_size (request_of group service_name service_version request_body)
      ≤ sends replies
    → ReadsOn reads
    → 4 + codec.get_packed_size (request_of group service_name service_version request_body)
      ≤ gots reads
    → ((proxy_request_send codec replies group service_name service_version request_body).0
        ≡ send_done)
      × (later : List RecvReply) × (selects_left : List SelectReply) × (proxy_request_receive codec
            (the_net
              ((proxy_request_send codec replies group service_name service_version request_body).1
                ++ rest)
              reads
              (readable ∷ selects))
          ≡ (
            receipt (
                if ltb 0 (
                  codec.get_packed_size
                    (request_of group service_name service_version request_body))
                then some (request_of group service_name service_version request_body)
                else none),
            the_net rest later selects_left,
          ))
unfolding proxy_request_send proxy_request_encode proxy_request_decode
proxy_request_receive-proxy_request_send codec group service_name service_version request_body rest
      replies reads selects laws hl taken hs hn ho h =
    let body = proxy_request_encode codec group service_name service_version request_body in
    let (arrives, size) =
      packed_or_nothing codec (request_of group service_name service_version request_body) laws in
    let whole = length-proxy_msg body in
    let (later, selects_left, run) =
      proxy_request_receive-proxy_msg codec body rest reads selects (omega (arith, size)) ho
        (omega (arith, size)) in
    (
      socket_send-sends replies (proxy_msg body) taken hs (omega (arith, whole))
          (omega (arith, whole, size)),
      later,
      selects_left,
      ap (λ s. proxy_request_receive codec (the_net (s ++ rest) reads (readable ∷ selects)))
            (whole_message replies (proxy_msg body) taken hs (omega (arith, whole))
              (omega (arith, whole, size)))
          ∙ run
          ∙ ap (λ r. (r, the_net rest later selects_left)) arrives,
    )

-- The response that the encoder packs is received.
pub proxy_response_receive-encode :
    (codec : Codec SoaProxyResponse) (status : ℕ) (response_body rest : List ℕ)
    (reads : List RecvReply) (selects : List SelectReply)
    → CodecLaws codec
    → codec.get_packed_size (response_of status response_body) < 2 ^ 32
    → ReadsOn reads
    → 4 + codec.get_packed_size (response_of status response_body) ≤ gots reads
    → (later : List RecvReply) × (selects_left : List SelectReply) × (proxy_response_receive codec (
          the_net
            (proxy_msg (proxy_response_encode codec status response_body) ++ rest)
            reads
            (readable ∷ readable ∷ selects))
        ≡ (
          receipt (
              if ltb 0 (codec.get_packed_size (response_of status response_body))
              then some (response_of status response_body)
              else none),
          the_net rest later selects_left,
        ))
unfolding proxy_response_encode proxy_response_decode
proxy_response_receive-encode codec status response_body rest reads selects laws hl ho h =
    let (arrives, size) = packed_or_nothing codec (response_of status response_body) laws in
    let (later, selects_left, run) =
      proxy_response_receive-proxy_msg codec (proxy_response_encode codec status response_body) rest
        reads selects (omega (arith, size)) ho (omega (arith, size)) in
    (later, selects_left, run ∙ ap (λ r. (r, the_net rest later selects_left)) arrives)
