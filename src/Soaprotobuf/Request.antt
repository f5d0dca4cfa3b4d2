-- ===== src/Soaprotobuf/Request.antt =====
-- soaprotobuf/soaprotobuf.c, soaagent/server.c: a request that a PHP client has built, when it reaches
-- the agent.
use ddmframework.Conn.{c_str}
use ddmframework.Common.{
  ℕ, ◌≤◌, ◌<◌, ◌^◌, ◌≡◌, sym, ap, subst, ◌∙◌, List, length, ◌++◌, some, arith,
}
use ddmframework.Clock.{Timeval}
use ddmframework.Resource.{Resources}
use ddmframework.Resource.Sync.{InStep}
use ddmframework.Invoke.Call.{Peer, Outcome, invoke_service}
use ddmframework.Invoke.Invocation.{PoolsSound}
use ddmframework.Protocol.{be32}
use ddmframework.Proxy.{SoaProxyRequest, SoaProxyResponse, Codec, CodecLaws, request_of, proxy_msg}
use ddmframework.Server.{Evbuffer, EvbufferLaws, Session, readcb}
use ddmframework.Server.Dialogue.{reply, ending, readcb_whole}
use ddmframework.Soaprotobuf.{
  proxy_request_encode, prequest_encode, stringl, get_buffer_request_body,
}

-- The message that the four strings stand for.
abbrev pub php_request :
    (group service_name service_version request_body : List ℕ) → SoaProxyRequest
php_request group service_name service_version request_body =
    request_of (c_str group) (c_str service_name) (c_str service_version) request_body

module _ (codec : Codec SoaProxyRequest)
    (group service_name service_version request_body : List ℕ) where
  packs :
      1 ≤ codec.get_packed_size (php_request group service_name service_version request_body)
      → proxy_request_encode codec group service_name service_version request_body
        ≡ codec.pack (php_request group service_name service_version request_body)
  unfolding proxy_request_encode
  packs h = ground arith

  -- The bytes of the extension are a message of the agent's protocol.
  prequest_encode-proxy_msg :
      1 ≤ codec.get_packed_size (php_request group service_name service_version request_body)
      → prequest_encode codec group service_name service_version request_body
        ≡ proxy_msg (codec.pack (php_request group service_name service_version request_body))
  unfolding prequest_encode proxy_msg
  prequest_encode-proxy_msg h = ap (λ (buffer : List ℕ). be32 (length buffer) ++ buffer) (packs h)

stringl_injective : (a b : List ℕ) → stringl a ≡ stringl b → a ≡ b
stringl_injective a b e = cc

module _ (ev : Evbuffer) (req : Codec SoaProxyRequest) (res : Codec SoaProxyResponse)
    (peer : ℕ → Peer) (now : Timeval) (laws : EvbufferLaws ev) where
  -- What `get_buffer_request_body` gives a PHP client for four strings, the agent takes from the
  -- buffer of the connection as one request, with what follows left there: it calls the service
  -- that the names give, each up to its first NUL, with the whole body, and sends the client the
  -- answer. Nothing faults, and the pools stay in step with the services. The request packs to at
  -- least one byte and less than 2^32.
  pub readcb-get_buffer_request_body :
      (s : Session ev) (group_name service_name version req_body message rest : List ℕ)
      → CodecLaws req
      → 1 ≤ req.get_packed_size (php_request group_name service_name version req_body)
      → req.get_packed_size (php_request group_name service_name version req_body) < 2 ^ 32
      → get_buffer_request_body req (some (group_name, service_name, version, req_body))
        ≡ stringl message
      → laws.content s.input ≡ message ++ rest
      → InStep s.resources
      → PoolsSound s.resources.nodes
      → (counter : ℕ) × (r : Resources) × (outcome : Outcome) × (s' : Session ev) × (invoke_service
            peer now s.resources s.counter
            (c_str group_name)
            (c_str service_name)
            (c_str version)
            req_body
          ≡ some (counter, r, outcome))
        × (readcb ev req res peer now s ≡ some (s', ending outcome))
        × (laws.content s'.input ≡ rest)
        × (laws.content s'.output ≡ laws.content s.output ++ reply res outcome)
        × InStep s'.resources
        × PoolsSound s'.resources.nodes
  unfolding get_buffer_request_body
  readcb-get_buffer_request_body s group_name service_name version req_body message rest codec_laws
        h1 hl built arrived v sound =
      let m = php_request group_name service_name version req_body in
      let bytes : message ≡ proxy_msg (req.pack m) =
        sym (stringl_injective _ message built)
        ∙ prequest_encode-proxy_msg req group_name service_name version req_body h1 in
      let (
        counter, r, outcome, s', run, answered, tables, counts, opened, left, grown, v', sound',
      ) =
        readcb_whole ev req res peer now laws s m rest codec_laws h1 hl
          (arrived ∙ ap (λ b. b ++ rest) bytes) v sound in
      (
        counter,
        r,
        outcome,
        s',
        run,
        answered,
        left,
        grown,
        subst InStep (sym tables) v',
        subst (λ (t : Resources). PoolsSound t.nodes) (sym tables) sound',
      )
