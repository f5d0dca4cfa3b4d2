-- ===== src/Server/Dialogue.antt =====
-- soaagent/server.c, soaagent/proxy_message.c and soaagent/invoke_stub.c: a request of a client, from
-- the bytes that arrive to the bytes of the answer.
use ddmframework.Common.{
  ℕ, ◌≤◌, ◌<◌, ◌^◌, ◌≡◌, refl, sym, ap, ◌∙◌, List, [], ◌++◌, append-nil, some, arith,
}
use ddmframework.Clock.{Timeval}
use ddmframework.Resource.{Resources}
use ddmframework.Resource.Sync.{InStep}
use ddmframework.Invoke.Call.{Peer, Outcome, invoked, not_invoked, in_progress, invoke_service}
use ddmframework.Invoke.Invocation.{PoolsSound, invoke_service_lem}
use ddmframework.Proxy.{
  SoaProxyRequest, SoaProxyResponse, Codec, CodecLaws, proxy_msg, proxy_request_decode,
  proxy_response_encode,
}
use ddmframework.Server.{
  Evbuffer, EvbufferLaws, Session, Handled, handled, handling, respond, answer, handle_body,
  handle_buffer, readcb,
}
use ddmframework.Server.Answer.{handle_buffer_whole, handle_message_whole}

-- What the client is sent: status 0 with the body, status 1, or nothing yet.
unfoldable pub reply : Codec SoaProxyResponse → Outcome → List ℕ
unfolding proxy_msg proxy_response_encode
reply res (invoked resp_buffer) = proxy_msg (proxy_response_encode res 0 resp_buffer)
reply res not_invoked = proxy_msg (proxy_response_encode res 1 [])
reply res in_progress = []

unfoldable pub ending : Outcome → Handled
ending (invoked resp_buffer) = handled
ending not_invoked = handled
ending in_progress = handling

module _ (ev : Evbuffer) (req : Codec SoaProxyRequest) (res : Codec SoaProxyResponse)
    (peer : ℕ → Peer) (now : Timeval) (laws : EvbufferLaws ev) where
  -- How a session goes on: the output has the bytes more, and the connection stays as it was.
  abbrev pub Answered :
      (s s' : Session ev) (counter : ℕ) (resources : Resources) (bytes : List ℕ) → Type 0
  Answered s s' counter resources bytes =
      (s'.counter ≡ counter)
      × (s'.resources ≡ resources)
      × (s'.input ≡ s.input)
      × (s'.is_open ≡ s.is_open)
      × (laws.content s'.output ≡ laws.content s.output ++ bytes)

  respond_lem :
      (s : Session ev) (counter : ℕ) (resources : Resources) (status : ℕ) (resp_buffer : List ℕ)
      → Answered s
          (respond ev req res peer now
            (record s { counter = counter; resources = resources })
            status
            resp_buffer)
          counter
          resources
          (proxy_msg (proxy_response_encode res status resp_buffer))
  unfolding respond
  respond_lem s counter resources status resp_buffer =
      let (output, added, grown) =
        laws.add s.output (proxy_msg (proxy_response_encode res status resp_buffer)) in
      rw (added, respond) (refl, refl, refl, refl, grown)

  answer_lem :
      (s : Session ev) (counter : ℕ) (resources : Resources) (outcome : Outcome)
      → (s' : Session ev) × (answer ev req res peer now s (some (counter, resources, outcome))
          ≡ some (s', ending outcome))
        × Answered s s' counter resources (reply res outcome)
  unfolding answer ending reply
  answer_lem s counter resources (invoked resp_buffer) = (
    respond ev req res peer now (record s { counter = counter; resources = resources }) 0
        resp_buffer,
    refl,
    respond_lem s counter resources 0 resp_buffer,
  )
  answer_lem s counter resources not_invoked = (
    respond ev req res peer now (record s { counter = counter; resources = resources }) 1 [],
    refl,
    respond_lem s counter resources 1 [],
  )
  answer_lem s counter resources in_progress = (
    record s { counter = counter; resources = resources },
    refl,
    (refl, refl, refl, refl, sym (append-nil (laws.content s.output))),
  )

  handle_body_lem :
      (s : Session ev) (m : SoaProxyRequest) (body : List ℕ)
      → req.unpack body ≡ some m
      → handle_body ev req res peer now s body
        ≡ answer ev req res peer now s (
            invoke_service peer now s.resources s.counter m.group_name m.service_name
              m.service_version m.request)
  unfolding handle_body proxy_request_decode
  handle_body_lem s m body e = rw (e, handle_body) refl

  readcb-ending :
      (s s' : Session ev) (outcome : Outcome)
      → handle_buffer ev req res peer now s ≡ some (s', ending outcome)
      → readcb ev req res peer now s ≡ some (s', ending outcome)
  unfolding readcb ending
  readcb-ending s s' (invoked resp_buffer) e = rw (e, readcb) refl
  readcb-ending s s' not_invoked e = rw (e, readcb) refl
  readcb-ending s s' in_progress e = rw (e, readcb) refl

  -- A whole request of a client that stands at the start of the buffer is taken from it, and only
  -- it; the agent calls the service that it names with its body, and the client is sent the body of
  -- the response with status 0, or status 1 when the call fails, and nothing while the call waits.
  -- The connection stays open, nothing faults, and the pools stay in step with the services.
  pub readcb_whole :
      (s : Session ev) (m : SoaProxyRequest) (rest : List ℕ)
      → CodecLaws req
      → 1 ≤ req.get_packed_size m
      → req.get_packed_size m < 2 ^ 32
      → laws.content s.input ≡ proxy_msg (req.pack m) ++ rest
      → InStep s.resources
      → PoolsSound s.resources.nodes
      → (counter : ℕ) × (r : Resources) × (outcome : Outcome) × (s' : Session ev) × (invoke_service
            peer now s.resources s.counter m.group_name m.service_name m.service_version m.request
          ≡ some (counter, r, outcome))
        × (readcb ev req res peer now s ≡ some (s', ending outcome))
        × (s'.resources ≡ r)
        × (s'.counter ≡ counter)
        × (s'.is_open ≡ s.is_open)
        × (laws.content s'.input ≡ rest)
        × (laws.content s'.output ≡ laws.content s.output ++ reply res outcome)
        × InStep r
        × PoolsSound r.nodes
  readcb_whole s m rest codec_laws h1 hl h v sound =
      let size = codec_laws.size m in
      let (input, taken, left) =
        handle_message_whole ev req res peer now laws s (req.pack m) rest (omega (arith, size)) h in
      let (counter, r, outcome, run, v', sound', same) =
        invoke_service_lem peer now s.resources s.counter m.group_name m.service_name
          m.service_version m.request v sound in
      let (s', answered, (counts, tables, inputs, opened, grown)) =
        answer_lem (record s { input = input }) counter r outcome in
      (
        counter,
        r,
        outcome,
        s',
        run,
        readcb-ending s s' outcome (
            handle_buffer_whole ev req res peer now laws s (req.pack m) rest (omega (arith, size)) h
            ∙ taken
            ∙ handle_body_lem (record s { input = input }) m (req.pack m) (codec_laws.unpacks m)
            ∙ ap (answer ev req res peer now (record s { input = input })) run
            ∙ answered),
        tables,
        counts,
        opened,
        ap laws.content inputs ∙ left,
        grown,
        v',
        sound',
      )
