-- ===== src/Proxy/Examples.antt =====
-- The theorem on requests, with a codec that puts the lengths of the three names before them.
use ddmframework.Common.{
  ℕ, ◌≡◌, refl, List, [], ◌∷◌, ◌++◌, Option, none, some, arith, length, take, drop, take-append,
  drop-append, if◌then◌else◌, ltb,
}
use ddmframework.Socket.{RecvReply, SelectReply, send_done, readable}
use ddmframework.Socket.Transfer.{the_net, Takes}
use ddmframework.Protocol.Examples.{
  by_byte, sent_by_byte, by_byte-ReadsOn, sent_by_byte-SendsOn, sent_by_byte-Takes,
}
use ddmframework.Proxy.{
  SoaProxyRequest, Codec, CodecLaws, request_of, proxy_msg, proxy_request_encode,
  proxy_request_send, proxy_request_receive, receipt,
}
use ddmframework.Proxy.RoundTrip.{proxy_request_receive-proxy_request_send}

abbrev packed : SoaProxyRequest → List ℕ
packed m =
    length m.group_name
    ∷ length m.service_name
    ∷ length m.service_version
    ∷ (m.group_name ++ (m.service_name ++ (m.service_version ++ m.request)))

abbrev three_parts : ℕ → ℕ → ℕ → List ℕ → SoaProxyRequest
three_parts g s v rest =
    let after_group = drop g rest in
    let after_service = drop s after_group in
    request_of (take g rest) (take s after_group) (take v after_service) (drop v after_service)

abbrev unpacked : List ℕ → Option SoaProxyRequest
unpacked [] = none
unpacked (g ∷ []) = none
unpacked (g ∷ s ∷ []) = none
unpacked (g ∷ s ∷ v ∷ rest) = some (three_parts g s v rest)

abbrev pub request_codec : Codec SoaProxyRequest
request_codec = record {
  get_packed_size = λ m. length (packed m);
  pack = packed;
  unpack = unpacked;
}

pub request_codec-CodecLaws : CodecLaws request_codec
request_codec-CodecLaws = record {
  size = λ m. refl;
  unpacks = λ m.
      let after_service = m.service_version ++ m.request in
      let after_group = m.service_name ++ after_service in
      rw
        (
          take-append m.group_name after_group,
          drop-append m.group_name after_group,
          take-append m.service_name after_service,
          drop-append m.service_name after_service,
          take-append m.service_version m.request,
          drop-append m.service_version m.request,
        )
        refl;
}

bill-Takes :
    Takes
      (sent_by_byte 12)
      (proxy_msg (proxy_request_encode request_codec (1 ∷ []) (2 ∷ []) (3 ∷ []) (7 ∷ 8 ∷ [])))
unfolding proxy_msg proxy_request_encode
bill-Takes =
    sent_by_byte-Takes
      (proxy_msg (proxy_request_encode request_codec (1 ∷ []) (2 ∷ []) (3 ∷ []) (7 ∷ 8 ∷ [])))

proxy_request_receive-proxy_request_send_example :
    ((proxy_request_send request_codec (sent_by_byte 12) (1 ∷ []) (2 ∷ []) (3 ∷ []) (7 ∷ 8 ∷ [])).0
      ≡ send_done)
    × (later : List RecvReply) × (selects_left : List SelectReply) × (proxy_request_receive
          request_codec
          (the_net
            ((proxy_request_send request_codec
                (sent_by_byte 12)
                (1 ∷ [])
                (2 ∷ [])
                (3 ∷ [])
                (7 ∷ 8 ∷ [])).1
              ++ (9 ∷ []))
            (by_byte 12)
            (readable ∷ []))
        ≡ (
          receipt
              (if ltb 0 8 then some (request_of (1 ∷ []) (2 ∷ []) (3 ∷ []) (7 ∷ 8 ∷ [])) else none),
          the_net (9 ∷ []) later selects_left,
        ))
proxy_request_receive-proxy_request_send_example =
    proxy_request_receive-proxy_request_send request_codec (1 ∷ []) (2 ∷ []) (3 ∷ []) (7 ∷ 8 ∷ [])
      (9 ∷ []) (sent_by_byte 12) (by_byte 12) [] request_codec-CodecLaws (omega arith) bill-Takes
      (sent_by_byte-SendsOn 12) (omega arith) (by_byte-ReadsOn 12) (omega arith)
