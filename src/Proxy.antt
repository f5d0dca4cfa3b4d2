-- ===== src/Proxy.antt =====
-- soaagent/proxy_message.c: the messages between a local client and the agent, with the structs of
-- soaagent/soa_proxy_msg.proto. The generated code that packs and unpacks them is a parameter.
pub mod RoundTrip
pub mod Examples
use ddmframework.Common.{
  ℕ, zero, ◌+◌, ◌<◌, ◌^◌, ◌≡◌, List, [], ◌∷◌, ◌++◌, Option, none, some, length, ltb, ◌==◌,
  if◌then◌else◌, IsBytes,
}
use ddmframework.Socket.{
  SendReply, SendStatus, socket_send, Net, Received, received, timed_out, receive_failed,
  peer_shutdown, receive_waiting, socket_receive,
}
use ddmframework.Protocol.{be32, read_be32}

pub record SoaProxyRequest : Type 0 where
  pub group_name : List ℕ
  pub service_name : List ℕ
  pub service_version : List ℕ
  pub request : List ℕ

-- `status` is an int32 that is never negative here.
pub record SoaProxyResponse : Type 0 where
  pub status : ℕ
  pub response : List ℕ

-- The generated functions of one message: its packed size, packing, and unpacking, which gives NULL
-- for bytes that are no such message.
pub record Codec (M : Type 0) : Type 0 where
  pub get_packed_size : M → ℕ
  pub pack : M → List ℕ
  pub unpack : List ℕ → Option M

-- What the protobuf library documents of them.
pub record CodecLaws {M : Type 0} (codec : Codec M) : Type 0 where
  pub size : (m : M) → length (codec.pack m) ≡ codec.get_packed_size m
  pub unpacks : (m : M) → codec.unpack (codec.pack m) ≡ some m

-- sizeof(proxy_msg_header)
abbrev pub proxy_msg_header_size : ℕ
proxy_msg_header_size = 4

-- The header, which is the length of the body, and the body.
unfoldable pub proxy_msg : List ℕ → List ℕ
unfolding be32
proxy_msg body = be32 (length body) ++ body

abbrev pub request_of : (group service_name service_version request_body : List ℕ) → SoaProxyRequest
request_of group service_name service_version request_body = record {
  group_name = group;
  service_name = service_name;
  service_version = service_version;
  request = request_body;
}

abbrev pub response_of : ℕ → List ℕ → SoaProxyResponse
response_of status response_body = record { status = status; response = response_body }

unfoldable pub proxy_request_encode :
    Codec SoaProxyRequest → (group service_name service_version request_body : List ℕ) → List ℕ
proxy_request_encode codec group service_name service_version request_body =
    let msg = request_of group service_name service_version request_body in
    if ltb 0 (codec.get_packed_size msg) then codec.pack msg else []

unfoldable pub proxy_response_encode :
    Codec SoaProxyResponse → ℕ → (response_body : List ℕ) → List ℕ
proxy_response_encode codec status response_body =
    let msg = response_of status response_body in
    if ltb 0 (codec.get_packed_size msg) then codec.pack msg else []

-- `none` is the result -1.
unfoldable pub proxy_request_decode : Codec SoaProxyRequest → List ℕ → Option SoaProxyRequest
proxy_request_decode codec buffer = codec.unpack buffer

unfoldable pub proxy_response_decode : Codec SoaProxyResponse → List ℕ → Option SoaProxyResponse
proxy_response_decode codec buffer = codec.unpack buffer

unfoldable pub proxy_request_send :
    Codec SoaProxyRequest
    → List SendReply
    → (group service_name service_version request_body : List ℕ) → SendStatus × List ℕ
unfolding socket_send proxy_msg proxy_request_encode
proxy_request_send codec replies group service_name service_version request_body =
    socket_send replies
      (proxy_msg (proxy_request_encode codec group service_name service_version request_body))

unfoldable pub proxy_response_send :
    Codec SoaProxyResponse → List SendReply → ℕ → (response_body : List ℕ) → SendStatus × List ℕ
unfolding socket_send proxy_msg proxy_response_encode
proxy_response_send codec replies status response_body =
    socket_send replies (proxy_msg (proxy_response_encode codec status response_body))

-- How a message is received: 0 with the message or NULL, -1, or not yet.
pub data Receipt (M : Type 0) : Type 0 where
  receipt : Option M → Receipt M
  no_receipt : Receipt M
  receipt_waiting : Receipt M

unfoldable pub decoded : {M : Type 0} → Option M → Receipt M
decoded none = no_receipt
decoded (some m) = receipt (some m)

unfoldable pub after_proxy_body :
    {M : Type 0} → (List ℕ → Option M) → Received × Net → Receipt M × Net
unfolding decoded
after_proxy_body decode (received body_value, net) = (decoded (decode body_value), net)
after_proxy_body decode (receive_waiting, net) = (receipt_waiting, net)
after_proxy_body decode (timed_out, net) = (no_receipt, net)
after_proxy_body decode (receive_failed, net) = (no_receipt, net)
after_proxy_body decode (peer_shutdown, net) = (no_receipt, net)

-- A header that announces no body ends the message.
unfoldable pub after_proxy_header :
    {M : Type 0} → (List ℕ → Option M) → Received × Net → Receipt M × Net
unfolding after_proxy_body read_be32 socket_receive
after_proxy_header decode (received header, net) =
    if read_be32 header == 0
    then (receipt none, net)
    else after_proxy_body decode (socket_receive net (read_be32 header) 3)
after_proxy_header decode (receive_waiting, net) = (receipt_waiting, net)
after_proxy_header decode (timed_out, net) = (no_receipt, net)
after_proxy_header decode (receive_failed, net) = (no_receipt, net)
after_proxy_header decode (peer_shutdown, net) = (no_receipt, net)

-- The timeout -1 of the header of a request is, like 0, none.
unfoldable pub proxy_request_receive : Codec SoaProxyRequest → Net → Receipt SoaProxyRequest × Net
unfolding after_proxy_header socket_receive proxy_request_decode
proxy_request_receive codec net =
    after_proxy_header (proxy_request_decode codec) (socket_receive net proxy_msg_header_size 0)

unfoldable pub proxy_response_receive :
    Codec SoaProxyResponse → Net → Receipt SoaProxyResponse × Net
unfolding after_proxy_header socket_receive proxy_response_decode
proxy_response_receive codec net =
    after_proxy_header (proxy_response_decode codec) (socket_receive net proxy_msg_header_size 3)
