-- ===== src/Soaprotobuf.antt =====
-- soaprotobuf/soaprotobuf.c: the PHP extension with which a local client builds a request for the
-- agent. The generated code that packs a message is a parameter.
mod Request
mod Examples
use ddmframework.Conn.{c_str}
use ddmframework.Common.{
  ℕ, List, [], ◌∷◌, ◌++◌, Option, none, some, length, ltb, ◌==◌, if◌then◌else◌,
}
use ddmframework.Protocol.{be32}
use ddmframework.Proxy.{SoaProxyRequest, Codec, request_of}

-- What a function returns to PHP.
pub data Zval : Type 0 where
  null_value : Zval
  stringl : List ℕ → Zval

module _ (codec : Codec SoaProxyRequest) where
  -- The names are strings of C; the body has its own length.
  unfoldable pub proxy_request_encode :
      (group service_name service_version request_body : List ℕ) → List ℕ
  unfolding c_str
  proxy_request_encode group service_name service_version request_body =
      let msg =
        request_of (c_str group) (c_str service_name) (c_str service_version) request_body in
      if ltb 0 (codec.get_packed_size msg) then codec.pack msg else []

  -- The header, then the packed message. The result is always 1.
  unfoldable pub prequest_encode :
      (group service_name service_version request_body : List ℕ) → List ℕ
  unfolding proxy_request_encode be32
  prequest_encode group service_name service_version request_body =
      let buffer = proxy_request_encode group service_name service_version request_body in
      be32 (length buffer) ++ buffer

  -- `none` is a call whose arguments are not four strings.
  unfoldable pub get_buffer_request_body : Option (List ℕ × List ℕ × List ℕ × List ℕ) → Zval
  unfolding prequest_encode
  get_buffer_request_body none = null_value
  get_buffer_request_body (some (group_name, service_name, version, req_body)) =
      stringl (prequest_encode group_name service_name version req_body)
