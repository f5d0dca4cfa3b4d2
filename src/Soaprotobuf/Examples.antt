-- ===== src/Soaprotobuf/Examples.antt =====
-- A request of a PHP client whose name holds a NUL, up to the agent's answer.
use ddmframework.Conn.{c_str}
use ddmframework.Common.{ℕ, ◌≡◌, refl, List, [], ◌∷◌, ◌++◌, some, arith}
use ddmframework.Url.{codes}
use ddmframework.ConnPool.Examples.{clock}
use ddmframework.Resource.{Resources}
use ddmframework.Resource.Sync.{InStep}
use ddmframework.Invoke.Call.{Outcome, invoke_service}
use ddmframework.Invoke.Invocation.{PoolsSound}
use ddmframework.Invoke.CallExamples.{
  answers, one_service, one_service-InStep, one_service-PoolsSound,
}
use ddmframework.Proxy.Examples.{request_codec, request_codec-CodecLaws}
use ddmframework.Server.{Session, readcb}
use ddmframework.Server.Examples.{lists, lists-EvbufferLaws, response_codec, session}
use ddmframework.Server.Dialogue.{reply, ending}
use ddmframework.Soaprotobuf.{prequest_encode, get_buffer_request_body, stringl}
use ddmframework.Soaprotobuf.Request.{php_request, readcb-get_buffer_request_body}

c_str_test : c_str (codes "pay" ++ 0 ∷ codes "x") ≡ codes "pay"
unfolding c_str
c_str_test = refl

abbrev pay : List ℕ
pay = codes "pay" ++ 0 ∷ []

abbrev message : List ℕ
message = prequest_encode request_codec pay (codes "bill") (codes "1.0") (7 ∷ 0 ∷ 8 ∷ [])

built :
    get_buffer_request_body request_codec (some (pay, codes "bill", codes "1.0", 7 ∷ 0 ∷ 8 ∷ []))
    ≡ stringl message
unfolding get_buffer_request_body
built = refl

small :
    request_codec.get_packed_size (php_request pay (codes "bill") (codes "1.0") (7 ∷ 0 ∷ 8 ∷ []))
    ≡ 16
unfolding c_str
small = refl

readcb-get_buffer_request_body_example :
    (counter : ℕ) × (r : Resources) × (outcome : Outcome) × (s' : Session lists) × (invoke_service
        answers
        (clock 200)
        one_service
        7
        (c_str pay)
        (c_str (codes "bill"))
        (c_str (codes "1.0"))
        (7 ∷ 0 ∷ 8 ∷ [])
      ≡ some (counter, r, outcome))
    × (readcb lists request_codec response_codec answers (clock 200) (session (message ++ 1 ∷ []))
        ≡ some (s', ending outcome))
    × (s'.input ≡ 1 ∷ [])
    × (s'.output ≡ reply response_codec outcome)
    × InStep s'.resources
    × PoolsSound s'.resources.nodes
readcb-get_buffer_request_body_example =
    readcb-get_buffer_request_body lists request_codec response_codec answers (clock 200)
      lists-EvbufferLaws (session (message ++ 1 ∷ [])) pay (codes "bill") (codes "1.0")
      (7 ∷ 0 ∷ 8 ∷ []) message (1 ∷ []) request_codec-CodecLaws (omega (arith, small))
      (omega (arith, small)) built refl one_service-InStep one_service-PoolsSound
