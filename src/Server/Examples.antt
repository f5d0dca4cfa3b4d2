-- ===== src/Server/Examples.antt =====
-- The theorems on the server, with lists for the buffers of libevent.
use ddmframework.Common.{
  ℕ, ◌+◌, ◌%◌, ◌<◌, ◌^◌, ◌≡◌, refl, true, List, [], ◌∷◌, ◌++◌, Option, none, some, arith, length,
  take, drop, All,
}
use ddmframework.Url.{codes}
use ddmframework.ConnPool.Examples.{clock}
use ddmframework.Resource.{Resources}
use ddmframework.Resource.Sync.{InStep}
use ddmframework.Invoke.Call.{Outcome, invoke_service}
use ddmframework.Invoke.Invocation.{PoolsSound}
use ddmframework.Invoke.CallExamples.{
  answers, one_service, one_service-InStep, one_service-PoolsSound,
}
use ddmframework.Proxy.{
  SoaProxyRequest, SoaProxyResponse, Codec, request_of, response_of, proxy_msg,
}
use ddmframework.Proxy.Examples.{request_codec, request_codec-CodecLaws}
use ddmframework.Server.{Evbuffer, EvbufferLaws, Session, handled, readcb}
use ddmframework.Server.Answer.{readcb_incomplete}
use ddmframework.Server.Dialogue.{reply, ending, readcb_whole}
use ddmframework.Server.Accept.{do_accepts, served, dealt, too_large, do_accepts_lem}

abbrev pub lists : Evbuffer
lists = record {
  Buffer = List ℕ;
  evbuffer_get_length = λ b. length b;
  evbuffer_copyout = λ b n. take n b;
  evbuffer_drain = λ b n. some (drop n b);
  evbuffer_remove = λ b n. (take n b, drop n b);
  evbuffer_add = λ b bytes. some (b ++ bytes);
}

abbrev pub lists-EvbufferLaws : EvbufferLaws lists
lists-EvbufferLaws = record {
  content = λ b. b;
  get_length = λ b. refl;
  copyout = λ b n. refl;
  drain = λ b n h. (drop n b, refl, refl);
  remove = λ b n. (refl, refl);
  add = λ b bytes. (b ++ bytes, refl, refl);
}

pub unpacked : List ℕ → Option SoaProxyResponse
unpacked [] = none
unpacked (status ∷ response) = some (response_of status response)

abbrev pub response_codec : Codec SoaProxyResponse
response_codec = record {
  get_packed_size = λ m. length (m.status ∷ m.response);
  pack = λ m. m.status ∷ m.response;
  unpack = unpacked;
}

abbrev bill : SoaProxyRequest
bill = request_of (codes "pay") (codes "bill") (codes "1.0") (7 ∷ 8 ∷ [])

abbrev pub session : List ℕ → Session lists
session input = record {
  resources = one_service;
  counter = 7;
  input = input;
  output = [];
  is_open = true;
}

readcb_whole_example :
    (counter : ℕ) × (r : Resources) × (outcome : Outcome) × (s' : Session lists) × (invoke_service
        answers
        (clock 200)
        one_service
        7
        (codes "pay")
        (codes "bill")
        (codes "1.0")
        (7 ∷ 8 ∷ [])
      ≡ some (counter, r, outcome))
    × (readcb lists request_codec response_codec answers
          (clock 200)
          (session (proxy_msg (request_codec.pack bill) ++ (1 ∷ [])))
        ≡ some (s', ending outcome))
    × (s'.resources ≡ r)
    × (s'.counter ≡ counter)
    × (s'.is_open ≡ true)
    × (s'.input ≡ 1 ∷ [])
    × (s'.output ≡ reply response_codec outcome)
    × InStep r
    × PoolsSound r.nodes
readcb_whole_example =
    readcb_whole lists request_codec response_codec answers (clock 200) lists-EvbufferLaws
      (session (proxy_msg (request_codec.pack bill) ++ (1 ∷ []))) bill (1 ∷ [])
      request_codec-CodecLaws (omega arith) (omega arith) refl one_service-InStep
      one_service-PoolsSound

three_bytes : (0 ∷ 0 ∷ []) ++ (0 ∷ 3 ∷ 9 ∷ 9 ∷ 9 ∷ []) ≡ proxy_msg (9 ∷ 9 ∷ 9 ∷ [])
unfolding proxy_msg
three_bytes = refl

readcb_incomplete_example :
    readcb lists request_codec response_codec answers (clock 200) (session (0 ∷ 0 ∷ []))
    ≡ some (session (0 ∷ 0 ∷ []), handled)
readcb_incomplete_example =
    readcb_incomplete lists request_codec response_codec answers (clock 200) lists-EvbufferLaws
      (session (0 ∷ 0 ∷ [])) (9 ∷ 9 ∷ 9 ∷ []) (0 ∷ 3 ∷ 9 ∷ 9 ∷ 9 ∷ []) (omega arith) (omega arith)
      three_bytes

do_accepts_lem_example :
    (do_accepts
        (record {
          global_worker_num = 3;
          global_cycle_counter = 65_535;
          notified = [];
          closed = [];
        })
        (some 7 ∷ none ∷ some 2_000 ∷ some 8 ∷ [])
      ≡ some (record {
        global_worker_num = 3;
        global_cycle_counter =
            (65_535 + length (served (some 7 ∷ none ∷ some 2_000 ∷ some 8 ∷ []))) % 2 ^ 16;
        notified = dealt 3 65_535 0 (served (some 7 ∷ none ∷ some 2_000 ∷ some 8 ∷ []));
        closed = too_large (some 7 ∷ none ∷ some 2_000 ∷ some 8 ∷ []);
      }))
    × All
        (λ (p : ℕ × ℕ). p.0 < 3)
        (dealt 3 65_535 0 (served (some 7 ∷ none ∷ some 2_000 ∷ some 8 ∷ [])))
do_accepts_lem_example =
    do_accepts_lem 3 65_535 [] [] (some 7 ∷ none ∷ some 2_000 ∷ some 8 ∷ []) (omega arith)
      (omega arith)
