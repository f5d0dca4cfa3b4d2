-- ===== src/Invoke/CallExamples.antt =====
-- The theorems on a call of a service, where the pool of the node has two idle connections and the
-- peer answers with three bytes, each of which the kernel hands out on its own.
use ddmframework.StringArray.{StringArray}
use ddmframework.Common.{
  Bool, false, has, str_eq, ℕ, ◌≤◌, ◌≡◌, refl, true, [], ◌∷◌, some, none, arith, table_find,
  if◌then◌else◌, Key,
}
use ddmframework.Url.{codes}
use ddmframework.Conn.{Store}
use ddmframework.ConnPool.{Pool}
use ddmframework.ConnPool.Invariant.{Inv}
use ddmframework.ConnPool.Examples.{clock, store, pool, lent_Inv}
use ddmframework.Protocol.Examples.{by_byte, sent_by_byte}
use ddmframework.ServiceResource.{uses}
use ddmframework.ServiceResource.Members.{serves}
use ddmframework.Resource.{Resources}
use ddmframework.Resource.Sync.{InStep, is_some}
use ddmframework.Invoke.Call.{Peer, Outcome, call_on_pool, invoke_service, biz_res_msg_type}
use ddmframework.Invoke.Exchange.{responds}
use ddmframework.Invoke.Service.{GivesBack, Ends, call_on_pool_lem}
use ddmframework.Invoke.Invocation.{PoolsSound, invoke_service_lem}

abbrev pub answers : ℕ → Peer
answers i = responds (sent_by_byte 18) (by_byte 19) [] 8 biz_res_msg_type (4 ∷ 5 ∷ 6 ∷ []) []

call_on_pool_lem_example :
    (counter' : ℕ) × (st' : Store) × (pool' : Pool) × (outcome : Outcome) × (call_on_pool answers
        (clock 200)
        (store true)
        (pool (0 ∷ 1 ∷ []) (2 ∷ []))
        7
        (7 ∷ 8 ∷ [])
      ≡ some (counter', st', pool', outcome))
    × Inv st' pool'
    × (3 ≤ st'.next_conn)
    × GivesBack (pool (0 ∷ 1 ∷ []) (2 ∷ [])) pool' outcome
    × Ends answers (store true) (pool (0 ∷ 1 ∷ []) (2 ∷ [])) 7 (7 ∷ 8 ∷ []) counter' outcome
call_on_pool_lem_example = call_on_pool_lem answers (clock 200) 7 (7 ∷ 8 ∷ []) lent_Inv

abbrev only_item : StringArray
only_item = record { strs = codes "10.0.0.1#80" ∷ []; counter = 0 }

only : {A : Type 0} → (b : Bool) (x y : A) → (if b then some x else none) ≡ some y → x ≡ y
only true x y e = cc
only false x y e = absurd (cc)

-- One service with one provider.
abbrev pub one_service : Resources
one_service = record {
  nodes = record {
    table = (codes "10.0.0.1#80", pool (0 ∷ 1 ∷ []) (2 ∷ [])) ∷ [];
    store = store true;
    leaving = [];
  };
  services = (codes "pay#bill#1.0", only_item) ∷ [];
}

pub one_service-InStep : InStep one_service
unfolding table_find is_some uses has
one_service-InStep = record {
  services = record {
    table = (refl, tt);
    items = λ key item e.
        let same : only_item ≡ item = only (str_eq (codes "pay#bill#1.0") key) only_item item e in
        rw⁻¹ same ((refl, tt), (λ h. cc));
  };
  nodes = (refl, tt);
  same = λ node. ground arith;
}

pub one_service-PoolsSound : PoolsSound one_service.nodes
unfolding table_find
one_service-PoolsSound = record {
  pools = λ key p e.
      let same : pool (0 ∷ 1 ∷ []) (2 ∷ []) ≡ p =
        only (str_eq (codes "10.0.0.1#80") key) (pool (0 ∷ 1 ∷ []) (2 ∷ [])) p e in
      rw⁻¹ same lent_Inv;
}

invoke_service_lem_example :
    (counter' : ℕ) × (r' : Resources) × (outcome : Outcome) × (invoke_service answers
        (clock 200)
        one_service
        7
        (codes "pay")
        (codes "bill")
        (codes "1.0")
        (7 ∷ 8 ∷ [])
      ≡ some (counter', r', outcome))
    × InStep r'
    × PoolsSound r'.nodes
    × ((k n : Key) → serves k n r'.services ≡ serves k n one_service.services)
invoke_service_lem_example =
    invoke_service_lem answers (clock 200) one_service 7 (codes "pay") (codes "bill") (codes "1.0")
      (7 ∷ 8 ∷ []) one_service-InStep one_service-PoolsSound
