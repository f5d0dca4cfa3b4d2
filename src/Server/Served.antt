-- ===== src/Server/Served.antt =====
-- soaagent/server.c: the server from its start on, while connections come and the workers take them.
use ddmframework.Common.{
  ℕ, zero, suc, ◌+◌, ◌≡◌, refl, sym, ap, subst, ◌∙◌, inl, inr, Option-cases, List, [], ◌∷◌, Option,
  none, some, length, count,
}
use ddmframework.Config.{get_config_item_int, parse_addr}
use ddmframework.Server.{Acceptor}
use ddmframework.Server.Startup.{
  Answers, WorkerInfo, Running, first_acceptor, tcp_server_startup_with_multibase, launched,
  launch_fault, launch, server_startup_multibase,
}
use ddmframework.Server.Started.{Fresh, Started, startup-Started}
use ddmframework.Server.Handover.{pipe, Handed, Inv}

-- The descriptors in the pipes of `k` workers from the i-th on.
spread : (i k : ℕ) → (fd : ℕ) → (notified : List (ℕ × ℕ)) → ℕ
spread i zero fd notified = 0
spread i (suc k) fd notified = count fd (pipe i notified) + spread (suc i) k fd notified

launch-Started :
    (o : Option Running) (n : ℕ) (r : Running)
    → Started o n
    → launch o ≡ launched r
    → (r.acceptor ≡ first_acceptor n) × (length r.workers ≡ n) × Fresh r.workers
unfolding launch
launch-Started none n r h e = cc
launch-Started (some r') n r (inl h) e = cc
launch-Started (some r') n r (inr (r'', h, main, same, fresh)) e =
    let equal : r'' ≡ r = cc in
    subst
      (λ (t : Running). (t.acceptor ≡ first_acceptor n) × (length t.workers ≡ n) × Fresh t.workers)
      equal (main, same, fresh)

Fresh-Handed : (i : ℕ) (ws : List WorkerInfo) → Fresh ws → Handed i ws []
unfolding pipe
Fresh-Handed i [] h = tt
Fresh-Handed i (w ∷ ws) ((e, n), h) = (([], rw e refl, rw (e, n) refl), Fresh-Handed (suc i) ws h)

pub launched-Inv :
    (answers : Answers) (value : Option (List ℕ)) (listen_addr : List ℕ) (r : Running)
    → server_startup_multibase answers value listen_addr ≡ launched r
    → Inv r
unfolding server_startup_multibase
launched-Inv answers value listen_addr r e = elim (Option-cases (parse_addr listen_addr 20)) [
  | inl bad ↦ cc (rw (bad, server_startup_multibase) at e)
  | inr (address, good) ↦ elim (Option-cases (get_config_item_int value 10)) [
    | inl bad ↦
        cc (rw (bad, server_startup_multibase) at (rw (good, server_startup_multibase) at e))
    | inr (n, number) ↦
        let (main, same, fresh) =
          launch-Started (tcp_server_startup_with_multibase answers n) n r
            (startup-Started answers n)
            (rw (number, server_startup_multibase) at (rw (good, server_startup_multibase) at e)) in
        record {
          total = ap (λ (a : Acceptor). a.global_worker_num) main ∙ sym same;
          within = rw main tt;
          handed = rw main (Fresh-Handed 0 r.workers fresh);
        }
  ]
]

launch-ne-launch_fault : (o : Option Running) → launch o ≡ launch_fault → ⊥
unfolding launch
launch-ne-launch_fault none e = cc
launch-ne-launch_fault (some r) e = cc

-- A start faults only for a number that overruns its buffer.
pub launch_fault-none :
    (answers : Answers) (value : Option (List ℕ)) (listen_addr : List ℕ)
    → server_startup_multibase answers value listen_addr ≡ launch_fault
    → get_config_item_int value 10 ≡ none
unfolding server_startup_multibase
launch_fault-none answers value listen_addr e = elim (Option-cases (parse_addr listen_addr 20)) [
  | inl bad ↦ cc (rw (bad, server_startup_multibase) at e)
  | inr (address, good) ↦ elim (Option-cases (get_config_item_int value 10)) [
    | inl bad ↦ bad
    | inr (n, number) ↦ absurd (
        launch-ne-launch_fault (tcp_server_startup_with_multibase answers n)
          (rw (number, server_startup_multibase) at (rw (good, server_startup_multibase) at e)))
  ]
]
