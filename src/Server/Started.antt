-- ===== src/Server/Started.antt =====
-- soaagent/server.c: the start of the server fails, or gives the main thread its workers.
use ddmframework.Common.{
  ℕ, zero, suc, ◌^◌, ◌≡◌, refl, ap, ◌∙◌, inl, inr, true, ◌⊎◌, Bool-cases, Option-cases, List, [],
  ◌∷◌, ◌++◌, Option, none, some, arith, length, All, leb, not,
}
use ddmframework.Url.{codes}
use ddmframework.Conn.{snprintf_s}
use ddmframework.Server.Startup.{
  Answers, WorkerInfo, Running, first_acceptor, print2, set_up_worker, set_up_workers,
  start_workers, tcp_server_startup_with_multibase,
}

-- The i-th worker when it has been started.
abbrev pub worker_at : (pair : ℕ → ℕ × ℕ) → ℕ → WorkerInfo
worker_at pair i = record {
  thread_name = snprintf_s 20 (codes "worker-" ++ print2 i);
  notify_receive_fd = (pair i).0;
  notify_send_fd = (pair i).1;
  running = true;
  clients = [];
  taken = 0;
}

unfoldable pub workers_from : (pair : ℕ → ℕ × ℕ) → (i left : ℕ) → List WorkerInfo
workers_from pair i zero = []
workers_from pair i (suc left) = worker_at pair i ∷ workers_from pair (suc i) left

-- Workers that have no client yet.
abbrev pub Fresh : List WorkerInfo → Type 0
Fresh = All (λ (w : WorkerInfo). (w.clients ≡ []) × (w.taken ≡ 0))

-- A loop fails, or gives as many workers as were asked for, with no client.
abbrev Loop : (result : Option (List WorkerInfo)) → (n : ℕ) → Type 0
Loop result n =
    (result ≡ none) ⊎ ((ws : List WorkerInfo) × (result ≡ some ws) × (length ws ≡ n) × Fresh ws)

-- The start fails, or gives the main thread its workers.
abbrev pub Started : Option Running → ℕ → Type 0
Started result n =
    (result ≡ none)
    ⊎ ((r : Running) × (result ≡ some r)
        × (r.acceptor ≡ first_acceptor n)
        × (length r.workers ≡ n)
        × Fresh r.workers)

module _ (answers : Answers) where
  set_up_worker-Fresh :
      (i : ℕ) (w : WorkerInfo) → set_up_worker answers i ≡ some w → (w.clients ≡ []) × (w.taken ≡ 0)
  unfolding set_up_worker
  set_up_worker-Fresh i w e = (ground arith, ground arith)

  set_up_workers-Loop : (i n : ℕ) → Loop (set_up_workers answers i n) n
  unfolding set_up_workers
  set_up_workers-Loop i zero = inr ([], refl, refl, tt)
  set_up_workers-Loop i (suc n) = elim (Option-cases (set_up_worker answers i)) [
    | inl e ↦ inl (rw (e, set_up_workers) refl)
    | inr (w, e) ↦ elim (set_up_workers-Loop (suc i) n) [
      | inl more ↦ inl (rw (e, set_up_workers) (rw (more, set_up_workers) refl))
      | inr (ws, more, same, fresh) ↦ inr (
        w ∷ ws,
        rw (e, set_up_workers) (rw (more, set_up_workers) refl),
        ap suc same,
        (set_up_worker-Fresh i w e, fresh),
      )
    ]
  ]

  start_workers-Loop :
      (i : ℕ) (ws : List WorkerInfo) → Fresh ws → Loop (start_workers answers i ws) (length ws)
  unfolding start_workers
  start_workers-Loop i [] fresh = inr ([], refl, refl, tt)
  start_workers-Loop i (w ∷ ws) (h, fresh) = elim (Bool-cases (answers.pthread_create i)) [
    | inl e ↦ elim (start_workers-Loop (suc i) ws fresh) [
      | inl more ↦ inl (rw e (rw (more, start_workers) refl))
      | inr (ws', more, same, fresh') ↦ inr (
        record w { running = true } ∷ ws',
        rw e (rw (more, start_workers) refl),
        ap suc same,
        (h, fresh'),
      )
    ]
    | inr e ↦ inl (rw e refl)
  ]

  -- The two loops of the start.
  workers-Started :
      (n : ℕ)
      → Started
          (elim (set_up_workers answers 0 n) [
            | none ↦ none
            | some list ↦ elim (start_workers answers 0 list) [
              | none ↦ none
              | some workers ↦ some (record { acceptor = first_acceptor n; workers = workers })
            ]
          ])
          n
  workers-Started n = elim (set_up_workers-Loop 0 n) [
    | inl e ↦ inl (rw e refl)
    | inr (list, e, same, fresh) ↦ elim (start_workers-Loop 0 list fresh) [
      | inl f ↦ inl (rw e (rw f refl))
      | inr (ws, f, same', fresh') ↦ inr (
        record { acceptor = first_acceptor n; workers = ws },
        rw e (rw f refl),
        refl,
        same' ∙ same,
        fresh',
      )
    ]
  ]

  pub startup-Started : (n : ℕ) → Started (tcp_server_startup_with_multibase answers n) n
  unfolding tcp_server_startup_with_multibase
  startup-Started n = elim (Bool-cases (leb (2 ^ 31) n)) [
    | inl e ↦ inl (rw e refl)
    | inr small ↦ elim (Bool-cases (not answers.event_base_new)) [
      | inl e ↦ inl (rw small (rw e refl))
      | inr based ↦ elim (Bool-cases (not answers.bind)) [
        | inl e ↦ inl (rw small (rw based (rw e refl)))
        | inr bound ↦ elim (Bool-cases (not answers.listen)) [
          | inl e ↦ inl (rw small (rw based (rw bound (rw e refl))))
          | inr listens ↦ rw small (rw based (rw bound (rw listens (workers-Started n))))
        ]
      ]
    ]
  ]
