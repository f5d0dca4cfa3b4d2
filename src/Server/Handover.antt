-- ===== src/Server/Handover.antt =====
-- soaagent/server.c: every connection that the main thread gives away reaches one worker.
use native.Mathlib.Nat.{mod-lt}
use ddmframework.Common.{
  drop-append, length-append, ℕ, zero, suc, ◌+◌, ◌%◌, ◌<◌, ◌≤◌, ◌≡◌, refl, sym, ap, subst, ◌∙◌, inl,
  inr, true, false, Bool-cases, Option-cases, List, [], ◌∷◌, ◌++◌, append_assoc, append-nil, Option,
  none, some, arith, length, get_elem?, drop, count, All, All-append, ltb, ◌==◌, if◌then◌else◌,
}
use ddmframework.Server.{Acceptor, fd_setsize, get_next_worker_index, do_accept}
use ddmframework.Server.Startup.{WorkerInfo, Running, do_handle_notify}

-- What was written to the pipe of a worker, in order.
unfoldable pub pipe : ℕ → (notified : List (ℕ × ℕ)) → List ℕ
pipe i [] = []
pipe i ((worker_index, fd) ∷ later) =
    let rest = pipe i later in if worker_index == i then fd ∷ rest else rest

-- The descriptors that were given away.
unfoldable pub given : (notified : List (ℕ × ℕ)) → List ℕ
given [] = []
given ((worker_index, fd) ∷ later) = fd ∷ given later

-- What `recv` takes from the pipe of a worker.
unfoldable pub received_by : Option ℕ → WorkerInfo → WorkerInfo
received_by none w = w
received_by (some fd) w = record w { taken = suc w.taken }

-- A worker reads the next descriptor of its pipe, whatever it does with it.
unfoldable pub notify_at : ℕ → (received : Option ℕ) → List WorkerInfo → List WorkerInfo
unfolding do_handle_notify received_by
notify_at i received [] = []
notify_at zero received (w ∷ ws) = do_handle_notify (received_by received w) received ∷ ws
notify_at (suc i) received (w ∷ ws) = w ∷ notify_at i received ws

-- The threads in any order: the main thread accepts, a worker takes the descriptor that follows
-- those it has taken, or its `recv` gives nothing.
pub data Step : Running → Running → Type 0 where
  accepts :
      (s : Running) (a : Acceptor) (accepted : Option ℕ)
      → do_accept s.acceptor accepted ≡ some a
      → Step s (record s { acceptor = a })
  takes :
      (s : Running) (i : ℕ) (w : WorkerInfo) (fd : ℕ) (unread : List ℕ)
      → get_elem? s.workers i ≡ some w
      → drop w.taken (pipe i s.acceptor.notified) ≡ fd ∷ unread
      → Step s (record s { workers = notify_at i (some fd) s.workers })
  fails : (s : Running) (i : ℕ) → Step s (record s { workers = notify_at i none s.workers })

pub data Reach (s : Running) : Running → Type 0 where
  here : Reach s s
  next : {t u : Running} → Reach s t → Step t u → Reach s u

-- How often a descriptor stands at the workers from the i-th on: registered there, or in the pipe
-- behind those that `recv` has taken.
unfoldable pub held : (i : ℕ) → (fd : ℕ) → List WorkerInfo → (notified : List (ℕ × ℕ)) → ℕ
held i fd [] notified = 0
held i fd (w ∷ ws) notified =
    count fd w.clients + count fd (drop w.taken (pipe i notified)) + held (suc i) fd ws notified

-- The clients of each worker are the descriptors that were taken, the first of its pipe.
abbrev pub Handed : (i : ℕ) → List WorkerInfo → (notified : List (ℕ × ℕ)) → Type 0
Handed i [] notified = Unit {0}
Handed i (w ∷ ws) notified =
    ((unread : List ℕ) × (pipe i notified ≡ w.clients ++ unread) × (w.taken ≡ length w.clients))
    × Handed (suc i) ws notified

pipe-append : (i : ℕ) (xs ys : List (ℕ × ℕ)) → pipe i (xs ++ ys) ≡ pipe i xs ++ pipe i ys
unfolding pipe
pipe-append i [] ys = refl
pipe-append i ((j, fd) ∷ xs) ys = ground (arith, pipe-append i xs ys)

Handed-more :
    (i : ℕ) (ws : List WorkerInfo) (xs ys : List (ℕ × ℕ)) → Handed i ws xs → Handed i ws (xs ++ ys)
Handed-more i [] xs ys h = tt
Handed-more i (w ∷ ws) xs ys ((unread, e, n), h) = (
  (
    unread ++ pipe i ys,
    pipe-append i xs ys ∙ ap (λ p. p ++ pipe i ys) e ∙ append_assoc w.clients unread (pipe i ys),
    n,
  ),
  Handed-more (suc i) ws xs ys h,
)

some_injective {ℓ} : {A : Type ℓ} (x y : A) → some x ≡ some y → x ≡ y
some_injective x y e = cc

Handed-takes :
    (i k : ℕ) (ws : List WorkerInfo) (w : WorkerInfo) (fd : ℕ) (unread : List ℕ)
    (notified : List (ℕ × ℕ))
    → get_elem? ws k ≡ some w
    → drop w.taken (pipe (i + k) notified) ≡ fd ∷ unread
    → Handed i ws notified
    → Handed i (notify_at k (some fd) ws) notified
unfolding notify_at do_handle_notify received_by
Handed-takes i k [] w fd unread notified e p h = tt
Handed-takes i zero (x ∷ ws) w fd unread notified e p ((left, whole, n), h) =
    let same : x ≡ w = some_injective x w e in
    let rest : left ≡ fd ∷ unread =
      sym (drop-append x.clients left)
      ∙ ap (λ l. drop (length x.clients) l) (sym whole)
      ∙ ap (λ (l : ℕ). drop l (pipe i notified)) (sym n)
      ∙ ap (λ (v : WorkerInfo). drop v.taken (pipe i notified)) same
      ∙ ap (λ (j : ℕ). drop w.taken (pipe j notified)) (omega arith)
      ∙ p in
    (
      (
        unread,
        whole ∙ ap (λ l. x.clients ++ l) rest ∙ sym (append_assoc x.clients (fd ∷ []) unread),
        omega (arith, n, length-append x.clients (fd ∷ [])),
      ),
      h,
    )
Handed-takes i (suc k) (x ∷ ws) w fd unread notified e p (hx, h) = (
  hx,
  Handed-takes (suc i) k ws w fd unread notified e
      (ap (λ (j : ℕ). drop w.taken (pipe j notified)) (omega arith) ∙ p) h,
)

Handed-fails :
    (i k : ℕ) (ws : List WorkerInfo) (notified : List (ℕ × ℕ))
    → Handed i ws notified
    → Handed i (notify_at k none ws) notified
unfolding notify_at do_handle_notify received_by
Handed-fails i k [] notified h = tt
Handed-fails i zero (x ∷ ws) notified h = h
Handed-fails i (suc k) (x ∷ ws) notified (hx, h) = (hx, Handed-fails (suc i) k ws notified h)

length-notify_at :
    (k : ℕ) (received : Option ℕ) (ws : List WorkerInfo)
    → length (notify_at k received ws) ≡ length ws
unfolding notify_at
length-notify_at k received [] = refl
length-notify_at zero received (w ∷ ws) = refl
length-notify_at (suc k) received (w ∷ ws) = ap suc (length-notify_at k received ws)

-- `accept` gives away at most one descriptor, to a worker that exists.
abbrev Granted : (a a' : Acceptor) → Type 0
Granted a a' =
    (a'.global_worker_num ≡ a.global_worker_num)
    × (more : List (ℕ × ℕ)) × (a'.notified ≡ a.notified ++ more)
    × All (λ (p : ℕ × ℕ). p.0 < a.global_worker_num) more

next_index-lt :
    (counter n index counter' : ℕ)
    → get_next_worker_index counter n ≡ some (index, counter')
    → index < n
unfolding get_next_worker_index
next_index-lt counter zero index counter' e = cc
next_index-lt counter (suc n) index counter' e =
    let same : counter % suc n ≡ index = cc in
    omega (arith, mod-lt counter {m = suc n} (omega arith))

module _ (a : Acceptor) (fd : ℕ) where
  accept_large :
      ltb fd_setsize fd ≡ true
      → do_accept a (some fd) ≡ some (record a { closed = a.closed ++ fd ∷ [] })
  unfolding do_accept
  accept_large e = rw e refl

  accept_none :
      ltb fd_setsize fd ≡ false
      → get_next_worker_index a.global_cycle_counter a.global_worker_num ≡ none
      → do_accept a (some fd) ≡ none
  unfolding do_accept
  accept_none e n = rw e (rw (n, do_accept) refl)

  accept_given :
      (index counter : ℕ)
      → ltb fd_setsize fd ≡ false
      → get_next_worker_index a.global_cycle_counter a.global_worker_num ≡ some (index, counter)
      → do_accept a (some fd)
        ≡ some
            (record a { global_cycle_counter = counter; notified = a.notified ++ (index, fd) ∷ [] })
  unfolding do_accept
  accept_given index counter e n = rw e (rw (n, do_accept) refl)

do_accept-none : (a : Acceptor) → do_accept a none ≡ some a
unfolding do_accept
do_accept-none a = refl

get_next_worker_index-some :
    (counter n : ℕ) → 1 ≤ n → (next : ℕ × ℕ) × (get_next_worker_index counter n ≡ some next)
unfolding get_next_worker_index
get_next_worker_index-some counter zero h = absurd (omega arith)
get_next_worker_index-some counter (suc n) h = (_, refl)

-- With a worker, an `accept` does not fault.
pub do_accept-some :
    (a : Acceptor) (accepted : Option ℕ)
    → 1 ≤ a.global_worker_num
    → (a' : Acceptor) × (do_accept a accepted ≡ some a')
do_accept-some a none h = (a, do_accept-none a)
do_accept-some a (some fd) h = elim (Bool-cases (ltb fd_setsize fd)) [
  | inl large ↦ (_, accept_large a fd large)
  | inr small ↦
      let ((index, counter), n) =
        get_next_worker_index-some a.global_cycle_counter a.global_worker_num h in
      (_, accept_given a fd index counter small n)
]

pub do_accept-Granted :
    (a a' : Acceptor) (accepted : Option ℕ) → do_accept a accepted ≡ some a' → Granted a a'
do_accept-Granted a a' none e =
    subst (Granted a) (some_injective a a' (sym (do_accept-none a) ∙ e))
      (refl, [], sym (append-nil a.notified), tt)
do_accept-Granted a a' (some fd) e = elim (Bool-cases (ltb fd_setsize fd)) [
  | inl large ↦
      subst (Granted a) (some_injective _ a' (sym (accept_large a fd large) ∙ e))
        (refl, [], sym (append-nil a.notified), tt)
  | inr small ↦
      elim (Option-cases (get_next_worker_index a.global_cycle_counter a.global_worker_num)) [
        | inl n ↦ cc (accept_none a fd small n)
        | inr ((index, counter), n) ↦
            subst (Granted a)
              (some_injective _ a' (sym (accept_given a fd index counter small n) ∙ e))
              (
                refl,
                (index, fd) ∷ [],
                refl,
                (next_index-lt a.global_cycle_counter a.global_worker_num index counter n, tt),
              )
      ]
]

-- What holds of the threads at any time.
pub record Inv (s : Running) : Type 0 where
  pub total : s.acceptor.global_worker_num ≡ length s.workers
  pub within : All (λ (p : ℕ × ℕ). p.0 < length s.workers) s.acceptor.notified
  pub handed : Handed 0 s.workers s.acceptor.notified

stepped-Inv : {s t : Running} → Step s t → Inv s → Inv t
stepped-Inv (accepts s a accepted e) inv =
    let (same, more, longer, fine) = do_accept-Granted s.acceptor a accepted e in
    record {
      total = same ∙ inv.total;
      within = subst (All (λ (p : ℕ × ℕ). p.0 < length s.workers)) (sym longer) (
          All-append (λ (p : ℕ × ℕ). p.0 < length s.workers) s.acceptor.notified more inv.within
            (subst (λ (n : ℕ). All (λ (p : ℕ × ℕ). p.0 < n) more) inv.total fine));
      handed =
          subst (Handed 0 s.workers) (sym longer)
            (Handed-more 0 s.workers s.acceptor.notified more inv.handed);
    }
stepped-Inv (takes s i w fd unread e p) inv = record {
  total = inv.total ∙ sym (length-notify_at i (some fd) s.workers);
  within =
      subst (λ (n : ℕ). All (λ (q : ℕ × ℕ). q.0 < n) s.acceptor.notified)
        (sym (length-notify_at i (some fd) s.workers)) inv.within;
  handed =
      Handed-takes 0 i s.workers w fd unread s.acceptor.notified e
        (ap (λ (j : ℕ). drop w.taken (pipe j s.acceptor.notified)) (omega arith) ∙ p) inv.handed;
}
stepped-Inv (fails s i) inv = record {
  total = inv.total ∙ sym (length-notify_at i none s.workers);
  within =
      subst (λ (n : ℕ). All (λ (q : ℕ × ℕ). q.0 < n) s.acceptor.notified)
        (sym (length-notify_at i none s.workers)) inv.within;
  handed = Handed-fails 0 i s.workers s.acceptor.notified inv.handed;
}

pub reached-Inv : {s t : Running} → Inv s → Reach s t → Inv t
reached-Inv inv here = inv
reached-Inv inv (next r step) = stepped-Inv step (reached-Inv inv r)
