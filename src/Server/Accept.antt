-- ===== src/Server/Accept.antt =====
-- soaagent/server.c: how the connections are dealt.
use native.Mathlib.Nat.{mod-lt}
use ddmframework.Common.{
  inl, inr, All, Bool-cases, true, false, ℕ, zero, suc, ◌+◌, ◌%◌, ◌≤◌, ◌<◌, ◌^◌, ◌≡◌, refl, sym, ap,
  ap₂, ◌∙◌, List, [], ◌∷◌, ◌++◌, append-nil, append_assoc, Option, none, some, arith, length, ltb,
  if◌then◌else◌,
}
use ddmframework.Server.{Acceptor, fd_setsize, get_next_worker_index, do_accept}

-- The event loop calls `do_accept` with one answer of `accept` after the other.
unfoldable pub do_accepts : Acceptor → List (Option ℕ) → Option Acceptor
unfolding do_accept
do_accepts a [] = some a
do_accepts a (accepted ∷ later) = elim (do_accept a accepted) [
  | none ↦ none
  | some a' ↦ do_accepts a' later
]

-- The descriptors that are served, and those that are too large.
unfoldable pub served : List (Option ℕ) → List ℕ
served [] = []
served (none ∷ later) = served later
served (some fd ∷ later) = if ltb fd_setsize fd then served later else fd ∷ served later

unfoldable pub too_large : List (Option ℕ) → List ℕ
too_large [] = []
too_large (none ∷ later) = too_large later
too_large (some fd ∷ later) = if ltb fd_setsize fd then fd ∷ too_large later else too_large later

-- The descriptors that are served from the i-th on, in turn.
unfoldable pub dealt : (workers counter i : ℕ) → List ℕ → List (ℕ × ℕ)
dealt workers counter i [] = []
dealt workers counter i (fd ∷ fds) =
    ((counter + i) % 2 ^ 16 % workers, fd) ∷ dealt workers counter (suc i) fds

do_accepts_next :
    (a : Acceptor) {a' : Acceptor} (accepted : Option ℕ) (later : List (Option ℕ))
    → do_accept a accepted ≡ some a'
    → do_accepts a (accepted ∷ later) ≡ do_accepts a' later
unfolding do_accepts
do_accepts_next a accepted later e = rw (e, do_accepts) refl

module _ (fd : ℕ) (later : List (Option ℕ)) where
  served_large : ltb fd_setsize fd ≡ true → served (some fd ∷ later) ≡ served later
  unfolding served
  served_large e = rw e refl

  served_small : ltb fd_setsize fd ≡ false → served (some fd ∷ later) ≡ fd ∷ served later
  unfolding served
  served_small e = rw e refl

  too_large_large : ltb fd_setsize fd ≡ true → too_large (some fd ∷ later) ≡ fd ∷ too_large later
  unfolding too_large
  too_large_large e = rw e refl

  too_large_small : ltb fd_setsize fd ≡ false → too_large (some fd ∷ later) ≡ too_large later
  unfolding too_large
  too_large_small e = rw e refl

wraps : (c : ℕ) → c < 2 ^ 16 → (if ltb 0xFFFF (c + 1) then 0 else c + 1) ≡ (c + 1) % 2 ^ 16
wraps c h = ground arith

one_more : (c i : ℕ) → ((c + i) % 2 ^ 16 + 1) % 2 ^ 16 ≡ (c + suc i) % 2 ^ 16
one_more c i = omega arith

-- The main thread with a number of workers, after i connections.
abbrev after_turns : (workers counter i : ℕ) → List (ℕ × ℕ) → List ℕ → Acceptor
after_turns workers counter i notified closed = record {
  global_worker_num = workers;
  global_cycle_counter = (counter + i) % 2 ^ 16;
  notified = notified;
  closed = closed;
}

module _ (n counter : ℕ) where
  dealt_one :
      (i fd : ℕ) (notified : List (ℕ × ℕ)) (closed : List ℕ)
      → ltb fd_setsize fd ≡ false
      → do_accept (after_turns (suc n) counter i notified closed) (some fd)
        ≡ some (
            after_turns
              (suc n)
              counter
              (suc i)
              (notified ++ ((counter + i) % 2 ^ 16 % suc n, fd) ∷ [])
              closed)
  unfolding do_accept get_next_worker_index
  dealt_one i fd notified closed small =
      rw small (rw (wraps ((counter + i) % 2 ^ 16) (omega arith) ∙ one_more counter i) refl)

  closed_one :
      (i fd : ℕ) (notified : List (ℕ × ℕ)) (closed : List ℕ)
      → ltb fd_setsize fd ≡ true
      → do_accept (after_turns (suc n) counter i notified closed) (some fd)
        ≡ some (after_turns (suc n) counter i notified (closed ++ fd ∷ []))
  unfolding do_accept
  closed_one i fd notified closed large = rw large refl

  -- Where the loop stands after some answers.
  abbrev Stands : (i : ℕ) → List (ℕ × ℕ) → List ℕ → List (Option ℕ) → (fds large : List ℕ) → Type 0
  Stands i notified closed answers fds large =
      do_accepts (after_turns (suc n) counter i notified closed) answers
      ≡ some (
          after_turns (suc n) counter (i + length fds) (notified ++ dealt (suc n) counter i fds)
            (closed ++ large))

  do_accepts_from :
      (i : ℕ) (notified : List (ℕ × ℕ)) (closed : List ℕ) (answers : List (Option ℕ))
      → Stands i notified closed answers (served answers) (too_large answers)
  unfolding do_accepts served too_large dealt
  do_accepts_from i notified closed [] = ap some (
      sym (
        ap (λ (j : ℕ). after_turns (suc n) counter j (notified ++ []) (closed ++ [])) (omega arith)
        ∙ ap₂ (λ x y. after_turns (suc n) counter i x y) (append-nil notified) (append-nil closed)))
  do_accepts_from i notified closed (none ∷ later) = do_accepts_from i notified closed later
  do_accepts_from i notified closed (some fd ∷ later) = elim (Bool-cases (ltb fd_setsize fd)) [
    | inl large ↦
        do_accepts_next (after_turns (suc n) counter i notified closed) (some fd) later
          (closed_one i fd notified closed large)
        ∙ do_accepts_from i notified (closed ++ fd ∷ []) later
        ∙ ap
            (λ x. some (
              after_turns (suc n) counter (i + length (served later))
                (notified ++ dealt (suc n) counter i (served later)) x))
            (append_assoc closed (fd ∷ []) (too_large later))
        ∙ ap₂
            (λ x y. some (
              after_turns (suc n) counter (i + length x) (notified ++ dealt (suc n) counter i x)
                (closed ++ y)))
            (sym (served_large fd later large)) (sym (too_large_large fd later large))
    | inr small ↦
        do_accepts_next (after_turns (suc n) counter i notified closed) (some fd) later
          (dealt_one i fd notified closed small)
        ∙ do_accepts_from (suc i) (notified ++ ((counter + i) % 2 ^ 16 % suc n, fd) ∷ []) closed
            later
        ∙ ap₂ (λ j x. some (after_turns (suc n) counter j x (closed ++ too_large later)))
            (omega arith)
            (append_assoc notified (((counter + i) % 2 ^ 16 % suc n, fd) ∷ [])
              (dealt (suc n) counter (suc i) (served later)))
        ∙ ap₂
            (λ x y. some (
              after_turns (suc n) counter (i + length x) (notified ++ dealt (suc n) counter i x)
                (closed ++ y)))
            (sym (served_small fd later small)) (sym (too_large_small fd later small))
  ]

dealt-All :
    (n counter i : ℕ) (fds : List ℕ)
    → All (λ (p : ℕ × ℕ). p.0 < suc n) (dealt (suc n) counter i fds)
unfolding dealt
dealt-All n counter i [] = tt
dealt-All n counter i (fd ∷ fds) =
    (mod-lt ((counter + i) % 2 ^ 16) {m = suc n} (omega arith), dealt-All n counter (suc i) fds)

-- With at least one worker and a counter of 16 bits, every connection is given to one worker, in
-- turn, and each worker that is named exists: the i-th connection from now goes to the worker whose
-- index is the remainder of counter + i, taken modulo 2^16 first. A descriptor above FD_SETSIZE is
-- closed and takes no turn, and neither does an error of `accept`.
pub do_accepts_lem :
    (workers counter : ℕ) (notified : List (ℕ × ℕ)) (closed : List ℕ) (answers : List (Option ℕ))
    → 1 ≤ workers
    → counter < 2 ^ 16
    → (do_accepts
          (record {
            global_worker_num = workers;
            global_cycle_counter = counter;
            notified = notified;
            closed = closed;
          })
          answers
        ≡ some (record {
          global_worker_num = workers;
          global_cycle_counter = (counter + length (served answers)) % 2 ^ 16;
          notified = notified ++ dealt workers counter 0 (served answers);
          closed = closed ++ too_large answers;
        }))
      × All (λ (p : ℕ × ℕ). p.0 < workers) (dealt workers counter 0 (served answers))
do_accepts_lem zero counter notified closed answers h1 hc = absurd (omega arith)
do_accepts_lem (suc n) counter notified closed answers h1 hc = (
  ap
        (λ (c : ℕ).
          do_accepts
            (record {
              global_worker_num = suc n;
              global_cycle_counter = c;
              notified = notified;
              closed = closed;
            })
            answers)
        (omega arith)
      ∙ do_accepts_from n counter 0 notified closed answers
      ∙ ap
          (λ (i : ℕ). some (
            after_turns (suc n) counter i (notified ++ dealt (suc n) counter 0 (served answers))
              (closed ++ too_large answers)))
          (omega arith),
  dealt-All n counter 0 (served answers),
)
