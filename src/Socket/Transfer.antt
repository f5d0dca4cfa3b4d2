-- ===== src/Socket/Transfer.antt =====
-- soaagent/util.c: what `socket_send` and `socket_receive` move, however the kernel cuts it.
use ddmframework.Common.{
  Bool, ltb, true, false, append-nil, ℕ, zero, suc, ◌+◌, ◌-◌, ◌≤◌, ◌<◌, min, ◌≡◌, refl, ap, ap₂,
  ◌∙◌, List, [], ◌∷◌, ◌++◌, length, take, drop, ◌==◌, ◌⊎◌, inl, inr, arith, length-take,
  take-append-drop, length-drop, append_assoc, if◌then◌else◌,
}
use ddmframework.Socket.{
  SendReply, sent, send_again, send_broken, SendStatus, send_done, socket_send, RecvReply, got,
  recv_again, recv_broken, SelectReply, readable, Net, Received, received, peer_shutdown, filled,
  receive_loop, select_loop, start_reading, socket_receive,
}

-- `send` takes no more than it is offered.
abbrev pub Takes : List SendReply → List ℕ → Type 0
Takes [] p = Unit
Takes (send_again ∷ replies) p = Takes replies p
Takes (send_broken ∷ replies) p = Unit
Takes (sent n ∷ replies) p = (n ≤ length p) × Takes replies (drop n p)

-- After one `send`: the end, or what the rest of the loop adds.
abbrev sent_so_far : Bool → ℕ → List ℕ → SendStatus × List ℕ → SendStatus × List ℕ
sent_so_far b n p r = if b then (send_done, p) else (r.0, take n p ++ r.1)

part_or_all :
    (b : Bool) (n : ℕ) (p : List ℕ) (r : SendStatus × List ℕ) (left : List ℕ)
    → (n == length p) ≡ b
    → r.1 ++ left ≡ drop n p
    → (r.0 ≡ send_done → left ≡ [])
    → (rest : List ℕ) × ((sent_so_far b n p r).1 ++ rest ≡ p)
      × ((sent_so_far b n p r).0 ≡ send_done → rest ≡ [])
part_or_all true n p r left eb e h = ([], append-nil p, λ d. refl)
part_or_all false n p r left eb e h =
    (left, append_assoc (take n p) r.1 left ∙ ap (λ t. take n p ++ t) e ∙ take-append-drop n p, h)

-- Whatever the kernel answers, the bytes handed over are a first part of the message, in order; and
-- when `socket_send` reports success, no byte is missing.
pub socket_send_lem :
    (replies : List SendReply) (p : List ℕ)
    → Takes replies p
    → (rest : List ℕ) × ((socket_send replies p).1 ++ rest ≡ p)
      × ((socket_send replies p).0 ≡ send_done → rest ≡ [])
unfolding socket_send
socket_send_lem [] p h = (p, refl, λ e. absurd (cc))
socket_send_lem (send_again ∷ replies) p h = socket_send_lem replies p h
socket_send_lem (send_broken ∷ replies) p h = (p, refl, λ e. absurd (cc))
socket_send_lem (sent n ∷ replies) p (h, ht) =
    let later = socket_send_lem replies (drop n p) ht in
    part_or_all (n == length p) n p (socket_send replies (drop n p)) later.0 refl later.1 later.2

-- A kernel that makes progress: no error, and each answer but EINTR and EAGAIN moves something.
abbrev pub SendsOn : List SendReply → Type 0
SendsOn [] = Unit
SendsOn (sent n ∷ replies) = (1 ≤ n) × SendsOn replies
SendsOn (send_again ∷ replies) = SendsOn replies
SendsOn (send_broken ∷ replies) = 1 ≤ 0

abbrev pub sends : List SendReply → ℕ
sends [] = 0
sends (sent n ∷ replies) = suc (sends replies)
sends (send_again ∷ replies) = sends replies
sends (send_broken ∷ replies) = sends replies

differs : (a b : ℕ) → (a == b) ≡ false → (a < b) ⊎ (b < a)
differs a b e = ground arith

all_sent :
    (b : Bool) (n : ℕ) (p : List ℕ) (r : SendStatus × List ℕ)
    → (n == length p ≡ false → r.0 ≡ send_done)
    → (n == length p) ≡ b
    → (sent_so_far b n p r).0 ≡ send_done
all_sent true n p r h e = refl
all_sent false n p r h e = h e

-- A kernel that answers as often as the message has bytes, each time taking something, gets the
-- whole message: `socket_send` ends with success.
pub socket_send-sends :
    (replies : List SendReply) (p : List ℕ)
    → Takes replies p
    → SendsOn replies
    → 1 ≤ length p
    → length p ≤ sends replies
    → (socket_send replies p).0 ≡ send_done
unfolding socket_send
socket_send-sends [] p ht hs h1 h = absurd (omega arith)
socket_send-sends (send_again ∷ replies) p ht hs h1 h = socket_send-sends replies p ht hs h1 h
socket_send-sends (send_broken ∷ replies) p ht hs h1 h = absurd (omega arith)
socket_send-sends (sent n ∷ replies) p (hn, ht) (h0, hs) h1 h =
    all_sent (n == length p) n p (socket_send replies (drop n p))
      (λ (less : (n == length p) ≡ false).
        socket_send-sends replies (drop n p) ht hs
          (omega (arith, length-drop n p, differs n (length p) less))
          (omega (arith, length-drop n p)))
      refl

-- The same for reading: no error, and each answer but EINTR and EAGAIN brings something.
abbrev pub ReadsOn : List RecvReply → Type 0
ReadsOn [] = Unit
ReadsOn (got n ∷ replies) = (1 ≤ n) × ReadsOn replies
ReadsOn (recv_again ∷ replies) = ReadsOn replies
ReadsOn (recv_broken ∷ replies) = 1 ≤ 0

abbrev pub gots : List RecvReply → ℕ
gots [] = 0
gots (got n ∷ replies) = suc (gots replies)
gots (recv_again ∷ replies) = gots replies
gots (recv_broken ∷ replies) = gots replies

-- After one `recv`.
abbrev read_so_far :
    List ℕ
    → List ℕ
    → List ℕ
    → List RecvReply
    → ℕ
    → Received × List ℕ × List RecvReply
    → Received × List ℕ × List RecvReply
read_so_far data_read s left replies need rest =
    if length data_read == 0
    then (peer_shutdown, s, replies)
    else if length data_read == need
    then (received data_read, left, replies)
    else (filled data_read rest.0, rest.1, rest.2)

minus_suc : (n k : ℕ) → suc n - suc k ≡ n - k
minus_suc n k = omega arith

minus_zero : (n : ℕ) → n - 0 ≡ n
minus_zero n = omega arith

take-nil : (n : ℕ) → take {A = ℕ} n [] ≡ []
take-nil zero = refl
take-nil (suc n) = refl

drop-nil : (n : ℕ) → drop {A = ℕ} n [] ≡ []
drop-nil zero = refl
drop-nil (suc n) = refl

take-take : (k n : ℕ) (s : List ℕ) → k ≤ n → take k s ++ take (n - k) (drop k s) ≡ take n s
take-take zero n s h = rw (minus_zero n) refl
take-take (suc k) zero s h = absurd (omega arith)
take-take (suc k) (suc n) [] h = rw (minus_suc n k) (take-nil (n - k))
take-take (suc k) (suc n) (x ∷ s) h =
    rw (minus_suc n k) (ap (◌∷◌ x) (take-take k n s (omega arith)))

drop-drop : (k n : ℕ) (s : List ℕ) → k ≤ n → drop (n - k) (drop k s) ≡ drop n s
drop-drop zero n s h = rw (minus_zero n) refl
drop-drop (suc k) zero s h = absurd (omega arith)
drop-drop (suc k) (suc n) [] h = rw (minus_suc n k) (drop-nil (n - k))
drop-drop (suc k) (suc n) (x ∷ s) h = rw (minus_suc n k) (drop-drop k n s (omega arith))

read_all :
    (d s left : List ℕ) (replies : List RecvReply) (need : ℕ)
    (rest : Received × List ℕ × List RecvReply)
    → 1 ≤ length d
    → length d ≡ need
    → read_so_far d s left replies need rest ≡ (received d, left, replies)
read_all d s left replies need rest h e = ground arith

-- What the first bytes become with the rest.
abbrev joined : List ℕ → Received × List ℕ × List RecvReply → Received × List ℕ × List RecvReply
joined d rest = (filled d rest.0, rest.1, rest.2)

read_part :
    (d s left : List ℕ) (replies : List RecvReply) (need : ℕ)
    (rest : Received × List ℕ × List RecvReply)
    → 1 ≤ length d
    → length d < need
    → read_so_far d s left replies need rest ≡ (filled d rest.0, rest.1, rest.2)
read_part d s left replies need rest h e = ground arith

k_cases : (n need : ℕ) → ((min n need ≡ need) × (need ≤ n)) ⊎ ((min n need ≡ n) × (n < need))
k_cases n need = omega arith

-- However the kernel cuts the stream, `need` bytes of it are read, and the rest is left.
pub receive_loop_lem :
    (replies : List RecvReply) (s : List ℕ) (need : ℕ)
    → ReadsOn replies
    → 1 ≤ need
    → need ≤ length s
    → need ≤ gots replies
    → (later : List RecvReply) × (receive_loop replies s need
        ≡ (received (take need s), drop need s, later))
      × ReadsOn later
      × (gots replies ≤ gots later + need)
unfolding receive_loop filled
receive_loop_lem [] s need ho h1 hs h = absurd (omega arith)
receive_loop_lem (recv_again ∷ replies) s need ho h1 hs h =
    receive_loop_lem replies s need ho h1 hs h
receive_loop_lem (recv_broken ∷ replies) s need ho h1 hs h = absurd (omega arith)
receive_loop_lem (got n ∷ replies) s need (hn, ho) h1 hs h =
    let k = min n need in
    let size : length (take k s) ≡ k = omega (arith, length-take k s) in
    elim (k_cases n need) [
      | inl (whole, few) ↦ (
        replies,
        read_all (take k s) s (drop k s) replies need
              (receive_loop replies (drop k s) (need - length (take k s))) (omega arith)
              (omega arith)
            ∙ ap (λ (m : ℕ). (received (take m s), drop m s, replies)) whole,
        ho,
        omega arith,
      )
      | inr part ↦
          let later =
            receive_loop_lem replies (drop k s) (need - k) ho (omega arith)
              (omega (arith, length-drop k s)) (omega arith) in
          (
            later.0,
            read_part (take k s) s (drop k s) replies need
                  (receive_loop replies (drop k s) (need - length (take k s))) (omega arith)
                  (omega arith)
                ∙ ap (λ (m : ℕ). joined (take k s) (receive_loop replies (drop k s) (need - m)))
                    size
                ∙ ap (joined (take k s)) later.1
                ∙ ap₂ (λ (x y : List ℕ). (received x, y, later.0))
                    (take-take k need s (omega arith)) (drop-drop k need s (omega arith)),
            later.2,
            omega (arith, later.3),
          )
    ]

abbrev pub the_net : List ℕ → List RecvReply → List SelectReply → Net
the_net stream reads selects = record { stream = stream; reads = reads; selects = selects }

some_time : (t : ℕ) → 1 ≤ t → ltb 0 t ≡ true
some_time t h = ground arith

-- `socket_receive` with a timeout, when the first `select` finds something to read.
pub socket_receive-readable :
    (stream : List ℕ) (reads : List RecvReply) (selects : List SelectReply) (need timeout_secs : ℕ)
    → ReadsOn reads
    → 1 ≤ need
    → need ≤ length stream
    → need ≤ gots reads
    → 1 ≤ timeout_secs
    → (later : List RecvReply) × (socket_receive
          (record { stream = stream; reads = reads; selects = readable ∷ selects })
          need
          timeout_secs
        ≡ (
          received (take need stream),
          record { stream = drop need stream; reads = later; selects = selects },
        ))
      × ReadsOn later
      × (gots reads ≤ gots later + need)
unfolding socket_receive start_reading select_loop
socket_receive-readable stream reads selects need timeout_secs ho h1 hs h ht =
    let loop = receive_loop_lem reads stream need ho h1 hs h in
    (
      loop.0,
      rw (some_time timeout_secs ht)
          (ap (λ (r : Received × List ℕ × List RecvReply). (r.0, the_net r.1 r.2 selects)) loop.1),
      loop.2,
      loop.3,
    )

-- `socket_receive` without a timeout asks no `select`.
pub socket_receive-blocking :
    (stream : List ℕ) (reads : List RecvReply) (selects : List SelectReply) (need : ℕ)
    → ReadsOn reads
    → 1 ≤ need
    → need ≤ length stream
    → need ≤ gots reads
    → (later : List RecvReply) × (socket_receive (the_net stream reads selects) need 0
        ≡ (received (take need stream), the_net (drop need stream) later selects))
      × ReadsOn later
      × (gots reads ≤ gots later + need)
unfolding socket_receive start_reading
socket_receive-blocking stream reads selects need ho h1 hs h =
    let loop = receive_loop_lem reads stream need ho h1 hs h in
    (
      loop.0,
      ap (λ (r : Received × List ℕ × List RecvReply). (r.0, the_net r.1 r.2 selects)) loop.1,
      loop.2,
      loop.3,
    )
