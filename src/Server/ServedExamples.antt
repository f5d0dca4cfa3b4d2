-- ===== src/Server/ServedExamples.antt =====
-- The theorems on the start of the server, with two workers.
use ddmframework.Common.{ℕ, ◌+◌, ◌*◌, ◌≡◌, refl, true, [], ◌∷◌, some}
use ddmframework.Url.{codes}
use ddmframework.Config.{parse_addr, get_config_item_int}
use ddmframework.Server.Startup.{Answers, Running, first_acceptor}
use ddmframework.Server.Handover.{notify_at}
use ddmframework.Server.Started.{workers_from}

abbrev pair : ℕ → ℕ × ℕ
pair i = (2 * i + 3, 2 * i + 4)

abbrev pub all_well : Answers
all_well = record {
  event_base_new = true;
  bind = true;
  listen = true;
  malloc = λ i. true;
  socketpair = λ i. some (pair i);
  worker_base_new = λ i. true;
  pthread_create = λ i. true;
}

address : parse_addr (codes "127.0.0.1:88") 20 ≡ some (codes "127.0.0.1", 88)
unfolding parse_addr
address = refl

two : get_config_item_int (some (codes "2")) 10 ≡ some 2
unfolding get_config_item_int
two = refl

abbrev two_workers : Running
two_workers = record { acceptor = first_acceptor 2; workers = workers_from pair 0 2 }

-- One connection is accepted, and the first worker takes it.
abbrev accepted : Running
accepted = record two_workers {
  acceptor = record (first_acceptor 2) { global_cycle_counter = 1; notified = (0, 7) ∷ [] };
}

abbrev taken : Running
taken = record accepted { workers = notify_at 0 (some 7) (workers_from pair 0 2) }
