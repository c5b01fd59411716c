-- ===== src/Runtime/Stopping.antt =====
-- What `stop` leaves of the threads that `start` started.
use iot_gathering.Common.{
  ℕ, Bool, true, false, List, [], ◌∷◌, ◌++◌, All, All-append, ◌≡◌, refl, arith, if◌then◌else◌,
  nat_eq,
}
use iot_gathering.Runtime.Threads.{Thread, ThreadEvent, Runtime}
use iot_gathering.Runtime.Lifecycle.{one_thread, stop_each, join_each, stop_events, stop}
use iot_gathering.Runtime.Tracking.{
  holds, joined, is_settled, AreSettled, AreSettled-more, threads_of, held_apart, joined-append,
  IsTracked,
}

-- `stop` joins each thread that a field holds.
joined-stop_each : (n : ℕ) (threads : List Thread) → joined n (stop_each threads) ≡ false
unfolding joined stop_each
joined-stop_each n [] = refl
joined-stop_each n (t ∷ threads) = joined-stop_each n threads

joined-join_each : (n : ℕ) (threads : List Thread) → joined n (join_each threads) ≡ holds n threads
unfolding joined join_each holds
joined-join_each n [] = refl
joined-join_each n (t ∷ threads) = rw (joined-join_each n threads) refl

stop_events-joined :
    (m : Runtime) (n : ℕ) → holds n (threads_of m) ≡ true → joined n (stop_events m) ≡ true
stop_events-joined m n h =
    simp (joined-append n, joined-join_each n, joined-stop_each n)
      (ground (
        arith,
        held_apart n (one_thread m.publisher) (one_thread m.topic_responder)
            (one_thread m.topic_refresh_thread) m.pollers m.subscription_workers,
      ))

-- A stop and a join start nothing.
stop_each-settled :
    (l : List Thread) (events : List ThreadEvent) (threads : List Thread)
    → All (λ e. is_settled l events e ≡ true) (stop_each threads)
unfolding stop_each
stop_each-settled l events [] = tt
stop_each-settled l events (t ∷ threads) = (refl, stop_each-settled l events threads)

join_each-settled :
    (l : List Thread) (events : List ThreadEvent) (threads : List Thread)
    → All (λ e. is_settled l events e ≡ true) (join_each threads)
unfolding join_each
join_each-settled l events [] = tt
join_each-settled l events (t ∷ threads) = (refl, join_each-settled l events threads)

stop_events-settled :
    (l : List Thread) (events : List ThreadEvent) (m : Runtime)
    → All (λ e. is_settled l events e ≡ true) (stop_events m)
stop_events-settled l events m =
    let stopping = stop_each-settled l events in
    let joining = join_each-settled l events in
    All-append _ _ _
      (All-append _ _ _
        (All-append _ _ _
          (All-append _ _ _
            (All-append _ _ _
              (All-append _ _ _
                (All-append _ _ _
                  (All-append _ _ _ (stopping m.pollers) (stopping m.subscription_workers))
                  (stopping (one_thread m.topic_responder)))
                (joining (one_thread m.topic_refresh_thread)))
              (stopping (one_thread m.publisher)))
            (joining m.pollers))
          (joining m.subscription_workers))
        (joining (one_thread m.topic_responder)))
      (joining (one_thread m.publisher))

if-taken :
    (P : Runtime → Type 0) (b : Bool) (x y : Runtime) → b ≡ true → P x → P (if b then x else y)
if-taken P true x y h p = p
if-taken P false x y h p = absurd (cc h)

pub stop-AreSettled : (m : Runtime) → IsTracked m → AreSettled [] (stop m).events
unfolding stop
stop-AreSettled m (h, running) =
    if-taken (λ t. AreSettled [] t.events) m.running _ m running
      (AreSettled-more (threads_of m) [] m.events (stop_events m)
        (λ n k. ground (arith, stop_events-joined m n k))
        (stop_events-settled [] (m.events ++ stop_events m) m) h)
