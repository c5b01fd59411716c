-- ===== src/Runtime/Tracking.antt =====
-- The threads that are started while the fields of the manager hold them.
use iot_gathering.Common.{
  ℕ, suc, Bool, true, false, ◌||◌, List, [], ◌∷◌, ◌++◌, All, All-append, All-mono, ◌≡◌, refl, arith,
  ◌==◌, if◌then◌else◌, nat_eq, beq_self,
}
use iot_gathering.Common.Result.{Result, ok, err}
use iot_gathering.Models.{DeviceSpec}
use iot_gathering.Runtime.Registry.{Registry}
use iot_gathering.Runtime.Starting.{uses_subscription_worker}
use iot_gathering.Runtime.Threads.{
  Thread, ThreadEvent, starts, stops, joins, Runtime, new_thread, start_thread, start_worker,
  with_driver, start_workers,
}
use iot_gathering.Runtime.Lifecycle.{one_thread}

unfoldable pub holds : ℕ → List Thread → Bool
holds n [] = false
holds n (t ∷ threads) = t.number == n || holds n threads

abbrev pub is_join : ℕ → ThreadEvent → Bool
is_join n (joins k) = k == n
is_join n e = false

unfoldable pub joined : ℕ → List ThreadEvent → Bool
joined n [] = false
joined n (e ∷ events) = is_join n e || joined n events

pub joined-append :
    (n : ℕ) (xs ys : List ThreadEvent) → joined n (xs ++ ys) ≡ (joined n xs || joined n ys)
unfolding joined
joined-append n [] ys = refl
joined-append n (e ∷ xs) ys = ground (arith, joined-append n xs ys)

-- A thread that was started is joined, or one of the list.
abbrev pub is_settled : List Thread → List ThreadEvent → ThreadEvent → Bool
is_settled threads events (starts n) = joined n events || holds n threads
is_settled threads events e = true

abbrev pub AreSettled : List Thread → List ThreadEvent → Type 0
AreSettled threads events = All (λ e. is_settled threads events e ≡ true) events

-- Where the list is longer and more is joined, too.
pub is_settled-more :
    (threads more : List Thread) (events later : List ThreadEvent) (e : ThreadEvent)
    → ((n : ℕ) → (holds n threads ≡ true) → (joined n later || holds n more) ≡ true)
    → is_settled threads events e ≡ true
    → is_settled more (events ++ later) e ≡ true
is_settled-more threads more events later (starts n) f h =
    ground (arith, joined-append n events later, f n)
is_settled-more threads more events later (stops n) f h = refl
is_settled-more threads more events later (joins n) f h = refl

pub AreSettled-more :
    (threads more : List Thread) (events later : List ThreadEvent)
    → ((n : ℕ) → (holds n threads ≡ true) → (joined n later || holds n more) ≡ true)
    → All (λ e. is_settled more (events ++ later) e ≡ true) later
    → AreSettled threads events
    → AreSettled more (events ++ later)
AreSettled-more threads more events later f new h =
    All-append _ events later
      (All-mono _ _ events (λ e k. is_settled-more threads more events later e f k) h) new

is_settled-wider :
    (threads more : List Thread) (events : List ThreadEvent) (e : ThreadEvent)
    → ((n : ℕ) → holds n threads ≡ true → holds n more ≡ true)
    → is_settled threads events e ≡ true
    → is_settled more events e ≡ true
is_settled-wider threads more events (starts n) f h = ground (arith, f n)
is_settled-wider threads more events (stops n) f h = refl
is_settled-wider threads more events (joins n) f h = refl

pub AreSettled-wider :
    (threads more : List Thread) (events : List ThreadEvent)
    → ((n : ℕ) → holds n threads ≡ true → holds n more ≡ true)
    → AreSettled threads events
    → AreSettled more events
AreSettled-wider threads more events f h =
    All-mono _ _ events (λ e k. is_settled-wider threads more events e f k) h

-- The threads that the fields hold.
abbrev pub threads_of : Runtime → List Thread
threads_of m =
    one_thread m.publisher
    ++ one_thread m.topic_responder
    ++ one_thread m.topic_refresh_thread
    ++ m.pollers
    ++ m.subscription_workers

-- A thread is started and held.
pub started-AreSettled :
    (m : Runtime) (threads more : List Thread)
    → ((n : ℕ) → holds n threads ≡ true → holds n more ≡ true)
    → holds (suc m.last_thread) more ≡ true
    → AreSettled threads m.events
    → AreSettled more (start_thread m).events
unfolding joined
started-AreSettled m threads more f g h =
    AreSettled-more threads more m.events (starts (suc m.last_thread) ∷ []) f
      (ground (arith, g), tt) h

pub holds-append : (n : ℕ) (xs ys : List Thread) → holds n (xs ++ ys) ≡ (holds n xs || holds n ys)
unfolding holds
holds-append n [] ys = refl
holds-append n (x ∷ xs) ys = ground (arith, holds-append n xs ys)

pub held_apart :
    (n : ℕ) (a b c p s : List Thread)
    → holds n (a ++ b ++ c ++ p ++ s)
      ≡ (holds n a || (holds n b || (holds n c || (holds n p || holds n s))))
held_apart n a b c p s = ground (
  arith,
  holds-append n (a ++ b ++ c ++ p) s,
  holds-append n (a ++ b ++ c) p,
  holds-append n (a ++ b) c,
  holds-append n a b,
)

held-last :
    (n : ℕ) (threads : List Thread) (t : Thread)
    → holds n (threads ++ t ∷ []) ≡ (holds n threads || t.number == n)
unfolding holds
held-last n threads t = ground (arith, holds-append n threads (t ∷ []))

start_worker-AreSettled :
    (m : Runtime) (device : DeviceSpec)
    → AreSettled (threads_of m) m.events
    → AreSettled (threads_of (start_worker device m)) (start_worker device m).events
start_worker-AreSettled m device h = either (uses_subscription_worker device)
  where
    a : List Thread
    a = one_thread m.publisher

    b : List Thread
    b = one_thread m.topic_responder

    c : List Thread
    c = one_thread m.topic_refresh_thread

    new : Thread
    new = new_thread m

    either :
        (subscribed : Bool)
        → AreSettled
            (threads_of (
              if subscribed
              then record (start_thread m) {
                subscription_workers = m.subscription_workers ++ new_thread m ∷ [];
              }
              else record (start_thread m) { pollers = m.pollers ++ new_thread m ∷ [] }))
            (if subscribed
              then record (start_thread m) {
                subscription_workers = m.subscription_workers ++ new_thread m ∷ [];
              }
              else record (start_thread m) { pollers = m.pollers ++ new_thread m ∷ [] }).events
    either true =
        started-AreSettled m (threads_of m)
          (a ++ b ++ c ++ m.pollers ++ (m.subscription_workers ++ new ∷ []))
          (λ n k. ground (
            arith,
            held_apart n a b c m.pollers m.subscription_workers,
            held_apart n a b c m.pollers (m.subscription_workers ++ new ∷ []),
            held-last n m.subscription_workers new,
          ))
          (ground (
            arith,
            held_apart (suc m.last_thread) a b c m.pollers (m.subscription_workers ++ new ∷ []),
            held-last (suc m.last_thread) m.subscription_workers new,
            beq_self nat_eq (suc m.last_thread),
          ))
          h
    either false =
        started-AreSettled m (threads_of m)
          (a ++ b ++ c ++ (m.pollers ++ new ∷ []) ++ m.subscription_workers)
          (λ n k. ground (
            arith,
            held_apart n a b c m.pollers m.subscription_workers,
            held_apart n a b c (m.pollers ++ new ∷ []) m.subscription_workers,
            held-last n m.pollers new,
          ))
          (ground (
            arith,
            held_apart (suc m.last_thread) a b c (m.pollers ++ new ∷ []) m.subscription_workers,
            held-last (suc m.last_thread) m.pollers new,
            beq_self nat_eq (suc m.last_thread),
          ))
          h

-- What the loop over the devices ends with, where it ends.
abbrev pub IsTracked : Runtime → Type 0
IsTracked m = AreSettled (threads_of m) m.events × (m.running ≡ true)

abbrev pub IsStarted : Runtime × Result (Unit {0}) → Type 0
IsStarted (m, err e) = Unit
IsStarted (m, ok done) = IsTracked m

if-IsStarted :
    (b : Bool) (x y : Runtime × Result (Unit {0}))
    → IsStarted x
    → IsStarted y
    → IsStarted (if b then x else y)
if-IsStarted true x y h k = h
if-IsStarted false x y h k = k

module _ {ℓ} {T : Type ℓ} (drivers : Registry T) where
  with_driver-IsStarted :
      (more : Runtime → Runtime × Result (Unit {0})) (m : Runtime) (device : DeviceSpec)
      (r : Result T)
      → IsStarted (more (start_worker device m))
      → IsStarted (with_driver drivers more m device r)
  with_driver-IsStarted more m device (err e) h = tt
  with_driver-IsStarted more m device (ok driver) h = h

  pub start_workers-IsStarted :
      (m : Runtime) (devices : List DeviceSpec)
      → AreSettled (threads_of m) m.events
      → IsStarted (start_workers drivers m devices)
  unfolding start_workers
  start_workers-IsStarted m [] h = (h, refl)
  start_workers-IsStarted m (device ∷ devices) h =
      if-IsStarted device.enabled _ _
        (with_driver-IsStarted (λ t. start_workers drivers t devices) m device _
          (start_workers-IsStarted (start_worker device m) devices
            (start_worker-AreSettled m device h)))
        (start_workers-IsStarted m devices h)
