-- ===== src/Workers/Closing.antt =====
-- The calls of `OpcUaSubscriptionWorker` on its drivers.
use iot_gathering.Common.{
  String, Bool, true, false, Option, none, some, List, [], ◌∷◌, ◌≡◌, refl, inl, inr, Bool-cases,
  not, ltb, ◌||◌, ◌+◌, if◌then◌else◌,
}
use iot_gathering.Common.Result.{Error}
use iot_gathering.Models.{ReadResult}
use iot_gathering.Workers.Protocol.{
  Phase, closed, opened, subscribed, spent, Call, connect, run_subscription_once, stop_subscription,
  disconnect, connects, refuses, starts, fails_to_start, runs, checks_status, stops,
  disconnects_spent, Leads, then_call,
}
use iot_gathering.Workers.Subscription.{
  Worker, Subscribed, Round, Session, noted, emit_result, emit_results, server_checked,
  check_status, subscription_ran, run_round, after_round, run_rounds, start_answered,
  connect_answered, factory_answered, start_once, cleanup_driver, after_start, run_session,
  after_session, run_sessions, wrote, put_failure, stop_if, disconnect_if, if_error,
}

-- The calls have led to a phase, and the two fields say which.
abbrev IsAt : Phase → (made started : Bool) → Subscribed → Type 0
IsAt phase made started s =
    Leads closed s.calls phase × (s.has_driver ≡ made) × (s.subscription_started ≡ started)

emit_result-IsAt :
    {q : Phase} {m b : Bool} (w : Worker) (s : Subscribed) (result : ReadResult)
    → IsAt q m b s
    → IsAt q m b (emit_result w s result)
emit_result-IsAt w s result h = elim (Bool-cases w.datachange_log_enabled) [
  | inl e ↦ rw e h
  | inr e ↦ rw e h
]

emit_results-IsAt :
    (q : Phase) (m b : Bool) (w : Worker) (s : Subscribed) (results : List ReadResult)
    → IsAt q m b s
    → IsAt q m b (emit_results w s results)
unfolding emit_results
emit_results-IsAt q m b w s [] h = h
emit_results-IsAt q m b w s (result ∷ more) h =
    emit_results-IsAt q m b w (emit_result w s result) more (emit_result-IsAt w s result h)

-- Rounds, in a subscription.
abbrev IsSubscribed : Subscribed → Type 0
IsSubscribed s = IsAt subscribed true true s

server_checked-IsSubscribed :
    (w : Worker) (s : Subscribed) (r : Round) (o : Option (Option Error))
    → IsSubscribed s
    → IsSubscribed (server_checked w s r.status_time o).0
server_checked-IsSubscribed w s r none h = h
server_checked-IsSubscribed w s r (some none) h = (then_call h.0 checks_status, h.1, h.2)
server_checked-IsSubscribed w s r (some (some e)) h = (then_call h.0 checks_status, h.1, h.2)

check_status-IsSubscribed :
    (w : Worker) (s : Subscribed) (r : Round) → IsSubscribed s → IsSubscribed (check_status w s r).0
unfolding check_status
check_status-IsSubscribed w s r h =
    elim (Bool-cases (
      not w.has_status_outbox
      || not s.has_driver
      || ltb r.now (s.last_health_check + w.health_interval))) [
        | inl e ↦ rw e h
        | inr e ↦ rw e (
            server_checked-IsSubscribed w (record s { last_health_check = r.now }) r r.server_status
              h)
      ]

run_round-IsSubscribed :
    (w : Worker) (s : Subscribed) (r : Round) → IsSubscribed s → IsSubscribed (run_round w s r).0
unfolding run_round
run_round-IsSubscribed w s r h =
    ran r.ran (emit_results w (noted s run_subscription_once) r.emitted) (
      emit_results-IsAt subscribed true true w (noted s run_subscription_once) r.emitted
        (then_call h.0 runs, h.1, h.2))
  where
    ran :
        (o : Option Error) (t : Subscribed)
        → IsSubscribed t
        → IsSubscribed (subscription_ran w t r o).0
    ran none t k = check_status-IsSubscribed w t r k
    ran (some e) t k = k

after_round-keeps :
    (P : Subscribed → Type 0) (w : Worker) (r : Round) (more : Subscribed → Subscribed × Bool)
    (t : Subscribed × Option Error)
    → P t.0
    → ((u : Subscribed) → P u → P (more u).0)
    → ((u : Subscribed) (e : Error)
        → P u
        → P (put_failure w u e r.error_time "subscription failed"))
    → P (after_round w r.error_time more t).0
after_round-keeps P w r more (t, none) h go failed = go t h
after_round-keeps P w r more (t, some e) h go failed = failed t e h

run_rounds-IsSubscribed :
    (w : Worker) (s : Subscribed) (rounds : List Round)
    → IsSubscribed s
    → IsSubscribed (run_rounds w s rounds).0
unfolding run_rounds
run_rounds-IsSubscribed w s [] h = h
run_rounds-IsSubscribed w s (r ∷ rounds) h =
    after_round-keeps IsSubscribed w r (λ t. run_rounds w t rounds) (run_round w s r)
      (run_round-IsSubscribed w s r h) (λ u k. run_rounds-IsSubscribed w u rounds k) (λ u e k. k)

-- The phase that the two fields tell, with which the driver is cleaned up.
abbrev phase_of : (made started : Bool) → Phase
phase_of false started = closed
phase_of true false = spent
phase_of true true = subscribed

abbrev IsTold : Subscribed → Type 0
IsTold s = Leads closed s.calls (phase_of s.has_driver s.subscription_started)

IsAt-IsTold :
    (m b : Bool) {made started : Bool} (calls : List Call)
    → Leads closed calls (phase_of m b)
    → made ≡ m
    → started ≡ b
    → Leads closed calls (phase_of made started)
IsAt-IsTold m b calls h made started = rw (made, started) h

abbrev StartIsTold : Subscribed × Option Error → Type 0
StartIsTold (s, none) = IsSubscribed s
StartIsTold (s, some e) = IsTold s

start_answered-StartIsTold :
    (w : Worker) (s : Subscribed) (o : Option Error)
    → IsAt opened true false s
    → StartIsTold (start_answered w s o)
start_answered-StartIsTold w s (some e) (calls, made, started) =
    IsAt-IsTold true false _ (then_call calls fails_to_start) made started
start_answered-StartIsTold w s none (calls, made, started) = (then_call calls starts, made, refl)

connect_answered-StartIsTold :
    (w : Worker) (s : Subscribed) (x : Session) (o : Option Error)
    → IsAt closed true false s
    → StartIsTold (connect_answered w s x o)
connect_answered-StartIsTold w s x (some e) (calls, made, started) =
    IsAt-IsTold true false _ (then_call calls refuses) made started
connect_answered-StartIsTold w s x none (calls, made, started) =
    start_answered-StartIsTold w (emit_results w (noted s (connect true)) x.initial) x.started (
      emit_results-IsAt opened true false w (noted s (connect true)) x.initial
        (then_call calls connects, made, started))

factory_answered-StartIsTold :
    (w : Worker) (s : Subscribed) (x : Session) (o : Option Error)
    → IsAt closed false false s
    → StartIsTold (factory_answered w s x o)
factory_answered-StartIsTold w s x (some e) h = IsAt-IsTold false false s.calls h.0 h.1 h.2
factory_answered-StartIsTold w s x none (calls, made, started) =
    connect_answered-StartIsTold w (record s { has_driver = true }) x x.connected
      (calls, refl, started)

after_start-IsTold :
    (w : Worker) (x : Session) (t : Subscribed × Option Error)
    → StartIsTold t
    → IsTold (after_start w x t).0
after_start-IsTold w x (s, none) h =
    let (calls, made, started) = run_rounds-IsSubscribed w s x.rounds h in
    IsAt-IsTold true true _ calls made started
after_start-IsTold w x (s, some e) h = h

run_session-IsTold :
    (w : Worker) (s : Subscribed) (x : Session)
    → Leads closed s.calls closed
    → IsTold (run_session w s x).0
unfolding run_session start_once
run_session-IsTold w s x h =
    after_start-IsTold w x _ (factory_answered-StartIsTold w _ x x.factory (h, refl, refl))

if_error-calls :
    (w : Worker) (s : Subscribed) (o : Option Error) (message : String)
    → (if_error w s o message).calls ≡ s.calls
if_error-calls w s none message = refl
if_error-calls w s (some e) message = refl

pub cleanup_driver-calls :
    (w : Worker) (s : Subscribed) (x : Session)
    → IsTold s
    → Leads closed (cleanup_driver w s x).calls closed
unfolding cleanup_driver
cleanup_driver-calls w s x h = cleaned s.has_driver s.subscription_started h
  where
    cleaned :
        (m b : Bool)
        → Leads closed s.calls (phase_of m b)
        → Leads closed
            (disconnect_if w
              (if m then stop_if w s x.stop_error b else s)
              x.disconnect_error
              m).calls
            closed
    cleaned false b k = k
    cleaned true false k =
        rw
          (if_error-calls w (noted s disconnect) x.disconnect_error
            "subscription disconnect failed")
          (then_call k disconnects_spent)
    cleaned true true k =
        rw
          (
            if_error-calls w _ x.disconnect_error "subscription disconnect failed",
            if_error-calls w (noted s stop_subscription) x.stop_error "subscription stop failed",
          )
          (then_call (then_call k stops) disconnects_spent)

after_session-keeps :
    (w : Worker) (x : Session) (more : Subscribed → Subscribed) (t : Subscribed × Bool)
    → Leads closed (cleanup_driver w t.0 x).calls closed
    → ((u : Subscribed) → Leads closed u.calls closed → Leads closed (more u).calls closed)
    → Leads closed (after_session w x more t).calls closed
after_session-keeps w x more (s, false) h go = h
after_session-keeps w x more (s, true) h go = goes_on x.stopped
  where
    goes_on :
        (stopped : Bool)
        → Leads closed
            (if stopped
              then cleanup_driver w s x
              else more (wrote w (cleanup_driver w s x) "INFO" "subscription retrying")).calls
            closed
    goes_on true = h
    goes_on false = go (wrote w (cleanup_driver w s x) "INFO" "subscription retrying") h

-- However often the subscription fails and is tried again, and whichever calls raise, the calls follow the protocol
-- and end with each driver disconnected: a subscription runs only after it was started, one that was started
-- is stopped before its driver is disconnected, one that failed to start is not stopped, and a driver is
-- disconnected before the next one is made, also where `connect` or `stop_subscription` raises.
pub run_sessions-calls :
    (w : Worker) (s : Subscribed) (sessions : List Session)
    → Leads closed s.calls closed
    → Leads closed (run_sessions w s sessions).calls closed
unfolding run_sessions
run_sessions-calls w s [] h = h
run_sessions-calls w s (x ∷ sessions) h =
    after_session-keeps w x (λ t. run_sessions w t sessions) (run_session w s x)
      (cleanup_driver-calls w (run_session w s x).0 x (run_session-IsTold w s x h))
      (λ u k. run_sessions-calls w u sessions k)
