-- ===== src/Workers/Polling.antt =====
-- What `DriverPoller` keeps: the calls on the driver, the results and the rate of the health checks.
use mathlib.Core.List.{append_assoc, append-nil}
use iot_gathering.Common.{
  ℕ, true, Option, none, some, List, [], ◌∷◌, ◌++◌, map, All, ◌≡◌, ◌∙◌, refl, sym, inl, inr,
  Bool-cases,
}
use iot_gathering.Common.Result.{Error, text, Result, ok, err}
use iot_gathering.Models.{TagResult, ReadResult}
use iot_gathering.Workers.Protocol.{
  Phase, Call, connect, read_tags, disconnect, closed, opened, spent, connects, refuses, reads,
  reads_status, disconnects, disconnects_spent, Leads, then_call,
}
use iot_gathering.Workers.Poller.{
  Poller, Pollings, Answers, called, tags_answered, connect_answered, disconnect_answered,
  server_answered, made_driver, next_poll, is_checked, check_server_status, poll_once, run,
}

-- What a poll reports: the tags, or the error of the first call that raised.
abbrev pub error_result : Poller → Answers → Error → ReadResult
error_result p a e = record {
  device = p.device;
  timestamp = a.timestamp;
  tags = [];
  error = some (text e);
}

abbrev pub report_of : Poller → Answers → Option Error → Result (List TagResult) → ReadResult
report_of p a (some e) read = error_result p a e
report_of p a none (err e) = error_result p a e
report_of p a none (ok tags) = record {
  device = p.device;
  timestamp = a.timestamp;
  tags = tags;
  error = none;
}

abbrev pub report : Poller → Answers → ReadResult
report p a = report_of p a a.connected a.tag_results

server_answered-outbox :
    (p : Poller) (s : Pollings) (time : ℕ) (o : Option (Option Error))
    → (server_answered p s time o).outbox ≡ s.outbox
server_answered-outbox p s time none = refl
server_answered-outbox p s time (some none) = refl
server_answered-outbox p s time (some (some e)) = refl

check_server_status-outbox :
    (p : Poller) (s : Pollings) (a : Answers) → (check_server_status p s a).outbox ≡ s.outbox
unfolding check_server_status
check_server_status-outbox p s a = elim (Bool-cases (is_checked p s a.now)) [
  | inl h ↦ rw h (server_answered-outbox p (record s { last_health_check = a.now }) _ _)
  | inr h ↦ rw h refl
]

tags_answered-outbox :
    (p : Poller) (s : Pollings) (a : Answers) (r : Result (List TagResult))
    → (tags_answered p s a r).outbox ≡ s.outbox ++ report_of p a none r ∷ []
tags_answered-outbox p s a (err e) = refl
tags_answered-outbox p s a (ok tags) = refl

connect_answered-outbox :
    (p : Poller) (s : Pollings) (a : Answers) (o : Option Error)
    → (connect_answered p s a o).outbox ≡ s.outbox ++ report_of p a o a.tag_results ∷ []
connect_answered-outbox p s a (some e) = refl
connect_answered-outbox p s a none =
    rw
      (
        tags_answered-outbox p _ a a.tag_results,
        check_server_status-outbox p (called s (connect true)) a,
      )
      refl

disconnect_answered-outbox :
    (p : Poller) (s : Pollings) (o : Option Error) → (disconnect_answered p s o).outbox ≡ s.outbox
disconnect_answered-outbox p s none = refl
disconnect_answered-outbox p s (some e) = refl

made_driver-outbox :
    (p : Poller) (s : Pollings) (a : Answers) (o : Option Error)
    → o ≡ none
    → ((made_driver p s a o).0.outbox ≡ s.outbox ++ report p a ∷ [])
      × ((made_driver p s a o).1 ≡ none)
made_driver-outbox p s a none h = (
  rw (disconnect_answered-outbox p _ a.disconnected) (connect_answered-outbox p s a a.connected),
  refl,
)
made_driver-outbox p s a (some e) h = cc

pub next_poll-keeps :
    (P : Pollings → Type 0) (more : Pollings → Pollings × Option Error)
    (t : Pollings × Option Error)
    → P t.0
    → ((u : Pollings) → P u → P (more u).0)
    → P (next_poll more t).0
next_poll-keeps P more (t, none) h k = k t h
next_poll-keeps P more (t, some e) h k = h

next_poll-none :
    (more : Pollings → Pollings × Option Error) (t : Pollings × Option Error)
    → t.1 ≡ none
    → next_poll more t ≡ more t.0
next_poll-none more (t, none) h = refl
next_poll-none more (t, some e) h = cc

-- Where every driver can be made, the thread does not end by an exception, and each poll puts exactly one
-- result, in the order of the polls: the tags that were read, or the error of the call that raised
-- and no tags, whatever the health check and `disconnect` do.
pub run-report :
    (p : Poller) (s : Pollings) (polls : List Answers)
    → All (λ a. a.factory ≡ none) polls
    → ((run p s polls).0.outbox ≡ s.outbox ++ map (report p) polls) × ((run p s polls).1 ≡ none)
unfolding run poll_once
run-report p s [] h = (sym (append-nil s.outbox), refl)
run-report p s (a ∷ polls) h =
    let (sent, fine) = made_driver-outbox p s a a.factory h.0 in
    let (rest, done) = run-report p (made_driver p s a a.factory).0 polls h.1 in
    rw (next_poll-none (λ t. run p t polls) (made_driver p s a a.factory) fine)
      (rest ∙ rw (sent, append_assoc s.outbox (report p a ∷ []) (map (report p) polls)) refl, done)

-- The calls of one poll, from a driver that is closed to one that is closed again.
pub server_answered-calls :
    (p : Poller) (s : Pollings) (time : ℕ) (o : Option (Option Error))
    → Leads closed s.calls opened
    → Leads closed (server_answered p s time o).calls opened
server_answered-calls p s time none h = h
server_answered-calls p s time (some none) h = then_call h reads_status
server_answered-calls p s time (some (some e)) h = then_call h reads_status

check_server_status-calls :
    (p : Poller) (s : Pollings) (a : Answers)
    → Leads closed s.calls opened
    → Leads closed (check_server_status p s a).calls opened
unfolding check_server_status
check_server_status-calls p s a h = elim (Bool-cases (is_checked p s a.now)) [
  | inl e ↦ rw e (server_answered-calls p (record s { last_health_check = a.now }) _ _ h)
  | inr e ↦ rw e h
]

tags_answered-calls :
    (p : Poller) (s : Pollings) (a : Answers) (r : Result (List TagResult))
    → (tags_answered p s a r).calls ≡ s.calls
tags_answered-calls p s a (err e) = refl
tags_answered-calls p s a (ok tags) = refl

-- The phase that the answer to `connect` leads to.
abbrev after_connect : Option Error → Phase
after_connect none = opened
after_connect (some e) = spent

disconnects_after :
    (o : Option Error) {calls : List Call}
    → Leads closed calls (after_connect o)
    → Leads closed (calls ++ disconnect ∷ []) closed
disconnects_after none h = then_call h disconnects
disconnects_after (some e) h = then_call h disconnects_spent

connect_answered-calls :
    (p : Poller) (s : Pollings) (a : Answers) (o : Option Error)
    → Leads closed s.calls closed
    → Leads closed (connect_answered p s a o).calls (after_connect o)
connect_answered-calls p s a (some e) h = then_call h refuses
connect_answered-calls p s a none h =
    let checked = check_server_status-calls p (called s (connect true)) a (then_call h connects) in
    rw
      (tags_answered-calls p (called (check_server_status p (called s (connect true)) a) read_tags)
        a a.tag_results)
      (then_call checked reads)

made_driver-calls :
    (p : Poller) (s : Pollings) (a : Answers) (o : Option Error)
    → Leads closed s.calls closed
    → Leads closed (made_driver p s a o).0.calls closed
made_driver-calls p s a (some e) h = h
made_driver-calls p s a none h = ends a.disconnected
  where
    connected : Leads closed (connect_answered p s a a.connected).calls (after_connect a.connected)
    connected = connect_answered-calls p s a a.connected h

    ends :
        (o : Option Error)
        → Leads closed (disconnect_answered p (connect_answered p s a a.connected) o).calls closed
    ends none = disconnects_after a.connected connected
    ends (some e) = disconnects_after a.connected connected

-- The calls on the drivers follow the protocol and end with each driver disconnected, whichever calls raise:
-- a driver is connected first, its tags and its status are read only where `connect` returned, and it is
-- disconnected before the next one is made, also where `connect` raises.
pub run-calls :
    (p : Poller) (s : Pollings) (polls : List Answers)
    → Leads closed s.calls closed
    → Leads closed (run p s polls).0.calls closed
unfolding run poll_once
run-calls p s [] h = h
run-calls p s (a ∷ polls) h =
    next_poll-keeps (λ u. Leads closed u.calls closed) (λ t. run p t polls)
      (made_driver p s a a.factory) (made_driver-calls p s a a.factory h)
      (λ u k. run-calls p u polls k)
