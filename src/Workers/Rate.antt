-- ===== src/Workers/Rate.antt =====
-- The rate of the health checks of `DriverPoller`.
use iot_gathering.Common.{
  ℕ, ◌+◌, ◌*◌, ◌≤◌, true, Option, none, some, List, [], ◌∷◌, ◌++◌, length, length-append, ◌≡◌, inl,
  inr, Bool-cases, arith, string_eq,
}
use iot_gathering.Common.Result.{Error, Result, ok, err}
use iot_gathering.Models.{TagResult}
use iot_gathering.Runtime.Queues.{ServerStatus}
use iot_gathering.Workers.Protocol.{connect, read_tags}
use iot_gathering.Workers.Poller.{
  Poller, Pollings, Answers, called, tags_answered, connect_answered, disconnect_answered,
  server_answered, made_driver, is_checked, check_server_status, poll_once, run,
}
use iot_gathering.Workers.Polling.{next_poll-keeps}

-- `last_health_check` has moved by an interval for each status that was put.
abbrev IsRated : ℕ → Pollings → Pollings → Type 0
IsRated interval s t =
    length t.status_outbox * interval + s.last_health_check
    ≤ t.last_health_check + length s.status_outbox * interval

one_more : (n i l now : ℕ) → l + i ≤ now → (n + 1) * i + l ≤ now + n * i
one_more n i l now h = omega arith

IsRated-put :
    (i l now : ℕ) (old : List ServerStatus) (new : ServerStatus)
    → l + i ≤ now
    → length (old ++ new ∷ []) * i + l ≤ now + length old * i
IsRated-put i l now old new h = rw (length-append old (new ∷ [])) (one_more (length old) i l now h)

server_answered-IsRated :
    (p : Poller) (s : Pollings) (now time : ℕ) (o : Option (Option Error))
    → s.last_health_check + p.health_interval ≤ now
    → IsRated p.health_interval s (server_answered p (record s { last_health_check = now }) time o)
server_answered-IsRated p s now time none h = omega arith
server_answered-IsRated p s now time (some none) h =
    IsRated-put p.health_interval s.last_health_check now s.status_outbox _ h
server_answered-IsRated p s now time (some (some e)) h =
    IsRated-put p.health_interval s.last_health_check now s.status_outbox _ h

is_checked-due :
    (p : Poller) (s : Pollings) (now : ℕ)
    → is_checked p s now ≡ true
    → s.last_health_check + p.health_interval ≤ now
is_checked-due p s now h = ground arith

check_server_status-IsRated :
    (p : Poller) (s : Pollings) (a : Answers)
    → IsRated p.health_interval s (check_server_status p s a)
unfolding check_server_status
check_server_status-IsRated p s a = elim (Bool-cases (is_checked p s a.now)) [
  | inl h ↦ rw h (server_answered-IsRated p s a.now _ _ (is_checked-due p s a.now h))
  | inr h ↦ rw h (omega arith)
]

connect_answered-IsRated :
    (p : Poller) (s : Pollings) (a : Answers) (o : Option Error)
    → IsRated p.health_interval s (connect_answered p s a o)
connect_answered-IsRated p s a (some e) = omega arith
connect_answered-IsRated p s a none = answered a.tag_results
  where
    answered :
        (r : Result (List TagResult))
        → IsRated p.health_interval s (
            tags_answered p
              (called (check_server_status p (called s (connect true)) a) read_tags)
              a
              r)
    answered (ok tags) = check_server_status-IsRated p (called s (connect true)) a
    answered (err e) = check_server_status-IsRated p (called s (connect true)) a

made_driver-IsRated :
    (p : Poller) (s : Pollings) (a : Answers) (o : Option Error)
    → IsRated p.health_interval s (made_driver p s a o).0
made_driver-IsRated p s a (some e) = omega arith
made_driver-IsRated p s a none = answered a.disconnected
  where
    answered :
        (o : Option Error)
        → IsRated p.health_interval s (disconnect_answered p (connect_answered p s a a.connected) o)
    answered none = connect_answered-IsRated p s a a.connected
    answered (some e) = connect_answered-IsRated p s a a.connected

IsRated-next : (i : ℕ) (s t u : Pollings) → IsRated i s t → IsRated i t u → IsRated i s u
IsRated-next i s t u h k = omega arith

-- However fast the polls follow each other and whatever the server answers, the thread reports the status of the
-- server at most once in an interval: the statuses that `run` puts, times the interval, are no more
-- than the time between the last health check before it and the last one in it.
pub run-IsRated :
    (p : Poller) (s : Pollings) (polls : List Answers)
    → length (run p s polls).0.status_outbox * p.health_interval + s.last_health_check
      ≤ (run p s polls).0.last_health_check + length s.status_outbox * p.health_interval
unfolding run poll_once
run-IsRated p s [] = omega arith
run-IsRated p s (a ∷ polls) =
    next_poll-keeps (IsRated p.health_interval s) (λ t. run p t polls) (made_driver p s a a.factory)
      (made_driver-IsRated p s a a.factory)
      (λ u k. IsRated-next p.health_interval s u (run p u polls).0 k (run-IsRated p u polls))
