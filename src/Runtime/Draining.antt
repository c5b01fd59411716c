-- ===== src/Runtime/Draining.antt =====
-- `drain_events` takes the whole queue where the limit allows it, and keeps 500 log lines.
use iot_gathering.Common.{
  ℕ, zero, suc, ◌+◌, ◌-◌, ◌≤◌, String, List, [], ◌∷◌, ◌++◌, map, ◌≡◌, refl, sym, ap, ◌∙◌, arith,
  length, length-append, length-drop,
}
use mathlib.Core.List.{append_assoc, append-nil}
use iot_gathering.Common.Dict.{Dict, values}
use iot_gathering.Runtime.Queues.{
  StatusItem, tag_update, server_status, message, StatusKey, StatusQueue, get_status,
}
use iot_gathering.Runtime.Manager.{
  Manager, Event, reported, logged, record_status, with_queue, drain_statuses, push_log,
  drain_lines, drain_events,
}

-- What the manager knows after a row of statuses.
unfoldable pub record_all : Manager → List StatusItem → Manager
unfolding record_status
record_all m [] = m
record_all m (item ∷ items) = record_all (record_status m item) items

status_queue-record_status :
    (m : Manager) (item : StatusItem) → (record_status m item).status_queue ≡ m.status_queue
unfolding record_status
status_queue-record_status m (tag_update u) = refl
status_queue-record_status m (server_status s) = refl
status_queue-record_status m (message s) = refl

-- The queue that is left after all items were taken.
abbrev pub emptied : Manager → Manager
emptied m = with_queue m (record { items = []; sequence = m.status_queue.sequence })

record_status-with_queue :
    (m : Manager) (queue : StatusQueue) (item : StatusItem)
    → record_status (with_queue m queue) item ≡ with_queue (record_status m item) queue
unfolding record_status
record_status-with_queue m queue (tag_update u) = refl
record_status-with_queue m queue (server_status s) = refl
record_status-with_queue m queue (message s) = refl

record_all-with_queue :
    (m : Manager) (queue : StatusQueue) (items : List StatusItem)
    → record_all (with_queue m queue) items ≡ with_queue (record_all m items) queue
unfolding record_all
record_all-with_queue m queue [] = refl
record_all-with_queue m queue (item ∷ items) =
    ap (λ n. record_all n items) (record_status-with_queue m queue item)
    ∙ record_all-with_queue (record_status m item) queue items

drain_statuses-all :
    (limit : ℕ) (m : Manager) (events : List Event) (items : Dict StatusKey StatusItem) (n : ℕ)
    → length items ≤ limit
    → drain_statuses limit (with_queue m (record { items = items; sequence = n })) events ≡ (
      with_queue (record_all m (values items)) (record { items = []; sequence = n }),
      events ++ map reported (values items),
    )
unfolding drain_statuses record_all get_status
drain_statuses-all zero m events [] n h = ap (λ e. (_, e)) (sym (append-nil events))
drain_statuses-all zero m events (p ∷ items) n h = absurd (omega arith)
drain_statuses-all (suc limit) m events [] n h = ap (λ e. (_, e)) (sym (append-nil events))
drain_statuses-all (suc limit) m events (p ∷ items) n h =
    ap (λ k. drain_statuses limit k (events ++ reported p.1 ∷ []))
      (record_status-with_queue m (record { items = items; sequence = n }) p.1)
    ∙ drain_statuses-all limit (record_status m p.1) (events ++ reported p.1 ∷ []) items n
        (omega arith)
    ∙ ap
        (λ e. (
          with_queue (record_all (record_status m p.1) (values items))
              (record { items = []; sequence = n }),
          e,
        ))
        (append_assoc events (reported p.1 ∷ []) (map reported (values items)))

logs-drain_lines :
    (m : Manager) (events : List Event) (lines : List String)
    → length m.logs ≤ 500
    → length (drain_lines m events lines).0.logs ≤ 500
unfolding drain_lines
logs-drain_lines m events [] h = h
logs-drain_lines m events (line ∷ lines) h =
    logs-drain_lines (record m { logs = push_log m.logs line }) (events ++ logged line ∷ []) lines
      (omega (
        arith,
        length-drop (length m.logs + 1 - 500) (m.logs ++ line ∷ []),
        length-append m.logs (line ∷ []),
      ))

kept-drain_lines :
    (m : Manager) (events : List Event) (lines : List String)
    → ((drain_lines m events lines).0.status_queue ≡ m.status_queue)
      × ((drain_lines m events lines).0.runtime_tags ≡ m.runtime_tags)
      × ((drain_lines m events lines).0.server_statuses ≡ m.server_statuses)
      × ((drain_lines m events lines).1 ≡ events ++ map logged lines)
unfolding drain_lines
kept-drain_lines m events [] = (refl, refl, refl, sym (append-nil events))
kept-drain_lines m events (line ∷ lines) =
    let k =
      kept-drain_lines (record m { logs = push_log m.logs line }) (events ++ logged line ∷ [])
        lines in
    (k.0, k.1, k.2, k.3 ∙ append_assoc events (logged line ∷ []) (map logged lines))

-- What a drain of all items gives.
pub record IsDrained (m : Manager) (lines : List String) (r : Manager × List Event) : Type 0 where
  pub empty : r.0.status_queue.items ≡ []
  pub tags : r.0.runtime_tags ≡ (record_all m (values m.status_queue.items)).runtime_tags
  pub servers : r.0.server_statuses ≡ (record_all m (values m.status_queue.items)).server_statuses
  pub events : r.1 ≡ map reported (values m.status_queue.items) ++ map logged lines
  pub bounded : length r.0.logs ≤ 500

logs-record_all : (m : Manager) (items : List StatusItem) → (record_all m items).logs ≡ m.logs
unfolding record_all record_status
logs-record_all m [] = refl
logs-record_all m (tag_update u ∷ items) = logs-record_all (record_status m (tag_update u)) items
logs-record_all m (server_status s ∷ items) =
    logs-record_all (record_status m (server_status s)) items
logs-record_all m (message s ∷ items) = logs-record_all m items

-- Where the limit is not below the number of items that wait, `drain_events` empties the queue, records the
-- items in their order, returns them and then the log lines as events in their order, and keeps at most 500
-- log lines if there were at most 500.
pub drain_events-IsDrained :
    (limit : ℕ) (m : Manager) (lines : List String)
    → length m.status_queue.items ≤ limit
    → length m.logs ≤ 500
    → IsDrained m lines (drain_events limit m lines)
unfolding drain_events
drain_events-IsDrained limit m lines h k =
    let all = drain_statuses-all limit m [] m.status_queue.items m.status_queue.sequence h in
    let taken = emptied (record_all m (values m.status_queue.items)) in
    rw all (
      let kept = kept-drain_lines _ (map reported (values m.status_queue.items)) lines in
      record {
        empty = ap (λ q. q.items) kept.0;
        tags = kept.1;
        servers = kept.2;
        events = kept.3;
        bounded =
            logs-drain_lines _ _ lines
              (omega (arith, ap length (logs-record_all m (values m.status_queue.items)), k));
      })
