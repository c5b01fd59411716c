-- ===== src/Workers/Protocol.antt =====
-- The calls that a thread of workers.py makes on the driver of a device, and the order that they may stand in.
-- `connect` and `start_subscription` say whether the call returned.
use iot_gathering.Common.{Bool, true, false, List, [], ◌∷◌, ◌++◌}

pub data Call : Type 0 where
  connect : Bool → Call
  read_server_status : Call
  read_tags : Call
  start_subscription : Bool → Call
  run_subscription_once : Call
  stop_subscription : Call
  disconnect : Call

pub data Phase : Type 0 where
  closed opened subscribed spent : Phase

-- One call. Tags and status are read of a driver that is connected; one that did not connect, whose
-- subscription did not start or was stopped is spent, and is only disconnected.
pub data IsCall : Phase → Call → Phase → Type 0 where
  connects : IsCall closed (connect true) opened
  refuses : IsCall closed (connect false) spent
  reads : IsCall opened read_tags opened
  reads_status : IsCall opened read_server_status opened
  starts : IsCall opened (start_subscription true) subscribed
  fails_to_start : IsCall opened (start_subscription false) spent
  runs : IsCall subscribed run_subscription_once subscribed
  checks_status : IsCall subscribed read_server_status subscribed
  stops : IsCall subscribed stop_subscription spent
  disconnects : IsCall opened disconnect closed
  disconnects_spent : IsCall spent disconnect closed

-- The calls of a sequence, the last one at the end, as the threads make them.
pub data Leads (p : Phase) : List Call → Phase → Type 0 where
  nothing : Leads p [] p
  then_call :
      {calls : List Call} {c : Call} {q r : Phase}
      → Leads p calls q
      → IsCall q c r
      → Leads p (calls ++ c ∷ []) r
