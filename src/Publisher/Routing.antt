-- ===== src/Publisher/Routing.antt =====
-- `_route_for` picks the most specific route.
use iot_gathering.Common.{ℕ, ◌≤◌, ◌<◌, String, Option, none, some, List, ◌≡◌, All, if◌then◌else◌}
use iot_gathering.Models.{DeviceSpec}
use iot_gathering.Publisher.Messages.{OutputRoute}
use iot_gathering.Publisher.Routes.{is_exact, is_device_default, is_group_default}

-- How far a route is from a device and a tag group: 0 for a route of both, 1 for one of the device, 2 for
-- one of the group on every device, 3 for one that is for neither.
unfoldable pub distance : DeviceSpec → String → OutputRoute → ℕ
distance device group route =
    if is_exact device group route
    then 0
    else if is_device_default device route
    then 1
    else if is_group_default group route
    then 2
    else 3

-- What `_route_for` may return: a nearest route, or nothing where all are for neither.
pub data IsNearest (device : DeviceSpec) (group : String) (routes : List OutputRoute)
    : Option OutputRoute → Type 0 where
  nearest :
      (route : OutputRoute)
      → distance device group route < 3
      → All (λ r. distance device group route ≤ distance device group r) routes
      → IsNearest device group routes (some route)
  no_route : All (λ r. distance device group r ≡ 3) routes → IsNearest device group routes none
