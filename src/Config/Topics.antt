-- ===== src/Config/Topics.antt =====
-- What asking for the topic of a route does.
use mathlib.Core.Path.{subst}
use iot_gathering.Common.{
  ℤ, String, true, false, Bool-cases, not, ◌&&◌, some, List, [], ◌∷◌, ◌≡◌, ◌∙◌, refl, ap, inl, inr,
  arith, ◌==◌, string_eq, int_eq, option_eq, nat_eq,
}
use iot_gathering.Common.Text.{is_empty, starts_with, lstrip_slashes, starts_with-append}
use iot_gathering.Common.Json.{Json, text, truthy}
use iot_gathering.Common.Dict.{Dict, get, get-put, some_eq}
use iot_gathering.Common.Values.{Conversions, str, value_or_null, or_value}
use iot_gathering.Common.Result.{
  runtime_error, text as error_text, Result, ok, err, AllFalse-raise_first,
}
use iot_gathering.Models.{OutputRouteConfig}
use iot_gathering.Store.Tables.{
  Store, update_row, with_route_id, has_device, wants_device, stored_route,
  save_output_route as store_route,
}
use iot_gathering.Store.Configs.{list_output_routes as stored_routes}
use iot_gathering.Runtime.Manager.{route_publish_topic}
use iot_gathering.Config.Service.{Service, continue, ◌>>=◌, ◌>>◌, give, read, save}
use iot_gathering.Config.Routes.{route_config, received_topic_path, route_with_id}
use iot_gathering.Config.RouteService.{list_output_routes, next_row}
use iot_gathering.Config.Resolving.{
  Resolver, Resolved, if_topic, topic_answer, read_answer, answered_config, resolved_of, mac_of,
  answer_of, resolve_output_route_topic,
}

-- A topic that the broker gave.
received-starts_with : (topic : String) → starts_with "C-S/" (received_topic_path topic) ≡ true
unfolding received_topic_path
received-starts_with topic = elim (Bool-cases (starts_with "C-S/" (lstrip_slashes topic))) [
  | inl e ↦ rw e e
  | inr e ↦ rw e (starts_with-append "C-S/" (lstrip_slashes topic))
]

-- What the new configuration says: the topic that is published to, or the error and the topics of before.
abbrev pub IsAnswered : Dict String Json → Dict String Json → Result (String × ℤ) → Type 0
IsAnswered before after (ok (topic, count)) =
    (starts_with "C-S/" topic ≡ true) × (route_publish_topic after ≡ some (text topic))
IsAnswered before after (err e) =
    (get after "resolved_error" ≡ some (text (error_text e)))
    × (get after "resolved_topic" ≡ get before "resolved_topic")
    × (get after "topic" ≡ get before "topic")

if_topic-same :
    (given topic : String) (count : ℤ) (r : Result ℤ)
    → if_topic given r ≡ ok (topic, count)
    → given ≡ topic
if_topic-same given topic count (err e) h = cc
if_topic-same given topic count (ok n) h = cc

topic_answer-same :
    (c : Conversions) (resolved : Dict String Json) (given topic : String) (count : ℤ)
    → topic_answer c resolved given ≡ ok (topic, count)
    → given ≡ topic
topic_answer-same c resolved given topic count h = elim (Bool-cases (given == "C-S/")) [
  | inl e ↦ absurd (cc (rw e at h))
  | inr e ↦ if_topic-same given topic count _ (rw e at h)
]

read_answer-starts_with :
    (c : Conversions) (r : Result (Dict String Json)) (topic : String) (count : ℤ)
    → read_answer c r ≡ ok (topic, count)
    → starts_with "C-S/" topic ≡ true
read_answer-starts_with c (err e) topic count h = cc
read_answer-starts_with c (ok resolved) topic count h =
    let given =
      received_topic_path (str c (or_value (value_or_null (get resolved "topic")) (text ""))) in
    subst (λ t. starts_with "C-S/" t ≡ true) (topic_answer-same c resolved given topic count h)
      (received-starts_with _)

topic-truthy : (topic : String) → starts_with "C-S/" topic ≡ true → truthy (text topic) ≡ true
unfolding starts_with truthy
topic-truthy String.[] h = cc
topic-truthy (String.◌∷◌ c s) h = refl

answered_config-IsAnswered :
    (config : Dict String Json) (mac now : String) (r : Result (String × ℤ))
    → ((topic : String) (count : ℤ) → r ≡ ok (topic, count) → starts_with "C-S/" topic ≡ true)
    → IsAnswered config (answered_config config mac now r) r
unfolding route_publish_topic truthy
answered_config-IsAnswered config mac now (err e) h =
    (simp get-put refl, simp get-put refl, simp get-put refl)
answered_config-IsAnswered config mac now (ok (topic, count)) h =
    (h topic count refl, simp (get-put, topic-truthy topic (h topic count refl)) refl)

-- The state.
route_with_id-id :
    (routes : List OutputRouteConfig) (id : ℤ) (route : OutputRouteConfig)
    → route_with_id routes id ≡ some route
    → route.id ≡ some id
route_with_id-id [] id route h = cc
route_with_id-id (r ∷ routes) id route h = elim (Bool-cases (r.id == some id)) [
  | inl e ↦
      subst (λ q. q.id ≡ some id) (some_eq (rw e at h))
        (((option_eq {A = ℤ}).beq_iff r.id (some id)).0 e)
  | inr e ↦ route_with_id-id routes id route (rw e at h)
]

store_route-ok :
    (s : Store) (route : OutputRouteConfig)
    → has_device s route.device_id ≡ true
    → store_route s route ≡ ok (stored_route s route route.id)
unfolding store_route
store_route-ok s route owned =
    let checks =
      (
        wants_device s route && not (has_device s route.device_id),
        runtime_error "FOREIGN KEY constraint failed",
      )
      ∷ [] in
    let passed = AllFalse-raise_first checks (ground arith, tt) in rw passed refl

continue-same {ℓ κ} :
    {A : Type ℓ} {B : Type κ} (t : Store) (r : Result A) (k : A → Service B)
    → ((a : A) (u : Store) → (k a u).0 ≡ u)
    → (continue (t, r) k).0 ≡ t
continue-same t (err e) k h = refl
continue-same t (ok a) k h = h a t

module _ (c : Conversions) (id_text : ℤ → String) (resolver : Resolver) (now : String) where
  abbrev rest : ℤ → Result (String × ℤ) → Service Resolved
  rest id answer = do
    rows ← list_output_routes c id_text
    row ← give (next_row rows id)
    give (ok (resolved_of now row answer))

  -- What follows once the route is saved leaves the store alone.
  rest-same : (t : Store) (id : ℤ) (answer : Result (String × ℤ)) → (rest id answer t).0 ≡ t
  unfolding ◌>>=◌ give list_output_routes
  rest-same t id answer =
      continue-same t _ _ (λ rows u. continue-same u (next_row rows id) _ (λ row v. refl))

  saved-state :
      (s : Store) (route : OutputRouteConfig) (id : ℤ) (answer : Result (String × ℤ))
      → has_device s route.device_id ≡ true
      → route.id ≡ some id
      → ((save (λ t. store_route t route) >> rest id answer) s).0
        ≡ record s { routes = update_row s.routes id (with_route_id route id) }
  unfolding ◌>>◌ save
  saved-state s route id answer owned named = rw (store_route-ok s route owned) (
      rest-same (stored_route s route route.id).0 id answer
      ∙ ap (λ o. (stored_route s route o).0) named)

  -- Asking for the topic of a route changes the configuration of that route in its row and nothing else of the
  -- store, whatever the resolver answers and also where it raises; the route is one that the store lists, its
  -- configuration can be read, it has an address, and its device is there. Where a topic is received,
  -- the route is published to it from then on, and it starts with "C-S/"; where none is, the error is kept
  -- and the topics of before stay.
  pub resolve_output_route_topic-IsAnswered :
      (s : Store) (id : ℤ) (route : OutputRouteConfig) (config : Dict String Json)
      → route_with_id (stored_routes s) id ≡ some route
      → route_config c route.config [] ≡ ok config
      → is_empty (mac_of c id_text resolver now config) ≡ false
      → has_device s route.device_id ≡ true
      → (after : Dict String Json) × ((resolve_output_route_topic c id_text resolver now id s).0
          ≡ record s {
            routes = update_row s.routes id (with_route_id (record route { config = after }) id);
          })
        × IsAnswered config after
            (answer_of c id_text resolver now s (mac_of c id_text resolver now config))
  unfolding resolve_output_route_topic ◌>>=◌ ◌>>◌ give read save
  resolve_output_route_topic-IsAnswered s id route config found read_config mac owned =
      let address = mac_of c id_text resolver now config in
      let answer = answer_of c id_text resolver now s address in
      let after = answered_config config address now answer in
      (
        after,
        rw (found, continue, read_config, mac)
            (saved-state s (record route { config = after }) id answer owned
              (route_with_id-id (stored_routes s) id route found)),
        answered_config-IsAnswered config address now answer
            (λ topic count h. read_answer-starts_with c _ topic count h),
      )
