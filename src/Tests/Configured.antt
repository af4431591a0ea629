-- ===== src/Tests/Configured.antt =====
-- The theorem on the routes of the settings at a concrete input.
use nocturne_atlas_event_str.Prelude.{
  String, ◌≡◌, refl, true, none, some, [], ◌∷◌, ◌==◌, if◌then◌else◌,
}
use nocturne_atlas_event_str.Prelude.Text.{is_space}
use nocturne_atlas_event_str.Prelude.Cutting.{lacks, is_solid}
use nocturne_atlas_event_str.Config.{get_env, load}
use nocturne_atlas_event_str.Kafka.Routing.{new_topic_resolver, resolve, or_fallback}
use nocturne_atlas_event_str.Kafka.Configured.{IsPlain, spell, last_route, resolve-load}
use nocturne_atlas_event_str.Tests.World.{created}

abbrev env : String → String
env name = if name == "KAFKA_TOPIC_ROUTES" then "order:orders,user:users" else ""

abbrev order_route : String × String
order_route = ("order", "orders")

abbrev user_route : String × String
user_route = ("user", "users")

order_route-IsPlain : IsPlain order_route
unfolding lacks is_solid is_space
order_route-IsPlain = record {
  prefix_given = refl;
  topic_given = refl;
  prefix_lacks = (refl, refl);
  topic_lacks = refl;
  solid = (refl, refl);
}

user_route-IsPlain : IsPlain user_route
unfolding lacks is_solid is_space
user_route-IsPlain = record {
  prefix_given = refl;
  topic_given = refl;
  prefix_lacks = (refl, refl);
  topic_lacks = refl;
  solid = (refl, refl);
}

spelled : env "KAFKA_TOPIC_ROUTES" ≡ spell order_route (user_route ∷ [])
unfolding spell
spelled = refl

last_of_order : last_route "order" (order_route ∷ user_route ∷ []) ≡ some "orders"
unfolding last_route
last_of_order = refl

order_lacks : lacks b':' "order" ≡ true
unfolding lacks
order_lacks = refl

resolve-load_example :
    resolve (new_topic_resolver (load env (λ s. none)).kafka) created
    ≡ or_fallback
        (last_route "order" (order_route ∷ user_route ∷ []))
        (get_env env (λ s. none) "KAFKA_TOPIC" "events.v1")
resolve-load_example =
    resolve-load env (λ s. none) order_route (user_route ∷ []) created "order" "1"
      (order_route-IsPlain, (user_route-IsPlain, tt)) spelled refl refl order_lacks
