-- ===== src/Kafka/Configured.antt =====
-- From KAFKA_TOPIC_ROUTES (internal/config/config.go) to the topic of an event
-- (internal/infrastructure/kafka/topic_resolver.go).
use Prim.Native.String
use text.Mathlib.TextLemmas.{nil-append}
use nocturne_atlas_event_str.Prelude.{
  ℕ, String, ◌≡◌, refl, sym, ap, ◌∙◌, Bool, true, false, Option, none, some, List, [], ◌∷◌, ◌==◌,
  eq_iff, map, All, arith, Bool-cases, inl, inr, if◌then◌else◌,
}
use nocturne_atlas_event_str.Prelude.Int.{ℤ}
use nocturne_atlas_event_str.Prelude.Dict.{Dict, lookup, insert, lookup-insert}
use nocturne_atlas_event_str.Prelude.Text.{split, cut, cut_from, trim_space, is_space}
use nocturne_atlas_event_str.Prelude.Cutting.{
  lacks, split_from-lacks, split_from-end, cut_from-lacks, lacks-append, is_solid, is_solid-append,
  trim_space-is_solid,
}
use nocturne_atlas_event_str.Domain.{Event}
use nocturne_atlas_event_str.Config.{
  KafkaConfig, add_route, add_routes, parse_topic_routes, get_env, load,
}
use nocturne_atlas_event_str.Kafka.Routing.{new_topic_resolver, resolve, or_fallback}

-- A route as it is written: a prefix without ":" and a topic, neither empty nor with a comma or white
-- space.
pub record IsPlain (route : String × String) : Type 0 where
  pub prefix_given : (route.0 == "") ≡ false
  pub topic_given : (route.1 == "") ≡ false
  pub prefix_lacks : (lacks b',' route.0 ≡ true) × (lacks b':' route.0 ≡ true)
  pub topic_lacks : lacks b',' route.1 ≡ true
  pub solid : (is_solid route.0 ≡ true) × (is_solid route.1 ≡ true)

abbrev spell_route : String × String → String
spell_route (k, t) = String.◌++◌ k (String.◌++◌ ":" t)

-- The value of KAFKA_TOPIC_ROUTES for some routes.
unfoldable pub spell : String × String → List (String × String) → String
spell r [] = spell_route r
spell r (x ∷ rs) = String.◌++◌ (spell_route r) (String.◌++◌ "," (spell x rs))

spell_route-lacks : (r : String × String) → IsPlain r → lacks b',' (spell_route r) ≡ true
unfolding lacks
spell_route-lacks (k, t) p =
    lacks-append b',' k _ p.prefix_lacks.0 (lacks-append b',' ":" t refl p.topic_lacks)

split-spell :
    (r : String × String) (rs : List (String × String))
    → All IsPlain (r ∷ rs)
    → split b',' (spell r rs) ≡ map spell_route (r ∷ rs)
unfolding spell
split-spell r [] (p, h) =
    split_from-end b',' "" (spell_route r) (spell_route-lacks r p)
    ∙ ap (λ (x : String). x ∷ []) (nil-append (spell_route r))
split-spell r (x ∷ rs) (p, h) =
    split_from-lacks b',' "," "" (spell_route r) (spell x rs) refl (spell_route-lacks r p)
    ∙ ap (λ (y : String). y ∷ split b',' (spell x rs)) (nil-append (spell_route r))
    ∙ ap (λ (l : List String). spell_route r ∷ l) (split-spell x rs h)

-- All routes are inserted in their order.
abbrev insert_all : List (String × String) → Dict String → Dict String
insert_all [] d = d
insert_all ((k, t) ∷ rs) d = insert_all rs (insert k t d)

add_route-spell :
    (r : String × String) (d : Dict String)
    → IsPlain r
    → add_route (cut b':' (trim_space (spell_route r))) d ≡ insert r.0 r.1 d
unfolding is_solid is_space
add_route-spell (k, t) d p =
    let solid : is_solid (spell_route (k, t)) ≡ true =
      is_solid-append k _ p.solid.0 (is_solid-append ":" t refl p.solid.1) in
    let found : cut b':' (spell_route (k, t)) ≡ some (k, t) =
      cut_from-lacks b':' ":" "" k t refl p.prefix_lacks.1
      ∙ ap (λ (x : String). some (x, t)) (nil-append k) in
    let a = p.prefix_given in
    let b = p.topic_given in rw (trim_space-is_solid (spell_route (k, t)) solid, found, a, b) refl

add_routes-spell :
    (rs : List (String × String)) (d : Dict String)
    → All IsPlain rs
    → add_routes (map spell_route rs) d ≡ insert_all rs d
unfolding add_routes
add_routes-spell [] d h = refl
add_routes-spell (r ∷ rs) d (p, h) =
    ap (add_routes (map spell_route rs)) (add_route-spell r d p)
    ∙ add_routes-spell rs (insert r.0 r.1 d) h

abbrev or_else : Option String → Option String → Option String
or_else none o = o
or_else (some t) o = some t

-- The topic of the last route of a prefix.
unfoldable pub last_route : String → List (String × String) → Option String
last_route k [] = none
last_route k ((j, t) ∷ rs) = or_else (last_route k rs) (if j == k then some t else none)

lookup-insert_all :
    (k : String) (rs : List (String × String)) (d : Dict String)
    → lookup k (insert_all rs d) ≡ or_else (last_route k rs) (lookup k d)
unfolding last_route
lookup-insert_all k [] d = refl
lookup-insert_all k ((j, t) ∷ rs) d =
    lookup-insert_all k rs (insert j t d)
    ∙ ap (or_else (last_route k rs)) (lookup-insert j k t d)
    ∙ nested (last_route k rs) (j == k) t (lookup k d)
  where
    nested :
        (o : Option String) (b : Bool) (t : String) (below : Option String)
        → or_else o (if b then some t else below)
          ≡ or_else (or_else o (if b then some t else none)) below
    nested (some u) b t below = refl
    nested none true t below = refl
    nested none false t below = refl

or_else-none : (o : Option String) → or_else o none ≡ o
or_else-none none = refl
or_else-none (some t) = refl

cut-nonempty : (sep : ℕ) (s a b : String) → cut sep s ≡ some (a, b) → (s == "") ≡ false
unfolding cut_from
cut-nonempty sep s a b h = elim (Bool-cases (s == "")) [
  | inl empty ↦
      let k : ◌≡◌ {A = Option (String × String)} none (some (a, b)) =
        ap (cut sep) (sym ((eq_iff s "").0 empty)) ∙ h in
      absurd (ground arith)
  | inr given ↦ given
]

spell-nonempty :
    (r : String × String) (rs : List (String × String))
    → All IsPlain (r ∷ rs)
    → (spell r rs == "") ≡ false
unfolding spell
spell-nonempty (k, t) [] (p, h) =
    cut-nonempty b':' _ _ _ (cut_from-lacks b':' ":" "" k t refl p.prefix_lacks.1)
spell-nonempty r (x ∷ rs) (p, h) =
    cut-nonempty b',' _ _ _
      (cut_from-lacks b',' "," "" (spell_route r) (spell x rs) refl (spell_route-lacks r p))

parse-spell :
    (r : String × String) (rs : List (String × String))
    → All IsPlain (r ∷ rs)
    → parse_topic_routes (spell r rs) ≡ insert_all (r ∷ rs) []
unfolding parse_topic_routes
parse-spell r rs h =
    let given = spell-nonempty r rs h in
    rw given
      (ap (λ pairs. add_routes pairs []) (split-spell r rs h) ∙ add_routes-spell (r ∷ rs) [] h)

-- The resolver goes by the routes, also where there is none.
resolve_lem :
    (cfg : KafkaConfig) (e : Event) (k rest : String)
    → cut b':' e.stream_id ≡ some (k, rest)
    → (k == "") ≡ false
    → resolve (new_topic_resolver cfg) e ≡ or_fallback (lookup k cfg.topic_routes) cfg.topic
unfolding resolve new_topic_resolver lookup
resolve_lem cfg e k rest h given = go cfg.topic_routes refl
  where
    go :
        (routes : Dict String)
        → cfg.topic_routes ≡ routes
        → resolve (new_topic_resolver cfg) e ≡ or_fallback (lookup k cfg.topic_routes) cfg.topic
    go [] empty = rw empty refl
    go (x ∷ xs) some_given = rw some_given (rw h (rw given refl))

-- With KAFKA_TOPIC_ROUTES spelled for routes whose prefixes and topics are not empty and have no
-- comma or white space, and the prefixes no colon: an event whose stream ID is a non-empty domain
-- without a colon, a colon and anything goes to the topic of the last route that names the domain,
-- and to KAFKA_TOPIC, or its default, if no route does.
pub resolve-load :
    (getenv : String → String) (atoi : String → Option ℤ) (r : String × String)
    (rs : List (String × String)) (e : Event) (domain rest : String)
    → All IsPlain (r ∷ rs)
    → getenv "KAFKA_TOPIC_ROUTES" ≡ spell r rs
    → e.stream_id ≡ String.◌++◌ domain (String.◌++◌ ":" rest)
    → (domain == "") ≡ false
    → lacks b':' domain ≡ true
    → resolve (new_topic_resolver (load getenv atoi).kafka) e
      ≡ or_fallback (last_route domain (r ∷ rs)) (get_env getenv atoi "KAFKA_TOPIC" "events.v1")
unfolding load get_env lookup
resolve-load getenv atoi r rs e domain rest plain set stream given clean =
    let cfg = (load getenv atoi).kafka in
    let found : cut b':' e.stream_id ≡ some (domain, rest) =
      ap (cut b':') stream
      ∙ cut_from-lacks b':' ":" "" domain rest refl clean
      ∙ ap (λ (x : String). some (x, rest)) (nil-append domain) in
    let value : get_env getenv atoi "KAFKA_TOPIC_ROUTES" "" ≡ spell r rs =
      rw (set, spell-nonempty r rs plain) refl in
    resolve_lem cfg e domain rest found given
    ∙ ap (λ o. or_fallback o cfg.topic)
        (ap (λ raw. lookup domain (parse_topic_routes raw)) value
          ∙ ap (lookup domain) (parse-spell r rs plain)
          ∙ lookup-insert_all domain (r ∷ rs) []
          ∙ or_else-none (last_route domain (r ∷ rs)))
