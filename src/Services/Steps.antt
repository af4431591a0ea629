-- ===== src/Services/Steps.antt =====
-- Rules for the startup of a service: what holds after a wrapped call to one of the three systems,
-- from what holds after its success and its failure.
use nocturne_atlas_event_str.Prelude.{String, ◌≡◌, refl}
use nocturne_atlas_event_str.Exec.{Error, wrap, Result, ok, err, Exec, or_wrap, ◌>>=◌}
use nocturne_atlas_event_str.Services.{World, on_postgres, on_kafka, on_elastic}

module _ {P K E A B : Type 0} (Q : Result B → World P K E → Type 0) (t : String)
    (f : A → Exec (World P K E) B) (w : World P K E) where
  abbrev world : P → K → E → World P K E
  world p k e = record { postgres = p; kafka = k; elastic = e }

  postgres_split :
      (m : Exec P A) (r : Result A) (x : P)
      → m w.postgres ≡ (r, x)
      → ((a : A) (x1 : P)
          → m w.postgres ≡ (ok a, x1)
          → Q (f a (world x1 w.kafka w.elastic)).0 (f a (world x1 w.kafka w.elastic)).1)
      → ((y : Error) (x1 : P)
          → m w.postgres ≡ (err y, x1)
          → Q (err (wrap t y)) (world x1 w.kafka w.elastic))
      → Q
          ((or_wrap t (on_postgres (λ (_ : P). (r, x))) >>= f) w).0
          ((or_wrap t (on_postgres (λ (_ : P). (r, x))) >>= f) w).1
  postgres_split m (ok a) x e good bad = good a x e
  postgres_split m (err y) x e good bad = bad y x e

  pub after_postgres :
      (m : Exec P A)
      → ((a : A) (x1 : P)
          → m w.postgres ≡ (ok a, x1)
          → Q (f a (world x1 w.kafka w.elastic)).0 (f a (world x1 w.kafka w.elastic)).1)
      → ((y : Error) (x1 : P)
          → m w.postgres ≡ (err y, x1)
          → Q (err (wrap t y)) (world x1 w.kafka w.elastic))
      → Q ((or_wrap t (on_postgres m) >>= f) w).0 ((or_wrap t (on_postgres m) >>= f) w).1
  after_postgres m = postgres_split m (m w.postgres).0 (m w.postgres).1 refl

  kafka_split :
      (m : Exec K A) (r : Result A) (x : K)
      → m w.kafka ≡ (r, x)
      → ((a : A) (x1 : K)
          → m w.kafka ≡ (ok a, x1)
          → Q (f a (world w.postgres x1 w.elastic)).0 (f a (world w.postgres x1 w.elastic)).1)
      → ((y : Error) (x1 : K)
          → m w.kafka ≡ (err y, x1)
          → Q (err (wrap t y)) (world w.postgres x1 w.elastic))
      → Q
          ((or_wrap t (on_kafka (λ (_ : K). (r, x))) >>= f) w).0
          ((or_wrap t (on_kafka (λ (_ : K). (r, x))) >>= f) w).1
  kafka_split m (ok a) x e good bad = good a x e
  kafka_split m (err y) x e good bad = bad y x e

  pub after_kafka :
      (m : Exec K A)
      → ((a : A) (x1 : K)
          → m w.kafka ≡ (ok a, x1)
          → Q (f a (world w.postgres x1 w.elastic)).0 (f a (world w.postgres x1 w.elastic)).1)
      → ((y : Error) (x1 : K)
          → m w.kafka ≡ (err y, x1)
          → Q (err (wrap t y)) (world w.postgres x1 w.elastic))
      → Q ((or_wrap t (on_kafka m) >>= f) w).0 ((or_wrap t (on_kafka m) >>= f) w).1
  after_kafka m = kafka_split m (m w.kafka).0 (m w.kafka).1 refl

  elastic_split :
      (m : Exec E A) (r : Result A) (x : E)
      → m w.elastic ≡ (r, x)
      → ((a : A) (x1 : E)
          → m w.elastic ≡ (ok a, x1)
          → Q (f a (world w.postgres w.kafka x1)).0 (f a (world w.postgres w.kafka x1)).1)
      → ((y : Error) (x1 : E)
          → m w.elastic ≡ (err y, x1)
          → Q (err (wrap t y)) (world w.postgres w.kafka x1))
      → Q
          ((or_wrap t (on_elastic (λ (_ : E). (r, x))) >>= f) w).0
          ((or_wrap t (on_elastic (λ (_ : E). (r, x))) >>= f) w).1
  elastic_split m (ok a) x e good bad = good a x e
  elastic_split m (err y) x e good bad = bad y x e

  pub after_elastic :
      (m : Exec E A)
      → ((a : A) (x1 : E)
          → m w.elastic ≡ (ok a, x1)
          → Q (f a (world w.postgres w.kafka x1)).0 (f a (world w.postgres w.kafka x1)).1)
      → ((y : Error) (x1 : E)
          → m w.elastic ≡ (err y, x1)
          → Q (err (wrap t y)) (world w.postgres w.kafka x1))
      → Q ((or_wrap t (on_elastic m) >>= f) w).0 ((or_wrap t (on_elastic m) >>= f) w).1
  after_elastic m = elastic_split m (m w.elastic).0 (m w.elastic).1 refl
