-- ===== src/Startup/Parts.antt =====
-- The parts of a `main`: which calls each makes, and where it ends if one of them fails.
use wire_server.Prelude.{
  ℕ, String, true, false, Option, none, some, List, [], ◌∷◌, ◌++◌, ◌≡◌, ◌⊎◌, refl, sym, ap, ◌∙◌,
  inl, inr, All, Bool-cases, if◌then◌else◌,
}
use mathlib.Core.List.{append-nil, append_assoc}
use wire_server.Text.{equal_fold}
use wire_server.Services.EventBus.{new_event_bus}
use wire_server.Config.{Loaded}
use wire_server.Config.Required.{Settled, blank}
use wire_server.Config.Addresses.{Credentials, parse_addrs, load_mtls_credentials}
use wire_server.Startup.{
  Call, parse_url, create_pool, ping_pool, open_migrations, migrate_up, close_migrations,
  ping_redis, dial, Machine, Stop, missing, panics, fatal, waits, connect_kafka, subscribe_to,
  start_bus, start_status_consumers, Ports, Result, ok, stopped, Boot, after, ◌>>=◌, return, stop,
  configured, answer, ask, new_pool, run_migrations, new_cluster_client, dial_each, tls_of,
}

-- The end of a program at a call that fails, or where it waits for the call for ever.
abbrev pub StopsAt : Stop → Call → Type 0
StopsAt s c = (s ≡ panics c) ⊎ (s ≡ fatal c) ⊎ (s ≡ waits c)

abbrev pub AtCall : (Call → Stop) → Type 0
AtCall ending = (c : Call) → StopsAt (ending c) c

module _ (m : Machine) where
  abbrev pub Answered : List Call → Type 0
  Answered cs = All (λ c. answer m c ≡ true) cs

  abbrev pub credentials : Option Credentials
  credentials =
      load_mtls_credentials m.key_pair m.appended (m.get "MTLS_CLIENT_CERT")
        (m.get "MTLS_CLIENT_KEY") (m.get "MTLS_CA_CERT")

  -- A key that is blank in the environment, a list of Redis addresses that names none, or certificates
  -- that do not load.
  abbrev pub Unusable : String → Type 0
  Unusable setting =
      (blank (m.get setting) ≡ true)
      ⊎ ((setting ≡ "addrs") × (parse_addrs (m.get "REDIS_CLUSTER_ADDRS") ≡ []))
      ⊎ ((setting ≡ "mtls creds") × (credentials ≡ none))

  -- All calls of the plan were made and answered; or the first that was refused is the last one made, and
  -- the end names it; or a setting is unusable after some calls of the plan, all answered.
  pub data Follows {A : Type 0} (plan before : List Call) (r : Result A × List Call) : Type 0 where
    served : (a : A) → Answered plan → r ≡ (ok a, before ++ plan) → Follows plan before r
    refused :
        (xs ys : List Call) (c : Call) (s : Stop)
        → StopsAt s c
        → plan ≡ xs ++ c ∷ ys
        → Answered xs
        → answer m c ≡ false
        → r ≡ (stopped s, before ++ (xs ++ c ∷ []))
        → Follows plan before r
    lacking :
        (xs ys : List Call) (setting : String)
        → Unusable setting
        → plan ≡ xs ++ ys
        → Answered xs
        → r ≡ (stopped (missing setting), before ++ xs)
        → Follows plan before r

  Answered-append : (xs ys : List Call) → Answered xs → Answered ys → Answered (xs ++ ys)
  Answered-append [] ys hx hy = hy
  Answered-append (x ∷ xs) ys (h, hx) hy = (h, Answered-append xs ys hx hy)

  -- After a plan that was answered, the next one.
  Follows-then :
      {B : Type 0} (p q before : List Call) (r : Result B × List Call)
      → Answered p
      → Follows q (before ++ p) r
      → Follows (p ++ q) before r
  Follows-then p q before r hp (served a hq e) =
      served a (Answered-append p q hp hq) (e ∙ ap (λ made. (ok a, made)) (append_assoc before p q))
  Follows-then p q before r hp (refused xs ys c s named split hx refusal e) =
      refused (p ++ xs) ys c s named (ap (λ t. p ++ t) split ∙ sym (append_assoc p xs (c ∷ ys)))
        (Answered-append p xs hp hx) refusal
        (e
          ∙ ap (λ made. (stopped s, made))
              (append_assoc before p (xs ++ c ∷ [])
                ∙ ap (λ t. before ++ t) (sym (append_assoc p xs (c ∷ [])))))
  Follows-then p q before r hp (lacking xs ys setting bad split hx e) =
      lacking (p ++ xs) ys setting bad (ap (λ t. p ++ t) split ∙ sym (append_assoc p xs ys))
        (Answered-append p xs hp hx)
        (e ∙ ap (λ made. (stopped (missing setting), made)) (append_assoc before p xs))

  Follows-bind :
      {A B : Type 0} (p q before : List Call) (b : Boot A) (k : A → Boot B)
      → Follows p before (b before)
      → ((a : A) (made : List Call) → Follows q made (k a made))
      → Follows (p ++ q) before ((b >>= k) before)
  Follows-bind p q before b k (served a hp e) next =
      rw (e, after) (Follows-then p q before (k a (before ++ p)) hp (next a (before ++ p)))
  Follows-bind p q before b k (refused xs ys c s named split hx refusal e) next =
      refused xs (ys ++ q) c s named (ap (λ t. t ++ q) split ∙ append_assoc xs (c ∷ ys) q) hx
        refusal (ap (after k) e)
  Follows-bind p q before b k (lacking xs ys setting bad split hx e) next =
      lacking xs (ys ++ q) setting bad (ap (λ t. t ++ q) split ∙ append_assoc xs ys q) hx
        (ap (after k) e)

  pub ask-Follows :
      (ending : Call → Stop) (c : Call) (before : List Call)
      → AtCall ending
      → Follows (c ∷ []) before (ask m ending c before)
  ask-Follows ending c before at = elim (Bool-cases (answer m c)) [
    | inl yes' ↦ rw yes' (served tt (yes', tt) refl)
    | inr no' ↦ rw no' (refused [] [] c (ending c) (at c) refl tt no' refl)
  ]

  -- A part of a program keeps to a plan, whatever calls came before.
  abbrev pub Keeps : {A : Type 0} → List Call → Boot A → Type 0
  Keeps plan b = (before : List Call) → Follows plan before (b before)

  pub then_keeps :
      {A B : Type 0} (p q : List Call) (b : Boot A) (k : A → Boot B)
      → Keeps p b
      → ((a : A) → Keeps q (k a))
      → Keeps (p ++ q) (b >>= k)
  then_keeps p q b k first next before = Follows-bind p q before b k (first before) next

  -- A call, and then what follows it.
  pub asks :
      {B : Type 0} (ending : Call → Stop) (c : Call) (q : List Call) (k : Unit {0} → Boot B)
      → AtCall ending
      → ((a : Unit {0}) → Keeps q (k a))
      → Keeps (c ∷ q) (ask m ending c >>= k)
  asks ending c q k at next =
      then_keeps (c ∷ []) q (ask m ending c) k (λ before. ask-Follows ending c before at) next

  pub ends : {B : Type 0} (b : B) → Keeps [] (return b)
  ends b before = served b tt (ap (λ made. (ok b, made)) (sym (append-nil before)))

  pub lacks :
      {B : Type 0} (plan : List Call) (setting : String)
      → Unusable setting
      → Keeps {A = B} plan (stop (missing setting))
  lacks plan setting bad before =
      lacking [] plan setting bad refl tt
        (ap (λ made. (stopped (missing setting), made)) (sym (append-nil before)))

  abbrev pub pool_plan : ℕ → String → List Call
  pool_plan max_conns url = parse_url url ∷ create_pool max_conns url ∷ ping_pool url ∷ []

  pub new_pool-Keeps :
      (ending : Call → Stop) (n : ℕ) (url : String)
      → AtCall ending
      → Keeps (pool_plan n url) (new_pool m ending n url)
  unfolding new_pool
  new_pool-Keeps ending n url at = asks ending (parse_url url) _ _ at (λ _.
      asks ending (create_pool n url) _ _ at (λ _ made. ask-Follows ending (ping_pool url) made at))

  abbrev pub migrations_plan : (url path : String) → List Call
  migrations_plan url path = open_migrations path url ∷ migrate_up url ∷ close_migrations url ∷ []

  pub run_migrations-Keeps :
      (ending : Call → Stop) (url path : String)
      → AtCall ending
      → Keeps (migrations_plan url path) (run_migrations m ending url path)
  unfolding run_migrations
  run_migrations-Keeps ending url path at = asks ending (open_migrations path url) _ _ at (λ _.
      asks ending (migrate_up url) _ _ at
        (λ _ made. ask-Follows ending (close_migrations url) made at))

  abbrev pub cluster_plan : List String → List Call
  cluster_plan [] = []
  cluster_plan (a ∷ rest) = ping_redis (a ∷ rest) ∷ []

  pub new_cluster_client-Keeps :
      (ending : Call → Stop) (addrs : List String)
      → AtCall ending
      → (addrs ≡ [] → Unusable "addrs")
      → Keeps (cluster_plan addrs) (new_cluster_client m ending addrs)
  unfolding new_cluster_client
  new_cluster_client-Keeps ending [] at bad = lacks [] "addrs" (bad refl)
  new_cluster_client-Keeps ending (a ∷ rest) at bad =
      λ before. ask-Follows ending (ping_redis (a ∷ rest)) before at

  abbrev pub dial_plan : List (String × String) → List Call
  dial_plan [] = []
  dial_plan ((name, addr) ∷ rest) = dial name addr ∷ dial_plan rest

  pub dial_each-Keeps :
      (ending : Call → Stop) (ts : List (String × String))
      → AtCall ending
      → Keeps (dial_plan ts) (dial_each m ending ts)
  unfolding dial_each
  dial_each-Keeps ending [] at = ends tt
  dial_each-Keeps ending ((name, addr) ∷ rest) at =
      asks ending (dial name addr) (dial_plan rest) _ at (λ _. dial_each-Keeps ending rest at)

  pub tls-Keeps :
      (o : Option Credentials) → (o ≡ none → Unusable "mtls creds") → Keeps [] (tls_of m o)
  tls-Keeps none bad = lacks [] "mtls creds" (bad refl)
  tls-Keeps (some c) bad = ends tt

  pub configured-Keeps :
      {C : Type 0} (plan : List Call) (cfg : C) (required : List String) (o : Loaded C)
      (k : C → Boot Ports)
      → Settled m.get cfg required o
      → Keeps plan (k cfg)
      → Keeps plan (configured k o)
  configured-Keeps plan cfg required o k settled f = elim settled [
    | inl (all, e) ↦ rw e f
    | inr (key, member, empty, e) ↦ rw e (lacks plan key (inl empty))
  ]

  pub fatal_at : AtCall fatal
  fatal_at c = inr (inl refl)

  pub waits_at : AtCall waits
  waits_at c = inr (inr refl)

  abbrev pub bus_plan : (driver : String) → List Call
  bus_plan driver = if equal_fold driver "kafka" then connect_kafka ("kafka:9092" ∷ []) ∷ [] else []

  pub start_bus-Keeps : (driver : String) → Keeps (bus_plan driver) (start_bus m driver)
  unfolding start_bus new_event_bus
  start_bus-Keeps driver = elim (Bool-cases (equal_fold driver "kafka")) [
    | inl on ↦
        rw on (λ before. ask-Follows waits (connect_kafka ("kafka:9092" ∷ [])) before waits_at)
    | inr off ↦ rw off (ends tt)
  ]

  abbrev pub consumers_plan : List Call
  consumers_plan =
      subscribe_to "msg.delivered" "chat-service-status"
      ∷ subscribe_to "msg.read" "chat-service-status"
      ∷ []

  pub start_status_consumers-Keeps : Keeps consumers_plan (start_status_consumers m)
  unfolding start_status_consumers
  start_status_consumers-Keeps before =
      served tt (refl, (refl, tt)) (ap (λ made. (ok tt, made)) (append_assoc before _ _))

  pub panics_at : AtCall panics
  panics_at c = inl refl
