-- ===== src/Config/Required.antt =====
-- Which keys each loader needs: the outcome of the seven `Load…Config` functions.
use wire_server.Prelude.{
  String, Bool, true, false, List, [], ◌∷◌, ◌≡◌, refl, ◌∙◌, ◌⊎◌, inl, inr, Bool-cases, All, elem,
  ◌==◌, ◌||◌, eq_refl,
}
use wire_server.Text.{trim_space}
use wire_server.Config.{
  Loaded, panicked, loaded, assert_non_empty, load_gateway_config, load_chat_config,
  load_call_config, load_media_config, load_presence_config, load_notification_config,
  load_user_config, gateway_config, chat_config, call_config, media_config, presence_config,
  notification_config, user_config,
}

-- A value that `assertNonEmpty` refuses.
abbrev pub blank : String → Bool
blank value = trim_space value == ""

or_true : (b : Bool) → (b || true) ≡ true
or_true true = refl
or_true false = refl

here : (k : String) (ks : List String) → elem k (k ∷ ks) ≡ true
here k ks = rw (eq_refl k) refl

module _ {ℓ} {A : Type ℓ} (get : String → String) (config : A) where
  -- No required key is blank and the configuration is loaded, or the program panics with a required
  -- key that is blank.
  abbrev pub Settled : List String → Loaded A → Type ℓ
  Settled required outcome =
      (All (λ k. blank (get k) ≡ false) required × (outcome ≡ loaded config))
      ⊎ ((k : String) × (elem k required ≡ true) × (blank (get k) ≡ true) × (outcome ≡ panicked k))

  Settled-nil : Settled [] (loaded config)
  Settled-nil = inl (tt, refl)

  in_rest : (k k' : String) (ks : List String) → elem k ks ≡ true → elem k (k' ∷ ks) ≡ true
  in_rest k k' ks h = rw h (or_true (k == k'))

  refused :
      (k : String) (rest : Loaded A)
      → blank (get k) ≡ true
      → assert_non_empty k (get k) rest ≡ panicked k
  unfolding assert_non_empty
  refused k rest h = rw h refl

  accepted :
      (k : String) (rest : Loaded A)
      → blank (get k) ≡ false
      → assert_non_empty k (get k) rest ≡ rest
  unfolding assert_non_empty
  accepted k rest h = rw h refl

  Settled-cons :
      (k : String) (ks : List String) (rest : Loaded A)
      → Settled ks rest
      → Settled (k ∷ ks) (assert_non_empty k (get k) rest)
  Settled-cons k ks rest settled = elim (Bool-cases (blank (get k))) [
    | inl h ↦ inr (k, here k ks, h, refused k rest h)
    | inr h ↦ elim settled [
      | inl (all, e) ↦ inl ((h, all), accepted k rest h ∙ e)
      | inr (k', member, h', e) ↦ inr (k', in_rest k' k ks member, h', accepted k rest h ∙ e)
    ]
  ]

  -- The checks of keys in order, and then the configuration.
  abbrev checks : List String → Loaded A
  checks [] = loaded config
  checks (k ∷ ks) = assert_non_empty k (get k) (checks ks)

  checks-Settled : (required : List String) → Settled required (checks required)
  checks-Settled [] = Settled-nil
  checks-Settled (k ∷ ks) = Settled-cons k ks (checks ks) (checks-Settled ks)

abbrev pub gateway_required : List String
gateway_required =
    "GATEWAY_PORT" ∷ "JWT_SECRET" ∷ "REDIS_CLUSTER_ADDRS" ∷ "CHAT_SERVICE_ADDR"
    ∷ "CALL_SERVICE_ADDR" ∷ "MEDIA_SERVICE_ADDR" ∷ "PRESENCE_SERVICE_ADDR" ∷ "USER_SERVICE_ADDR"
    ∷ "SUPABASE_URL" ∷ "SUPABASE_DB_URL" ∷ []

abbrev pub chat_required : List String
chat_required = "DATABASE_PRIMARY_URL" ∷ "DATABASE_REPLICA_URL" ∷ "REDIS_CLUSTER_ADDRS" ∷ []

abbrev pub call_required : List String
call_required = "TURN_SECRET" ∷ "TURN_HOST" ∷ []

abbrev pub media_required : List String
media_required = "S3_BUCKET" ∷ "S3_REGION" ∷ "CLOUDFRONT_DOMAIN" ∷ []

abbrev pub presence_required : List String
presence_required = "REDIS_CLUSTER_ADDRS" ∷ []

abbrev pub notification_required : List String
notification_required = "FCM_SERVER_KEY" ∷ []

abbrev pub user_required : List String
user_required = "PROFILE_DB_URL" ∷ []

gateway-Settled :
    (get : String → String)
    → Settled get (gateway_config get) gateway_required (load_gateway_config get)
unfolding load_gateway_config assert_non_empty
gateway-Settled get = checks-Settled get (gateway_config get) gateway_required

chat-Settled :
    (get : String → String) → Settled get (chat_config get) chat_required (load_chat_config get)
unfolding load_chat_config assert_non_empty
chat-Settled get = checks-Settled get (chat_config get) chat_required

call-Settled :
    (get : String → String) → Settled get (call_config get) call_required (load_call_config get)
unfolding load_call_config assert_non_empty
call-Settled get = checks-Settled get (call_config get) call_required

media-Settled :
    (get : String → String) → Settled get (media_config get) media_required (load_media_config get)
unfolding load_media_config assert_non_empty
media-Settled get = checks-Settled get (media_config get) media_required

presence-Settled :
    (get : String → String)
    → Settled get (presence_config get) presence_required (load_presence_config get)
unfolding load_presence_config assert_non_empty
presence-Settled get = checks-Settled get (presence_config get) presence_required

notification-Settled :
    (get : String → String)
    → Settled get (notification_config get) notification_required (load_notification_config get)
unfolding load_notification_config assert_non_empty
notification-Settled get = checks-Settled get (notification_config get) notification_required

user-Settled :
    (get : String → String) → Settled get (user_config get) user_required (load_user_config get)
unfolding load_user_config assert_non_empty
user-Settled get = checks-Settled get (user_config get) user_required

-- What is settled for each of the loaders.
abbrev pub AllSettled : (String → String) → Type 0
AllSettled get =
    Settled get (gateway_config get) gateway_required (load_gateway_config get)
    × Settled get (chat_config get) chat_required (load_chat_config get)
    × Settled get (call_config get) call_required (load_call_config get)
    × Settled get (media_config get) media_required (load_media_config get)
    × Settled get (presence_config get) presence_required (load_presence_config get)
    × Settled get (notification_config get) notification_required (load_notification_config get)
    × Settled get (user_config get) user_required (load_user_config get)

-- Each of the seven `Load…Config` functions gives its configuration when none of its required keys is
-- blank in the environment, and otherwise panics with the name of a required key that is blank.
pub load_config-Settled : (get : String → String) → AllSettled get
load_config-Settled get = (
  gateway-Settled get,
  chat-Settled get,
  call-Settled get,
  media-Settled get,
  presence-Settled get,
  notification-Settled get,
  user-Settled get,
)
