-- ===== src/Config/Values.antt =====
-- Which key each field of a configuration comes from, and what it holds where the key is empty.
use wire_server.Prelude.{
  String, true, false, List, [], ◌∷◌, ◌++◌, map, ◌≡◌, refl, ap, ap₂, ◌∙◌, ◌⊎◌, inl, inr, Bool-cases,
  All, elem, ◌==◌, eq_iff, if◌then◌else◌,
}
use wire_server.Config.{
  Loaded, panicked, loaded, SharedConfig, load_shared, GatewayConfig, ChatConfig, CallConfig,
  MediaConfig, PresenceConfig, NotificationConfig, UserConfig, load_gateway_config,
  load_chat_config, load_call_config, load_media_config, load_presence_config,
  load_notification_config, load_user_config, gateway_config, chat_config, call_config,
  media_config, presence_config, notification_config, user_config,
}
use wire_server.Config.Required.{
  blank, Settled, load_config-Settled, gateway_required, chat_required, call_required,
  media_required, presence_required, notification_required, user_required,
}

-- A key with its default, which is empty where it has none.
abbrev pub Setting : Type 0
Setting = String × String

abbrev pub value_of : (String → String) → Setting → String
value_of get (key, fallback) = if get key == "" then fallback else get key

abbrev pub plain : String → Setting
plain key = (key, "")

abbrev pub shared_settings : List Setting
shared_settings =
    ("APP_ENV", "production")
    ∷ ("LOG_LEVEL", "info")
    ∷ ("OTEL_EXPORTER_JAEGER_ENDPOINT", "http://jaeger:14268/api/traces")
    ∷ ("PROMETHEUS_PORT", "9090")
    ∷ []

-- The fields of a configuration in the order of its struct.
abbrev pub shared_texts : SharedConfig → List String
shared_texts c = c.app_env ∷ c.log_level ∷ c.otel_endpoint ∷ c.prometheus_port ∷ []

abbrev pub gateway_texts : GatewayConfig → List String
gateway_texts c =
    shared_texts c.shared_config
    ++ (c.port ∷ c.jwt_secret ∷ c.redis_cluster_addrs ∷ c.chat_service_addr ∷ c.call_service_addr
        ∷ c.media_service_addr ∷ c.presence_service_addr ∷ c.user_service_addr ∷ c.supabase_url
        ∷ c.supabase_db_url ∷ c.event_bus_driver ∷ [])

abbrev pub chat_texts : ChatConfig → List String
chat_texts c =
    shared_texts c.shared_config
    ++ (c.primary_db_url ∷ c.replica_db_url ∷ c.redis_cluster_addrs ∷ c.event_bus_driver ∷ [])

abbrev pub call_texts : CallConfig → List String
call_texts c =
    shared_texts c.shared_config
    ++ (c.turn_secret ∷ c.turn_host ∷ c.livekit_url ∷ c.livekit_api_key ∷ c.livekit_api_secret ∷ [])

abbrev pub media_texts : MediaConfig → List String
media_texts c =
    shared_texts c.shared_config
    ++ (c.s3_bucket ∷ c.s3_region ∷ c.cloudfront_domain ∷ c.cloudfront_key_pair_id ∷ c.aws_role_arn
        ∷ [])

abbrev pub presence_texts : PresenceConfig → List String
presence_texts c = shared_texts c.shared_config ++ (c.redis_cluster_addrs ∷ [])

abbrev pub notification_texts : NotificationConfig → List String
notification_texts c = shared_texts c.shared_config ++ (c.fcm_server_key ∷ c.apns_team_id ∷ [])

abbrev pub user_texts : UserConfig → List String
user_texts c = shared_texts c.shared_config ++ (c.profile_db_url ∷ [])

abbrev pub gateway_keys : List String
gateway_keys =
    "GATEWAY_PORT" ∷ "JWT_SECRET" ∷ "REDIS_CLUSTER_ADDRS" ∷ "CHAT_SERVICE_ADDR"
    ∷ "CALL_SERVICE_ADDR" ∷ "MEDIA_SERVICE_ADDR" ∷ "PRESENCE_SERVICE_ADDR" ∷ "USER_SERVICE_ADDR"
    ∷ "SUPABASE_URL" ∷ "SUPABASE_DB_URL" ∷ "EVENT_BUS_DRIVER" ∷ []

abbrev pub chat_keys : List String
chat_keys =
    "DATABASE_PRIMARY_URL" ∷ "DATABASE_REPLICA_URL" ∷ "REDIS_CLUSTER_ADDRS" ∷ "EVENT_BUS_DRIVER"
    ∷ []

abbrev pub call_keys : List String
call_keys =
    "TURN_SECRET" ∷ "TURN_HOST" ∷ "LIVEKIT_URL" ∷ "LIVEKIT_API_KEY" ∷ "LIVEKIT_API_SECRET" ∷ []

abbrev pub media_keys : List String
media_keys =
    "S3_BUCKET" ∷ "S3_REGION" ∷ "CLOUDFRONT_DOMAIN" ∷ "CLOUDFRONT_KEY_PAIR_ID" ∷ "AWS_ROLE_ARN" ∷ []

abbrev pub presence_keys : List String
presence_keys = "REDIS_CLUSTER_ADDRS" ∷ []

abbrev pub notification_keys : List String
notification_keys = "FCM_SERVER_KEY" ∷ "APNS_TEAM_ID" ∷ []

abbrev pub user_keys : List String
user_keys = "PROFILE_DB_URL" ∷ []

module _ (get : String → String) where
  -- The configuration is loaded with the values of its settings and no required key is blank, or the
  -- program panics with a required key that is blank.
  abbrev pub Reads :
      {A : Type 0} → (A → List String) → (required keys : List String) → Loaded A → Type 0
  Reads {A} texts required keys outcome =
      ((cfg : A) × (outcome ≡ loaded cfg)
        × All (λ k. blank (get k) ≡ false) required
        × (texts cfg ≡ map (value_of get) (shared_settings ++ map plain keys)))
      ⊎ ((k : String) × (elem k required ≡ true) × (blank (get k) ≡ true) × (outcome ≡ panicked k))

  value_of-plain : (k : String) → get k ≡ value_of get (plain k)
  value_of-plain k = elim (Bool-cases (get k == "")) [
    | inl empty ↦ rw empty ((eq_iff (get k) "").0 empty)
    | inr set ↦ rw set refl
  ]

  plain_values : (ks : List String) → map get ks ≡ map (value_of get) (map plain ks)
  plain_values [] = refl
  plain_values (k ∷ ks) = ap₂ (λ v vs. v ∷ vs) (value_of-plain k) (plain_values ks)

  Settled-Reads :
      {A : Type 0} (texts : A → List String) (required keys : List String) (cfg : A)
      (outcome : Loaded A)
      → texts cfg ≡ shared_texts (load_shared get) ++ map get keys
      → Settled get cfg required outcome
      → Reads texts required keys outcome
  unfolding load_shared
  Settled-Reads texts required keys cfg outcome written settled = elim settled [
    | inl (all, e) ↦
        inl (
          cfg,
          e,
          all,
          written ∙ ap (λ vs. shared_texts (load_shared get) ++ vs) (plain_values keys),
        )
    | inr bad ↦ inr bad
  ]

  abbrev pub AllRead : Type 0
  AllRead =
      Reads gateway_texts gateway_required gateway_keys (load_gateway_config get)
      × Reads chat_texts chat_required chat_keys (load_chat_config get)
      × Reads call_texts call_required call_keys (load_call_config get)
      × Reads media_texts media_required media_keys (load_media_config get)
      × Reads presence_texts presence_required presence_keys (load_presence_config get)
      × Reads notification_texts notification_required notification_keys
          (load_notification_config get)
      × Reads user_texts user_required user_keys (load_user_config get)

  -- Each of the seven `Load…Config` functions gives a configuration whose fields, in the order of the
  -- struct, are the values of its keys, or the defaults of the four shared keys where these are empty,
  -- when none of its required keys is blank; otherwise it panics with the name of a required key
  -- that is blank.
  pub load_config-Reads : AllRead
  load_config-Reads =
      let settled = load_config-Settled get in
      (
        Settled-Reads gateway_texts gateway_required gateway_keys (gateway_config get) _ refl
            (settled.0),
        Settled-Reads chat_texts chat_required chat_keys (chat_config get) _ refl (settled.1),
        Settled-Reads call_texts call_required call_keys (call_config get) _ refl (settled.2),
        Settled-Reads media_texts media_required media_keys (media_config get) _ refl (settled.3),
        Settled-Reads presence_texts presence_required presence_keys (presence_config get) _ refl
            (settled.4),
        Settled-Reads notification_texts notification_required notification_keys
            (notification_config get) _ refl (settled.5),
        Settled-Reads user_texts user_required user_keys (user_config get) _ refl (settled.6),
      )
