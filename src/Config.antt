-- ===== src/Config.antt =====
-- The configuration of the services, pkg/config/config.go. `get` stands for viper's `GetString` of a key
-- that has no default: the environment's value, and the empty text where it has none.
pub mod Required
pub mod Values
pub mod Addresses
use wire_server.Prelude.{String, Bool, List, [], ◌∷◌, ◌==◌, if◌then◌else◌}
use wire_server.Text.{trim_space}

pub record SharedConfig : Type 0 where
  pub app_env : String
  pub log_level : String
  pub otel_endpoint : String
  pub prometheus_port : String

pub record GatewayConfig : Type 0 where
  pub shared_config : SharedConfig
  pub port : String
  pub jwt_secret : String
  pub redis_cluster_addrs : String
  pub chat_service_addr : String
  pub call_service_addr : String
  pub media_service_addr : String
  pub presence_service_addr : String
  pub user_service_addr : String
  pub supabase_url : String
  pub supabase_db_url : String
  pub event_bus_driver : String

pub record ChatConfig : Type 0 where
  pub shared_config : SharedConfig
  pub primary_db_url : String
  pub replica_db_url : String
  pub redis_cluster_addrs : String
  pub event_bus_driver : String

pub record CallConfig : Type 0 where
  pub shared_config : SharedConfig
  pub turn_secret : String
  pub turn_host : String
  pub livekit_url : String
  pub livekit_api_key : String
  pub livekit_api_secret : String

pub record MediaConfig : Type 0 where
  pub shared_config : SharedConfig
  pub s3_bucket : String
  pub s3_region : String
  pub cloudfront_domain : String
  pub cloudfront_key_pair_id : String
  pub aws_role_arn : String

pub record PresenceConfig : Type 0 where
  pub shared_config : SharedConfig
  pub redis_cluster_addrs : String

pub record NotificationConfig : Type 0 where
  pub shared_config : SharedConfig
  pub fcm_server_key : String
  pub apns_team_id : String

pub record UserConfig : Type 0 where
  pub shared_config : SharedConfig
  pub profile_db_url : String

-- The program panics with the name of a key, or has its configuration.
pub data Loaded {ℓ} (A : Type ℓ) : Type ℓ where
  panicked : String → Loaded A
  loaded : A → Loaded A

-- `assertNonEmpty`, and then the rest.
unfoldable pub assert_non_empty {ℓ} : {A : Type ℓ} → (name value : String) → Loaded A → Loaded A
unfolding trim_space
assert_non_empty name value rest = if trim_space value == "" then panicked name else rest

module _ (get : String → String) where
  -- A key with a default, which viper takes where the environment's value is empty.
  abbrev get_default : (name fallback : String) → String
  get_default name fallback = if get name == "" then fallback else get name

  unfoldable pub load_shared : SharedConfig
  load_shared = record {
    app_env = get_default "APP_ENV" "production";
    log_level = get_default "LOG_LEVEL" "info";
    otel_endpoint = get_default "OTEL_EXPORTER_JAEGER_ENDPOINT" "http://jaeger:14268/api/traces";
    prometheus_port = get_default "PROMETHEUS_PORT" "9090";
  }

  abbrev pub gateway_config : GatewayConfig
  gateway_config = record {
    shared_config = load_shared;
    port = get "GATEWAY_PORT";
    jwt_secret = get "JWT_SECRET";
    redis_cluster_addrs = get "REDIS_CLUSTER_ADDRS";
    chat_service_addr = get "CHAT_SERVICE_ADDR";
    call_service_addr = get "CALL_SERVICE_ADDR";
    media_service_addr = get "MEDIA_SERVICE_ADDR";
    presence_service_addr = get "PRESENCE_SERVICE_ADDR";
    user_service_addr = get "USER_SERVICE_ADDR";
    supabase_url = get "SUPABASE_URL";
    supabase_db_url = get "SUPABASE_DB_URL";
    event_bus_driver = get "EVENT_BUS_DRIVER";
  }

  -- `LoadGatewayConfig`
  unfoldable pub load_gateway_config : Loaded GatewayConfig
  unfolding load_shared assert_non_empty
  load_gateway_config =
      let cfg = gateway_config in
      assert_non_empty "GATEWAY_PORT" cfg.port (
        assert_non_empty "JWT_SECRET" cfg.jwt_secret (
          assert_non_empty "REDIS_CLUSTER_ADDRS" cfg.redis_cluster_addrs (
            assert_non_empty "CHAT_SERVICE_ADDR" cfg.chat_service_addr (
              assert_non_empty "CALL_SERVICE_ADDR" cfg.call_service_addr (
                assert_non_empty "MEDIA_SERVICE_ADDR" cfg.media_service_addr (
                  assert_non_empty "PRESENCE_SERVICE_ADDR" cfg.presence_service_addr (
                    assert_non_empty "USER_SERVICE_ADDR" cfg.user_service_addr (
                      assert_non_empty "SUPABASE_URL" cfg.supabase_url (
                        assert_non_empty "SUPABASE_DB_URL" cfg.supabase_db_url (loaded cfg))))))))))

  abbrev pub chat_config : ChatConfig
  chat_config = record {
    shared_config = load_shared;
    primary_db_url = get "DATABASE_PRIMARY_URL";
    replica_db_url = get "DATABASE_REPLICA_URL";
    redis_cluster_addrs = get "REDIS_CLUSTER_ADDRS";
    event_bus_driver = get "EVENT_BUS_DRIVER";
  }

  -- `LoadChatConfig`
  unfoldable pub load_chat_config : Loaded ChatConfig
  unfolding load_shared assert_non_empty
  load_chat_config =
      let cfg = chat_config in
      assert_non_empty "DATABASE_PRIMARY_URL" cfg.primary_db_url (
        assert_non_empty "DATABASE_REPLICA_URL" cfg.replica_db_url
          (assert_non_empty "REDIS_CLUSTER_ADDRS" cfg.redis_cluster_addrs (loaded cfg)))

  abbrev pub call_config : CallConfig
  call_config = record {
    shared_config = load_shared;
    turn_secret = get "TURN_SECRET";
    turn_host = get "TURN_HOST";
    livekit_url = get "LIVEKIT_URL";
    livekit_api_key = get "LIVEKIT_API_KEY";
    livekit_api_secret = get "LIVEKIT_API_SECRET";
  }

  -- `LoadCallConfig`
  unfoldable pub load_call_config : Loaded CallConfig
  unfolding load_shared assert_non_empty
  load_call_config =
      let cfg = call_config in
      assert_non_empty "TURN_SECRET" cfg.turn_secret
        (assert_non_empty "TURN_HOST" cfg.turn_host (loaded cfg))

  abbrev pub media_config : MediaConfig
  media_config = record {
    shared_config = load_shared;
    s3_bucket = get "S3_BUCKET";
    s3_region = get "S3_REGION";
    cloudfront_domain = get "CLOUDFRONT_DOMAIN";
    cloudfront_key_pair_id = get "CLOUDFRONT_KEY_PAIR_ID";
    aws_role_arn = get "AWS_ROLE_ARN";
  }

  -- `LoadMediaConfig`
  unfoldable pub load_media_config : Loaded MediaConfig
  unfolding load_shared assert_non_empty
  load_media_config =
      let cfg = media_config in
      assert_non_empty "S3_BUCKET" cfg.s3_bucket (
        assert_non_empty "S3_REGION" cfg.s3_region
          (assert_non_empty "CLOUDFRONT_DOMAIN" cfg.cloudfront_domain (loaded cfg)))

  abbrev pub presence_config : PresenceConfig
  presence_config = record {
    shared_config = load_shared;
    redis_cluster_addrs = get "REDIS_CLUSTER_ADDRS";
  }

  -- `LoadPresenceConfig`
  unfoldable pub load_presence_config : Loaded PresenceConfig
  unfolding load_shared assert_non_empty
  load_presence_config =
      let cfg = presence_config in
      assert_non_empty "REDIS_CLUSTER_ADDRS" cfg.redis_cluster_addrs (loaded cfg)

  abbrev pub notification_config : NotificationConfig
  notification_config = record {
    shared_config = load_shared;
    fcm_server_key = get "FCM_SERVER_KEY";
    apns_team_id = get "APNS_TEAM_ID";
  }

  -- `LoadNotificationConfig`
  unfoldable pub load_notification_config : Loaded NotificationConfig
  unfolding load_shared assert_non_empty
  load_notification_config =
      let cfg = notification_config in
      assert_non_empty "FCM_SERVER_KEY" cfg.fcm_server_key (loaded cfg)

  abbrev pub user_config : UserConfig
  user_config = record { shared_config = load_shared; profile_db_url = get "PROFILE_DB_URL" }

  -- `LoadUserConfig`
  unfoldable pub load_user_config : Loaded UserConfig
  unfolding load_shared assert_non_empty
  load_user_config =
      let cfg = user_config in assert_non_empty "PROFILE_DB_URL" cfg.profile_db_url (loaded cfg)
