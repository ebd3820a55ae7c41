-- ===== src/Startup/Plans.antt =====
-- Which calls each program makes before it serves, and where it ends if it does not.
use wire_server.Prelude.{some, List, [], ◌∷◌, ◌++◌}
use wire_server.Text.Words.{split_at}
use wire_server.Config.{
  GatewayConfig, ChatConfig, UserConfig, gateway_config, chat_config, user_config,
}
use wire_server.Config.Addresses.{parse_addrs, first_addr}
use wire_server.Startup.{
  Call, Ports, build_logger, ping_redis, create_epoll, listen, Machine, env_or, first_trimmed,
  targets, Program, gateway, chat, user, call, presence, media, notification,
}
use wire_server.Startup.Parts.{
  pool_plan, migrations_plan, cluster_plan, dial_plan, bus_plan, consumers_plan,
}

module _ (m : Machine) where
  abbrev pub gateway_plan : GatewayConfig → List Call
  gateway_plan cfg =
      build_logger cfg.shared_config.app_env "api-gateway"
      ∷ (cluster_plan m (parse_addrs cfg.redis_cluster_addrs)
          ++ (bus_plan m cfg.event_bus_driver
              ++ (pool_plan m 25 cfg.supabase_db_url
                  ++ (dial_plan m (m.order (targets m cfg)) ++ create_epoll ∷ []))))

  abbrev pub chat_plan : ChatConfig → List Call
  chat_plan cfg =
      build_logger cfg.shared_config.app_env "chat-service"
      ∷ (pool_plan m 25 cfg.primary_db_url
          ++ (pool_plan m 50 cfg.replica_db_url
              ++ (migrations_plan m cfg.primary_db_url
                    (env_or m "MIGRATIONS_PATH" "infra/migrations")
                  ++ ping_redis (first_addr cfg.redis_cluster_addrs ∷ [])
                    ∷ (bus_plan m cfg.event_bus_driver
                        ++ (consumers_plan m
                            ++ listen (env_or m "CHAT_SERVICE_PORT" "8111") ∷ [])))))

  abbrev chat_ports : Ports
  chat_ports = record {
    grpc = some (env_or m "CHAT_SERVICE_PORT" "8111");
    http = env_or m "PORT" "8110";
  }

  abbrev pub user_plan : UserConfig → List Call
  user_plan cfg =
      pool_plan m 25 cfg.profile_db_url ++ listen (env_or m "USER_SERVICE_PORT" "8611") ∷ []

  -- The calls of each program, in order.
  abbrev pub plan_of : Program → List Call
  plan_of gateway = gateway_plan (gateway_config m.get)
  plan_of chat = chat_plan (chat_config m.get)
  plan_of user = user_plan (user_config m.get)
  plan_of call = listen (env_or m "CALL_SERVICE_PORT" "8211") ∷ []
  plan_of presence =
      ping_redis
        (first_trimmed m (split_at 44 (env_or m "REDIS_CLUSTER_ADDRS" "127.0.0.1:6379")) ∷ [])
      ∷ listen (env_or m "PRESENCE_SERVICE_PORT" "8411")
      ∷ []
  plan_of media =
      pool_plan m 25 (env_or m "DATABASE_PRIMARY_URL" (m.get "SUPABASE_DB_URL"))
      ++ listen (env_or m "MEDIA_SERVICE_PORT" "8311") ∷ []
  plan_of notification = []
