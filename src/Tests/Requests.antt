-- ===== src/Tests/Requests.antt =====
-- Requests to a gateway whose group alice leads.
use wire_server.Prelude.{true, false, none, some, List, [], ◌∷◌, ◌≡◌, refl, arith}
use wire_server.Text.{trim_space, equal_fold}
use wire_server.Text.Words.{fields, split_at}
use wire_server.Auth.Bearer.{bearer_token}
use wire_server.Auth.Token.{JwtLibrary, hmac, claims_of, auth_middleware, parse_token}
use wire_server.Chat.Backend.{Backend}
use wire_server.Chat.Send.{SendMessageInput}
use wire_server.Chat.Send.Senders.{Signed}
use wire_server.Gateway.Groups.Access.{admins_of, members_of}
use wire_server.Gateway.Groups.Governed.{Governed}
use wire_server.Gateway.Proxies.{answered}
use wire_server.Gateway.Router.{
  Setup, System, HttpRequest, Route, api, messages, group, leave, add_members, handle_all,
}
use wire_server.Gateway.Router.Requests.{handle_all-Governed}
use wire_server.Gateway.Router.Senders.{Vouched, handle_all-Signed}
use wire_server.Services.Media.{MediaLibrary, MediaService}
use wire_server.Storage.Rows.{admin, GroupMember, Tables}
use wire_server.Storage.Statements.{count_rows}

abbrev alice_row : GroupMember
alice_row = record {
  group_id = "g1";
  user_phone = "alice";
  role = admin;
  added_by = none;
  created_at = 1;
}

abbrev tables : Tables
tables = record { groups = []; group_members = alice_row ∷ []; users = [] }

tables-Governed : Governed tables
unfolding count_rows admins_of members_of
tables-Governed = record {
  unique = λ g p. ground arith;
  led = λ g. ground arith;
  listed = λ g. ground arith;
}

-- Every token is one of alice's.
abbrev jwt : JwtLibrary
jwt = record {
  bind = λ token. some (record { email = ""; user_metadata = []; phone = "alice" });
  method_of = λ token. hmac;
  kid = λ token. "";
  verify = λ token key. true;
  decode_segment = λ segment. none;
}

abbrev media_library : MediaLibrary
media_library = record {
  sha256 = λ s. [];
  hmac_sha256 = λ key s. [];
  bytes = λ s. [];
  encode_query = λ query. "";
  path_escape = λ s. s;
  path_join = λ parts. "";
  date_time = λ t. "";
  date = λ t. "";
}

abbrev media : MediaService
media = record { bucket = "b"; region = "r"; access_key_id = "k"; secret_key = "s" }

abbrev setup : Setup
setup = record {
  jwt = jwt;
  decode = λ s. none;
  fetch = λ url. none;
  validate = λ input. true;
  order = λ rs. rs;
  parse_time = λ s. none;
  media_library = media_library;
  media = media;
  jwt_secret = "secret";
  supabase_url = "";
}

abbrev backend : Backend
backend = record {
  conversations = [];
  messages = [];
  statuses = [];
  replica_members = [];
  replica_messages = [];
  presence = [];
  published = [];
  offline = [];
  expiries = [];
  events = [];
  new_id = λ n. "fresh";
  fails = λ n. false;
  calls = 0;
  now = 9;
}

abbrev system : System
system = record {
  tables = tables;
  chat = backend;
  presence_keys = λ k. none;
  call_ids = [];
  objects = [];
  limits = λ k. 0;
  jwks = [];
  registering = [];
}

abbrev request : Route → HttpRequest
request route = record {
  origin = record { real_ip = "1.2.3.4"; forwarded_for = ""; remote_host = "10.0.0.1" };
  authorization = "Bearer t";
  now = 120000000000;
  route = route;
  lost = false;
  rpc = answered;
  db_fails = λ n. false;
  store_lost = false;
  seen_lost = false;
}

-- The payload names another sender.
abbrev spoofed : SendMessageInput
spoofed = record {
  sender_phone = "bob";
  recipient_phones = "carol" ∷ [];
  group_id = "";
  body = "hi";
}

abbrev requests : List HttpRequest
requests =
    request (api (messages (some spoofed)))
    ∷ request (api (group (add_members "g1" (some ("bob" ∷ [])))))
    ∷ request (api (group (leave "g1")))
    ∷ []

handle_all-Governed_example : Governed (handle_all setup requests system).1.tables
handle_all-Governed_example =
    handle_all-Governed setup requests system (tt, (tt, (refl, tt))) tables-Governed

vouched : (route : Route) → Vouched (λ p. p ≡ "alice") setup (request route)
unfolding auth_middleware parse_token bearer_token claims_of trim_space fields equal_fold split_at
vouched route s = refl

handle_all-Signed_example : Signed (λ p. p ≡ "alice") (handle_all setup requests system).1.chat
handle_all-Signed_example =
    handle_all-Signed (λ p. p ≡ "alice") setup requests system
      (
        vouched (api (messages (some spoofed))),
        (
          vouched (api (group (add_members "g1" (some ("bob" ∷ []))))),
          (vouched (api (group (leave "g1"))), tt),
        ),
      )
      tt
