-- ===== src/Gateway/Lookup.antt =====
-- `lookupUsers` and `UserExists` of services/api-gateway/internal/gateway/server.go, with
-- `FindUsersByPhones` of pkg/db/sqlc/messages.sql.go. The order in which Go walks a map is not
-- fixed; here `not_found` is in the order of the request.
pub mod Answers
use wire_server.Prelude.{
  ℕ, String, Bool, true, false, ◌||◌, Option, none, some, List, [], ◌∷◌, ◌==◌, elem, length, ltb,
  if◌then◌else◌,
}
use wire_server.Storage.Rows.{User, Tables}
use wire_server.Storage.Pool.{World, query}
use wire_server.Gateway.Http.{Reply, write_json, write_error, lookup_result}

abbrev pub phone_in : List String → Option String → Bool
phone_in phones none = false
phone_in phones (some p) = elem p phones

-- The phones of the users with one of the phones.
unfoldable pub find_users_by_phones : List String → List User → List (Option String)
find_users_by_phones phones [] = []
find_users_by_phones phones (u ∷ us) =
    if phone_in phones u.phone
    then u.phone ∷ find_users_by_phones phones us
    else find_users_by_phones phones us

-- The phones that are not null.
abbrev pub valid_phones : List (Option String) → List String
valid_phones [] = []
valid_phones (none ∷ rest) = valid_phones rest
valid_phones (some p ∷ rest) = p ∷ valid_phones rest

-- The keys of `phoneSet`.
abbrev pub phone_set : List String → List String
phone_set [] = []
phone_set (p ∷ ps) = let rest = phone_set ps in if elem p rest then rest else p ∷ rest

abbrev pub delete_all : List String → List String → List String
delete_all registered [] = []
delete_all registered (p ∷ ps) =
    if elem p registered then delete_all registered ps else p ∷ delete_all registered ps

abbrev pub answer_lookup : List String → Option (List (Option String)) → Reply
answer_lookup phones none = write_error 500 "db failed"
answer_lookup phones (some users) =
    write_json 200
      (lookup_result (valid_phones users) (delete_all (valid_phones users) (phone_set phones)))

abbrev pub lookup_phones : List String → World → Reply × World
lookup_phones [] w = (write_json 200 (lookup_result [] []), w)
lookup_phones (p ∷ ps) w =
    let (users, w') = query (λ t. find_users_by_phones (p ∷ ps) t.users) w in
    (answer_lookup (p ∷ ps) users, w')

unfoldable pub lookup_users : Option (List String) → World → Reply × World
lookup_users none w = (write_error 400 "invalid payload", w)
lookup_users (some phones) w = lookup_phones phones w

abbrev some_user : Option (List (Option String)) → Option Bool
some_user none = none
some_user (some users) = some (ltb 0 (length users))

unfoldable pub user_exists : String → World → Option Bool × World
user_exists phone w =
    let (users, w') = query (λ t. find_users_by_phones (phone ∷ []) t.users) w in
    (some_user users, w')
