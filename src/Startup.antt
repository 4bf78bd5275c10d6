-- ===== src/Startup.antt =====
-- gateway-socket/main.cpp: the program before its threads start.
pub mod Posted
pub mod Laws
pub mod Options
pub mod Wait
pub mod Start
pub mod Samples
mod Tests
use gateway_socket.Base.{ℕ, Option, none, some, List, [], ◌∷◌}
use gateway_socket.Requests.{UserInfo}
use gateway_socket.Gateway.Handlers.{Gateway, request_add_static_ip, add_user_info}
use gateway_socket.Database.Create.{Text}
use gateway_socket.Database.Sql.{Db}
use gateway_socket.Database.Load.{get_all_static_ip, get_all_user}

unfoldable pub add_all_static_ip : List (ℕ × List ℕ) → Gateway → Gateway
add_all_static_ip [] g = g
add_all_static_ip ((in_addr, mac_addr) ∷ rest) g =
    add_all_static_ip rest (request_add_static_ip in_addr mac_addr g)

unfoldable pub add_all_user : List UserInfo → Gateway → Gateway
add_all_user [] g = g
add_all_user (info ∷ rest) g = add_all_user rest (add_user_info info g)

-- From `new Gateway` to `pthread_create`.
unfoldable pub fill : (Text → ℕ) → ℕ → Db → Gateway → Option Gateway
fill inet_addr timeout db g = elim (get_all_static_ip inet_addr db) [
  | none ↦ none
  | some all_ip ↦ elim (get_all_user inet_addr timeout db) [
    | none ↦ none
    | some all_user ↦ some (add_all_user all_user (add_all_static_ip all_ip g))
  ]
]
