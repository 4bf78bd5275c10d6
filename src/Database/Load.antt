-- ===== src/Database/Load.antt =====
-- Database::getAllStaticIP and Database::getAllUser (gateway-socket/database.cpp): the rows that the
-- gateway starts with. `inet_addr` is a parameter; `none` is undefined behaviour of `readMAC`.
pub mod Laws
use gateway_socket.Base.{ℕ, Bool, true, false, Option, none, some, List, [], ◌∷◌, filter}
use gateway_socket.Ethernet.Mac.{read_mac}
use gateway_socket.Requests.{UserInfo}
use gateway_socket.Database.{push_back}
use gateway_socket.Database.Create.{Text}
use gateway_socket.Database.Sql.{StaticIp, User, Db, text_of}

-- WHERE `ip` IS NOT NULL
abbrev pub is_active : User → Bool
is_active u = elim u.ip [ none ↦ false | some ip ↦ true ]

module _ (inet_addr : Text → ℕ) where
  -- `while(result->next())`, on the vector `ret`.
  unfoldable pub load_static_ip : List StaticIp → List (ℕ × List ℕ) → Option (List (ℕ × List ℕ))
  load_static_ip [] ret = some ret
  load_static_ip (row ∷ rest) ret = elim (read_mac row.mac) [
    | none ↦ none
    | some mac_addr ↦ load_static_ip rest (push_back (inet_addr row.ip, mac_addr) ret)
  ]

  unfoldable pub get_all_static_ip : Db → Option (List (ℕ × List ℕ))
  get_all_static_ip db = load_static_ip db.static_ip []

  unfoldable pub load_user : ℕ → List User → List UserInfo → Option (List UserInfo)
  load_user timeout [] ret = some ret
  load_user timeout (row ∷ rest) ret = elim (read_mac row.mac) [
    | none ↦ none
    | some mac_addr ↦
        let info : UserInfo = record {
          ip = inet_addr (text_of row.ip);
          user_mac = mac_addr;
          last_access = row.accessed;
          timeout = timeout;
        } in
        load_user timeout rest (push_back info ret)
  ]

  unfoldable pub get_all_user : ℕ → Db → Option (List UserInfo)
  get_all_user timeout db = load_user timeout (filter is_active db.user) []
