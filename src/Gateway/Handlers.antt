-- ===== src/Gateway/Handlers.antt =====
-- The request queues of class Gateway (gateway-socket/gateway.cpp): the functions that other threads
-- call, and the handlers that the event loop runs for them. What they log is left out.
pub mod Laws
pub mod Users
pub mod Backing
pub mod Order
mod Tests
use gateway_socket.Base.{
  ℕ, ltb, if◌then◌else◌, Option, none, some, List, [], ◌∷◌, ◌++◌, find, insert, erase, length,
}
use gateway_socket.Packet.{Packet}
use gateway_socket.Requests.{UserInfo}
use gateway_socket.Mailbox.{Mailbox, empty, post, handle}
use gateway_socket.Gateway.Tables.{Tables, in_use}

pub record Gateway : Type 0 where
  pub tables : Tables
  pub static_ip_add_request : Mailbox (ℕ × List ℕ)
  pub static_ip_del_request : Mailbox ℕ
  pub user_add_request : Mailbox UserInfo
  pub user_del_request : Mailbox ℕ
  pub send_packet_request : Mailbox Packet

-- The constructor's state: empty maps and queues, eventfds at 0.
abbrev pub initial : Gateway
initial = record {
  tables = record { static_ip_map = []; user_map = [] };
  static_ip_add_request = empty;
  static_ip_del_request = empty;
  user_add_request = empty;
  user_del_request = empty;
  send_packet_request = empty;
}

unfoldable pub request_add_static_ip : ℕ → List ℕ → Gateway → Gateway
request_add_static_ip ip mac g = record g {
  static_ip_add_request = post (ip, mac) g.static_ip_add_request;
}

unfoldable pub request_del_static_ip : ℕ → Gateway → Gateway
request_del_static_ip ip g = record g { static_ip_del_request = post ip g.static_ip_del_request }

unfoldable pub add_user_info : UserInfo → Gateway → Gateway
add_user_info info g = record g { user_add_request = post info g.user_add_request }

unfoldable pub del_user_info : ℕ → Gateway → Gateway
del_user_info ip g = record g { user_del_request = post ip g.user_del_request }

unfoldable pub request_send_packet : Packet → Gateway → Gateway
request_send_packet p g = record g { send_packet_request = post p g.send_packet_request }

-- The bodies of the handlers' loops.
unfoldable pub put_static_ip : ℕ × List ℕ → Tables → Tables
put_static_ip (ip, mac) t =
    let cleared =
      if ltb 0 (length t.static_ip_map) then erase ip t.static_ip_map else t.static_ip_map in
    record t { static_ip_map = insert ip mac cleared }

unfoldable pub remove_static_ip : ℕ → Tables → Tables
remove_static_ip ip t = record t { static_ip_map = erase ip t.static_ip_map }

unfoldable pub put_user : UserInfo → Tables → Tables
put_user info t = elim (find info.ip t.user_map) [
  | some old ↦ record t { user_map = insert info.ip info (erase info.ip t.user_map) }
  | none ↦ record t { user_map = insert info.ip info t.user_map }
]

unfoldable pub remove_user : ℕ → Tables → Tables
remove_user ip t = elim (find ip t.user_map) [
  | some info ↦ record t { user_map = erase ip t.user_map }
  | none ↦ t
]

-- The frames written to the inside device, in order.
unfoldable pub write_inside : Packet → List (List ℕ) → List (List ℕ)
write_inside p sent = sent ++ in_use p ∷ []

abbrev keep_tables {ℓ} :
    {A : Type ℓ}
    → (Mailbox A → Gateway → Gateway)
    → Gateway
    → Option (Mailbox A × Tables)
    → Option Gateway
keep_tables put g none = none
keep_tables put g (some (m, t)) = some (put m (record g { tables = t }))

unfoldable pub add_static_ip : Gateway → Option Gateway
add_static_ip g =
    keep_tables (λ m g'. record g' { static_ip_add_request = m }) g
      (handle put_static_ip g.static_ip_add_request g.tables)

unfoldable pub del_static_ip : Gateway → Option Gateway
del_static_ip g =
    keep_tables (λ m g'. record g' { static_ip_del_request = m }) g
      (handle remove_static_ip g.static_ip_del_request g.tables)

unfoldable pub add_user : Gateway → Option Gateway
add_user g =
    keep_tables (λ m g'. record g' { user_add_request = m }) g
      (handle put_user g.user_add_request g.tables)

unfoldable pub del_user : Gateway → Option Gateway
del_user g =
    keep_tables (λ m g'. record g' { user_del_request = m }) g
      (handle remove_user g.user_del_request g.tables)

-- With the frames that go to the inside device.
unfoldable pub send_packet : Gateway → Option (Gateway × List (List ℕ))
send_packet g = elim (handle write_inside g.send_packet_request []) [
  | none ↦ none
  | some (m, sent) ↦ some (record g { send_packet_request = m }, sent)
]
