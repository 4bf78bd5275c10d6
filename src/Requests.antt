-- ===== src/Requests.antt =====
-- The structures that the gateway and the database exchange: struct userInfo (gateway-socket/
-- gateway.hh), struct update_time and struct dhcp_request (gateway-socket/database.hh). There is one
-- gateway, so the pointer to it is left out.
use gateway_socket.Base.{ℕ, Bool, List}

pub record UserInfo : Type 0 where
  pub ip : ℕ
  pub user_mac : List ℕ
  pub last_access : ℕ
  pub timeout : ℕ

pub record UpdateTime : Type 0 where
  pub mac : List ℕ
  pub ip : ℕ
  pub utc : ℕ

pub record DhcpRequest : Type 0 where
  pub mac : List ℕ
  pub trans_id : ℕ
  pub mtu : ℕ
  pub is_discover : Bool
