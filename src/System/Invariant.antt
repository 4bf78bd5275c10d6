-- ===== src/System/Invariant.antt =====
-- What holds whenever a thread of the program may run: the invariant of the gateway's tables and queues.
use gateway_socket.Base.{ℕ, ◌≡◌, subst, ◌⊎◌, Option, some, List, [], find, length, AllBytes}
use mathlib.Core.List.{Memᴰ}
use gateway_socket.Requests.{UserInfo, DhcpRequest}
use gateway_socket.Mailbox.Laws.{IsCounted}
use gateway_socket.Gateway.Tables.{Tables}
use gateway_socket.Gateway.Buffer.{IsBacked, Known}
use gateway_socket.Gateway.Handlers.{Gateway}
use gateway_socket.Gateway.Handlers.Laws.{latest}
use gateway_socket.Gateway.Handlers.Backing.{latest-Known}
use gateway_socket.Gateway.Loop.{add_static_event}
use gateway_socket.Gateway.Loop.Sound.{IsSound}
use gateway_socket.Database.Create.{Text}
use gateway_socket.Database.Sql.{StaticIp, Db}
use gateway_socket.Database.Sql.Leases.{IsLeased}
use gateway_socket.Database.Loop.{Database}
use gateway_socket.System.{Phase, reading, over, handling, System}

-- The hardware address that a static address will have when the requests that wait are served.
abbrev pub final : ℕ → Gateway → Option (List ℕ)
final ip g = latest ip g.static_ip_add_request.queue (find ip g.tables.static_ip_map)

-- A client's hardware address.
pub record IsClient (request : DhcpRequest) : Type 0 where
  pub size : length request.mac ≡ 6
  pub bytes : AllBytes request.mac

module _ (inet_addr : Text → ℕ) (statics : List StaticIp) where
  -- An address of the table `static_ip`.
  abbrev pub IsLent : ℕ → Type 0
  IsLent ip = (row : StaticIp) × Memᴰ row statics × (inet_addr row.ip ≡ ip)

  abbrev pub AreLent : List UserInfo → Type 0
  AreLent infos = (info : UserInfo) → Memᴰ info infos → IsLent info.ip

  abbrev pub UsersLent : Tables → Type 0
  UsersLent t = (ip : ℕ) (user : UserInfo) → find ip t.user_map ≡ some user → IsLent ip

  -- The static addresses of the gateway are those of the table, and its users' addresses are among them.
  pub record Serves (g : Gateway) : Type 0 where
    pub only_listed : (ip : ℕ) → Known (final ip g) → IsLent ip
    pub all_listed : (ip : ℕ) → IsLent ip → Known (final ip g)
    pub none_deleted : g.static_ip_del_request.queue ≡ []
    pub new_users : AreLent g.user_add_request.queue

  -- While frames are read every user's address is static; before the end of the event loop the static
  -- addresses are there, or their handler is still to come.
  abbrev pub PhaseHolds : Phase → Gateway → Type 0
  PhaseHolds reading g = IsBacked g.tables
  PhaseHolds over g = Unit
  PhaseHolds (handling rest) g =
      UsersLent g.tables × ((g.static_ip_add_request.queue ≡ []) ⊎ Memᴰ add_static_event rest)

  -- The database's tables keep their keys, and what waits are requests of clients.
  pub record IsServing (d : Database Db) : Type 0 where
    pub keys : IsLeased d.tables
    pub same_statics : d.tables.static_ip ≡ statics
    pub requests : IsCounted d.create_dhcp_request
    pub times : IsCounted d.update_time_request
    pub clients : (r : DhcpRequest) → Memᴰ r d.create_dhcp_request.queue → IsClient r

  pub record Invariant (s : System) : Type 0 where
    pub sound : IsSound s.server
    pub serves : Serves s.server.gateway
    pub phase_holds : PhaseHolds s.phase s.server.gateway
    pub serving : IsServing s.database
    pub outbox_lent : AreLent s.outbox.users

  -- A user whose address is static has an address of the table.
  pub backed-UsersLent : (g : Gateway) → Serves g → IsBacked g.tables → UsersLent g.tables
  backed-UsersLent g v backed ip user e =
      v.only_listed ip (latest-Known ip g.static_ip_add_request.queue _ (backed ip user e))

  -- Once no new static address waits, every user's address is static.
  pub settled-IsBacked :
      (g : Gateway)
      → Serves g
      → UsersLent g.tables
      → g.static_ip_add_request.queue ≡ []
      → IsBacked g.tables
  settled-IsBacked g v lent settled ip user e =
      subst (λ q. Known (latest ip q (find ip g.tables.static_ip_map))) settled
        (v.all_listed ip (lent ip user e))
