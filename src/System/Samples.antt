-- ===== src/System/Samples.antt =====
-- A concrete database and start of the program, for the tests.
use gateway_socket.Base.{
  true, ℕ, ◌%◌, ◌^◌, refl, Option, some, List, [], ◌∷◌, replicate, length, length-replicate, inr,
  arith, AllBytes-replicate,
}
use gateway_socket.System.Invariant.{Invariant}
use gateway_socket.System.First.{first_system-Invariant}
use gateway_socket.Gateway.Samples.{user_mac}
use gateway_socket.Requests.{DhcpRequest}
use gateway_socket.Database.Create.{Text, Config, Supply}
use gateway_socket.Database.Sql.{Db, set_accessed}
use gateway_socket.Database.Sql.Laws.{rows_of}
use gateway_socket.Database.Sql.Access.{SetsAccess}
use gateway_socket.Startup.Laws.{filled, fill-filled}
use gateway_socket.Startup.Samples.{database, database-IsLeased, readable, users_readable}
use gateway_socket.System.{System, first_system, IsSupply}
use gateway_socket.System.Answers.{IsConfigured}

-- The statement reports the rows that it found.
unfoldable pub update_access_time : ℕ → Text → Db → Option ℕ × Db
update_access_time time mac db =
    (some (rows_of mac db.user), record db { user = set_accessed time mac db.user })

pub update_access_time-SetsAccess : SetsAccess update_access_time
unfolding update_access_time
update_access_time-SetsAccess time mac db = inr refl

pub inet_addr : Text → ℕ
inet_addr text = length text % 2 ^ 32

abbrev pub config : Config
config = record {
  gateway_ip = 16777226;
  subnet_mask = 16777215;
  dns_list = 134744072 ∷ [];
  timeout = 60;
}

pub config-IsConfigured : IsConfigured inet_addr config
unfolding inet_addr
config-IsConfigured = record {
  few = omega arith;
  gateway_word = omega arith;
  words = λ ip. omega arith;
}

abbrev pub blank : List ℕ
blank = replicate 1514 0

abbrev pub first : System
first =
    first_system database
      (filled inet_addr 60 database database-IsLeased (readable, tt) users_readable) blank blank

abbrev pub supply : Supply
supply = record { current_time = 10000000; packet_block = blank; dhcp_block = blank }

pub supply-IsSupply : IsSupply supply
supply-IsSupply = record {
  packet_size = length-replicate {A = ℕ} 1514 0;
  dhcp_size = length-replicate {A = ℕ} 1514 0;
  dhcp_bytes = AllBytes-replicate 1514;
}

pub first-Invariant : Invariant inet_addr database.static_ip first
first-Invariant =
    first_system-Invariant inet_addr 60 database database-IsLeased (readable, tt) users_readable _
      blank blank
      (fill-filled inet_addr 60 database database-IsLeased (readable, tt) users_readable)
      (length-replicate {A = ℕ} 1514 0) (length-replicate {A = ℕ} 1514 0)

abbrev pub request : DhcpRequest
request = record { mac = user_mac; trans_id = 67305985; mtu = 1500; is_discover = true }
