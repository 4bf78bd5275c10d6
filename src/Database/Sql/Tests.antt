-- ===== src/Database/Sql/Tests.antt =====
-- The DHCP replies at a concrete database.
use gateway_socket.Base.{
  ℕ, ◌%◌, ◌^◌, ◌≡◌, refl, arith, Bool, false, true, none, [], ◌∷◌, replicate, length-replicate,
  length, filter, AllBytes-replicate,
}
use gateway_socket.Ethernet.Mac.{print_mac}
use gateway_socket.Requests.{DhcpRequest}
use gateway_socket.Mailbox.{Mailbox, empty}
use gateway_socket.Gateway.Handlers.{Gateway, initial}
use gateway_socket.Gateway.Samples.{user_mac}
use gateway_socket.Database.Create.{Text, Config, Supply, done, create_one, create_dhcp}
use gateway_socket.Database.Create.Reply.{IsServable}
use gateway_socket.Database.Sql.{Db, holders, statements}
use gateway_socket.Database.Sql.Laws.{rows_of}
use gateway_socket.Database.Sql.Leases.{IsLeased}
use gateway_socket.Database.Sql.Grants.{Outcome, create_one-Outcome}
use gateway_socket.Database.Sql.Rounds.{Outcomes, create_dhcp-Outcomes}

-- "10.0.0.5"
abbrev dynamic_text : Text
dynamic_text = b'1' ∷ b'0' ∷ b'.' ∷ b'0' ∷ b'.' ∷ b'0' ∷ b'.' ∷ b'5' ∷ []

-- A map of the texts to 32-bit numbers.
inet_addr : Text → ℕ
inet_addr text = length text % 2 ^ 32

abbrev config : Config
config = record {
  gateway_ip = 16777226;
  subnet_mask = 16777215;
  dns_list = 134744072 ∷ [];
  timeout = 60;
}

abbrev asking : Bool → DhcpRequest
asking discover = record { mac = user_mac; trans_id = 7; mtu = 1500; is_discover = discover }

abbrev request : DhcpRequest
request = asking true

abbrev supply : Supply
supply = record {
  current_time = 10000000;
  packet_block = replicate 1514 0;
  dhcp_block = replicate 1514 0;
}

-- One client without an address, and one dynamic address.
abbrev database : Db
database = record {
  static_ip = record { ip = dynamic_text; mac = []; is_static = false } ∷ [];
  user = record { ip = none; mac = print_mac user_mac 32; accessed = 0 } ∷ [];
}

database-IsLeased : IsLeased database
unfolding rows_of holders filter
database-IsLeased = record {
  one_row = λ mac. ground arith;
  alone = λ ip. omega arith;
  known = λ ip h. ground arith;
}

asking-IsServable :
    (discover : Bool) (ip : Text) → IsServable supply config (asking discover) (inet_addr ip)
unfolding inet_addr
asking-IsServable discover ip = record {
  packet_size = length-replicate {A = ℕ} 1514 0;
  dhcp_size = length-replicate {A = ℕ} 1514 0;
  dhcp_bytes = AllBytes-replicate 1514;
  mac_size = refl;
  mac_bytes = omega arith;
  few = omega arith;
  gateway_word = omega arith;
  ip_word = omega arith;
}

create_one-Outcome_example :
    (s : Db × Gateway) × (create_one statements inet_addr config supply request (database, initial)
      ≡ done s)
    × IsLeased s.0
    × (s.0.static_ip ≡ database.static_ip)
    × Outcome inet_addr config supply request database initial s
create_one-Outcome_example =
    create_one-Outcome inet_addr config supply request database initial database-IsLeased
      (asking-IsServable true)

abbrev waiting : Mailbox DhcpRequest
waiting = record { queue = request ∷ asking false ∷ []; count = 2 }

create_dhcp-Outcomes_example :
    (s : Db × Gateway) × (create_dhcp statements inet_addr config
        (λ i. supply)
        waiting
        (database, initial)
      ≡ done (empty, s))
    × IsLeased s.0
    × (s.0.static_ip ≡ database.static_ip)
    × Outcomes inet_addr config (λ i. supply) waiting.queue (database, initial) s
create_dhcp-Outcomes_example =
    create_dhcp-Outcomes inet_addr config (λ i. supply) waiting database initial refl
      database-IsLeased (asking-IsServable true, (asking-IsServable false, tt))
