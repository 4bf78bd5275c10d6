-- ===== src/System/Tests.antt =====
-- The running program at a concrete database.
mod Requests
mod Removals
use gateway_socket.Base.{
  ◌%◌, ◌^◌, ◌≡◌, ◌≢◌, refl, inl, false, true, Option, some, List, [], ◌∷◌, length, inr, arith,
  AllBytes-replicate, ◌⊎◌, pos, bytes_eq, load32, load16, ntohs, htons, splice,
}
use gateway_socket.Gateway.Samples.{discovery_frame}
use gateway_socket.Ethernet
use gateway_socket.Ethernet.Mac.{print_mac}
use gateway_socket.Ip
use gateway_socket.Udp
use gateway_socket.Dhcp
use gateway_socket.Udp.Make.Frame.{frame}
use gateway_socket.Packet.{read_byte_array, read_byte, set_length}
use gateway_socket.Mailbox.{empty}
use gateway_socket.Requests.{DhcpRequest}
use gateway_socket.Gateway.Tables.{received}
use gateway_socket.Gateway.Inside.{
  offer, inside_arp, own_request, inside_dhcp, inside_udp, inside_ip, inside_verdict,
}
use gateway_socket.Database.Create.{create_all}
use gateway_socket.Database.Create.Reply.{offer_datagram}
use gateway_socket.Database.Sql.{User}
use gateway_socket.Database.Sql.Leases.{IsGranted, deadline_of}
use gateway_socket.Database.Sql.Delivered.{IsDelivered}
use gateway_socket.System.{take_inside}
use mathlib.Core.List.Memᴰ
use gateway_socket.System.Invariant.{Invariant, IsServing}
use gateway_socket.System.Ends.{database_round-Ends}
use gateway_socket.System.Handled.{Order, Looks, WaitsFor}
use gateway_socket.System.First.{first_system-Invariant}
use gateway_socket.System.Exchange.{frame-IsAnswered}
use gateway_socket.Gateway.Handlers.{Gateway, initial}
use gateway_socket.Gateway.Loop.Samples.{order, arrivals, arrivals-IsArrival}
use gateway_socket.Gateway.Loop.{Server, Event, Arrivals, serve}
use gateway_socket.Database.Create.{Text, Config, Supply, done}
use gateway_socket.Database.Sql.{Db, set_accessed, statements}
use gateway_socket.Database.Sql.Laws.{rows_of}
use gateway_socket.Database.Sql.Access.{SetsAccess}
use gateway_socket.Database.Loop.{
  Database, DatabaseEvent, term_event, dhcp_event, update_event, pending, database_round,
  serve_database,
}
use gateway_socket.Startup.Laws.{filled}
use gateway_socket.Startup.Samples.{database, database-IsLeased}
use gateway_socket.System.{handling, System, exit_handle, IsSupply}
use gateway_socket.System.Answers.{IsConfigured, IsPosted}
use gateway_socket.System.Samples.{
  request, update_access_time, update_access_time-SetsAccess, inet_addr, config,
  config-IsConfigured, first, supply, supply-IsSupply, first-Invariant,
}

-- The first turn is over, and the program was told to end.
abbrev ending : System
ending = record (exit_handle first) { phase = handling order }

-- The program was told to end while a request waits.
abbrev stopping : Database Db
stopping = record {
  tables = database;
  create_dhcp_request = record { queue = request ∷ []; count = 1 };
  update_time_request = empty;
  term_event = 1;
  got_exit = false;
}

stopping-IsServing : IsServing inet_addr database.static_ip stopping
stopping-IsServing = record {
  keys = database-IsLeased;
  same_statics = refl;
  requests = refl;
  times = refl;
  clients = λ r m. elim (Memᴰ.cases_cons m) [
    | inl same ↦ rw same (record { size = refl; bytes = omega arith })
    | inr m' ↦ absurd (Memᴰ.not-nil m')
  ];
}

abbrev database_order : Order
database_order =
    (term_event, λ n. supply) ∷ (update_event, λ n. supply) ∷ (dhcp_event, λ n. supply) ∷ []

database_order_complete : (e : DatabaseEvent) → Looks e database_order
database_order_complete term_event = inl refl
database_order_complete update_event = inr (inl refl)
database_order_complete dhcp_event = inr (inr (inl refl))

database_round-Ends_example :
    (s : Database Db × Gateway) × (database_round statements update_access_time inet_addr config
        database_order
        (stopping, initial)
      ≡ done s)
    × ((e : DatabaseEvent) → pending e s.0 ≡ 0)
    × WaitsFor update_access_time inet_addr config (stopping, initial) (s.0.tables, s.1)
    × IsServing inet_addr database.static_ip s.0
    × IsPosted inet_addr database.static_ip initial s.1
    × (stopping.got_exit ≡ false
        → stopping.term_event ≢ 0
        → (rounds : List Order)
        → serve_database statements update_access_time inet_addr config
            (database_order ∷ rounds)
            (stopping, initial)
          ≡ done s)
database_round-Ends_example =
    database_round-Ends update_access_time inet_addr config database.static_ip
      update_access_time-SetsAccess config-IsConfigured database_order stopping initial
      ((λ n. supply-IsSupply), ((λ n. supply-IsSupply), ((λ n. supply-IsSupply), tt)))
      database_order_complete stopping-IsServing
