-- ===== src/Startup/Tests.antt =====
-- gateway-socket/main.cpp: the properties at concrete inputs.
use gateway_socket.Base.{
  ℕ, ◌+◌, ◌<◌, ◌≡◌, ◌≢◌, ◌⊎◌, refl, true, false, ltb, if◌then◌else◌, ℤ, pos, Option, none, some,
  List, [], ◌∷◌, find, filter, length,
}
use mathlib.Core.List.{Memᴰ}
use gateway_socket.Gateway.Buffer.{IsBacked, Known}
use gateway_socket.Gateway.Handlers.{Gateway, initial, add_static_ip, add_user}
use gateway_socket.Database.Create.{Text}
use gateway_socket.Database.Sql.{User, text_of}
use gateway_socket.Database.Load.{is_active}
use gateway_socket.Device.{
  Call, open_socket, get_flags, set_flags, set_mtu, get_mtu, get_index, bind_device, close_socket,
  Device, open_device, configure,
}
use gateway_socket.Startup.{fill}
use gateway_socket.Startup.Samples.{text, database, database-IsLeased, readable, users_readable}
use gateway_socket.Startup.Laws.{fill-IsBacked}
use gateway_socket.Startup.Options.{
  Given, gateway, subnet, dns, inside, outside, db_user, db_pass, daemon, Settings, parse_options,
  take_options, take_option,
}
use gateway_socket.Startup.Options.Counted.{
  is_known, total, servers, addresses, last_inside, last_outside, last_user, last_pass,
}
use gateway_socket.Startup.Options.Accepted.{parse_options-total}
use gateway_socket.Startup.Wait.{
  Probe, no_file, scanned, wait_mysql, NoneBefore, is_running, mysql_retry_count, mysql_final_wait,
  wait_mysql-found,
}
use gateway_socket.Startup.Start.{create_events, World, running, start}

inet_addr : Text → ℕ
inet_addr t = length t

atoi : Text → ℤ
atoi t = pos (length t)

abbrev command_line : List Given
command_line =
    inside text
    ∷ outside text
    ∷ db_user text
    ∷ db_pass text
    ∷ dns text
    ∷ gateway text
    ∷ daemon
    ∷ subnet text
    ∷ dns text
    ∷ []

parse_options-total_example :
    ((parse_options inet_addr atoi command_line ≡ none)
      × ((is_known command_line ≡ false) ⊎ (total command_line ≢ 7)))
    ⊎ ((t : Settings) × (parse_options inet_addr atoi command_line ≡ some t)
        × (is_known command_line ≡ true)
        × (total command_line ≡ 7)
        × (t.dns_list ≡ addresses inet_addr (servers command_line))
        × (t.in_dev ≡ last_inside command_line none)
        × (t.out_dev ≡ last_outside command_line none)
        × (t.db_user ≡ last_user command_line none)
        × (t.db_pass ≡ last_pass command_line none))
parse_options-total_example = parse_options-total inet_addr atoi command_line

-- The same device twice takes the place of the other one.
abbrev inside_twice : List Given
inside_twice =
    inside text
    ∷ inside text
    ∷ db_user text
    ∷ db_pass text
    ∷ dns text
    ∷ gateway text
    ∷ subnet text
    ∷ []

inside_twice-accepted :
    (s : Settings) × (parse_options inet_addr atoi inside_twice ≡ some s) × (s.out_dev ≡ none)
unfolding parse_options take_options take_option
inside_twice-accepted = (_, refl, refl)

-- The server is found in the third try.
probe : ℕ → Probe
probe try = if ltb try 2 then no_file else scanned 1 (pos 812)

wait_mysql-found_example :
    ((wait_mysql probe).0.closed ≡ (wait_mysql probe).0.opened)
    × NoneBefore probe (wait_mysql probe).0.fail
    × ((((wait_mysql probe).1 ≡ none) × ((wait_mysql probe).0.fail ≡ mysql_retry_count))
        ⊎ (((wait_mysql probe).1 ≡ some ((wait_mysql probe).0.fail + mysql_final_wait))
            × ((wait_mysql probe).0.fail < mysql_retry_count)
            × (is_running (probe (wait_mysql probe).0.fail) ≡ true)))
wait_mysql-found_example = wait_mysql-found probe

fill-IsBacked_example :
    (g g1 g2 : Gateway) × (fill inet_addr 60 database initial ≡ some g)
    × (add_static_ip g ≡ some g1)
    × (add_user g1 ≡ some g2)
    × IsBacked g2.tables
    × ((u : User)
        → Memᴰ u (filter is_active database.user)
        → Known (find (inet_addr (text_of u.ip)) g2.tables.user_map))
fill-IsBacked_example =
    fill-IsBacked inet_addr 60 database database-IsLeased (readable, tt) users_readable

kernel : Call → Option ℕ
kernel open_socket = some 5
kernel (get_flags name) = some 4163
kernel (set_flags name flags) = some 0
kernel (set_mtu name mtu) = some 0
kernel (get_mtu name) = some 0
kernel (get_index name) = some 3
kernel (bind_device sock index) = some 0
kernel (close_socket sock) = some 0

abbrev device : Device
device = record { sock = 5; dev_id = 3; prev_flag = 4163; dev_name = text }

abbrev world : World
world = record {
  inet_addr = inet_addr;
  atoi = atoi;
  given = command_line;
  pid = pos 0;
  sid = pos 77;
  probe = probe;
  inside_kernel = kernel;
  outside_kernel = kernel;
  connected = true;
  database_fd = pos;
  database_base = true;
  gateway_fd = pos;
  gateway_base = true;
  database = database;
}

world-runs : (s : Settings) × (g : Gateway) × (start world ≡ running s device device g)
unfolding start parse_options take_options take_option gateway_socket.Database.push_back wait_mysql
    gateway_socket.Startup.Wait.wait_loop probe open_device kernel fill
    gateway_socket.Database.Load.get_all_static_ip gateway_socket.Database.Load.load_static_ip
    gateway_socket.Ethernet.Mac.read_mac gateway_socket.Ethernet.Mac.read_loop
    gateway_socket.Ethernet.Mac.print_mac gateway_socket.Ethernet.Mac.hex_to_byte
    gateway_socket.Database.Load.get_all_user filter gateway_socket.Database.Load.load_user
    configure gateway_socket.Gateway.Handlers.add_user_info
    gateway_socket.Gateway.Handlers.request_add_static_ip gateway_socket.Mailbox.post
    gateway_socket.Startup.Start.create_database create_events
    gateway_socket.Startup.Start.create_gateway gateway_socket.Startup.Start.detach
    gateway_socket.Startup.Start.fill_gateway gateway_socket.Startup.add_all_static_ip
    gateway_socket.Startup.add_all_user
world-runs = (_, _, refl)
