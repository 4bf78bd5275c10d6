-- ===== src/System.antt =====
-- The running program (gateway-socket/main.cpp, from `pthread_create` to `pthread_join`): the gateway's
-- thread, the database's thread and the signal handler, as the steps that each can make. A step is the
-- code between two looks at what other threads write: a frame, an event's handler, a post to
-- the gateway, or a signal.
pub mod Invariant
pub mod Handlers
pub mod Frames
pub mod Answers
pub mod Granting
pub mod Leasing
pub mod Rounds
pub mod First
pub mod Steps
pub mod Runs
pub mod Exchange
pub mod Joining
pub mod Connects
pub mod Revokes
pub mod Handled
pub mod Ends
mod Samples
mod Tests
use gateway_socket.Base.{
  ℕ, ◌+◌, ◌==◌, ◌≡◌, ◌≢◌, ◌≤◌, true, false, if◌then◌else◌, Option, some, none, List, [], ◌∷◌, ◌++◌,
  length, AllBytes,
}
use mathlib.Core.List.{Memᴰ}
use gateway_socket.Requests.{UserInfo, DhcpRequest, UpdateTime}
use gateway_socket.Packet.{Packet}
use gateway_socket.Mailbox.{empty}
use gateway_socket.Gateway.Tables.{Effect, send_inside, send_outside, create_dhcp, update_time}
use gateway_socket.Gateway.Icmp.{◌>>=◌}
use gateway_socket.Gateway.Inside.{Round, on_inside}
use gateway_socket.Gateway.Outside.{on_outside}
use gateway_socket.Gateway.Outside.Rounds.{IsQuiet}
use gateway_socket.Gateway.Handlers.{Gateway, initial}
use gateway_socket.Gateway.Loop.{
  Server, request, terminated, user_added, user_deleted, packet_given, Event, count_of,
  handle_event,
}
use gateway_socket.Gateway.Loop.Turns.{first_server}
use gateway_socket.Database.Create.{Text, Config, Supply, done}
use gateway_socket.Database.Sql.{Db, statements}
use gateway_socket.Database.Loop.{
  Database, DatabaseEvent, ask_dhcp, ask_time, terminate, pending, handle_database,
}
use gateway_socket.Startup.{fill}

-- Where the gateway's thread is: in the bursts of a turn, in the event loop with the events that it has
-- still to look at, or at its end.
pub data Phase : Type 0 where
  reading over : Phase
  handling : List Event → Phase

-- What a handler of the database's thread has still to post to the gateway.
pub record Outbox : Type 0 where
  pub users : List UserInfo
  pub removals : List ℕ
  pub packets : List Packet

abbrev pub all_posted : Outbox
all_posted = record { users = []; removals = []; packets = [] }

-- What a handler posted to a gateway whose queues were empty.
abbrev pub to_post : Gateway → Outbox
to_post g = record {
  users = g.user_add_request.queue;
  removals = g.user_del_request.queue;
  packets = g.send_packet_request.queue;
}

pub record System : Type 0 where
  pub server : Server
  pub database : Database Db
  pub phase : Phase
  pub outbox : Outbox

-- The calls of the database that a frame leads to.
unfoldable pub deliver : List Effect → Database Db → Database Db
deliver [] d = d
deliver (send_inside frame ∷ rest) d = deliver rest d
deliver (send_outside frame ∷ rest) d = deliver rest d
deliver (create_dhcp r ∷ rest) d = deliver rest (ask_dhcp r d)
deliver (update_time r ∷ rest) d = deliver rest (ask_time r d)

abbrev pub after_inside : System → Round → System
after_inside s r = record s {
  server = record s.server {
    gateway = record s.server.gateway { tables = r.tables };
    in_packet = r.buffer;
    effects = s.server.effects ++ r.effects;
  };
  database = deliver r.effects s.database;
}

abbrev pub after_outside : System → Round → System
after_outside s r = record s {
  server = record s.server {
    gateway = record s.server.gateway { tables = r.tables };
    out_packet = r.buffer;
    effects = s.server.effects ++ r.effects;
  };
  database = deliver r.effects s.database;
}

-- A round of each loop of Gateway::serve. `none`: undefined behaviour.
unfoldable pub take_inside : ℕ → List ℕ → List ℕ → System → Option System
take_inside now block frame s = do
  r ← on_inside now block s.server.gateway.tables s.server.in_packet frame
  some (after_inside s r)

unfoldable pub take_outside : List ℕ → List ℕ → System → Option System
take_outside block frame s = do
  r ← on_outside block s.server.gateway.tables s.server.out_packet frame
  some (after_outside s r)

-- The event loop looks at an event.
unfoldable pub look : Event → Server → Option Server
look e s = if count_of e s == 0 then some s else handle_event e s

-- exit_handle: its two calls write to eventfds of their own.
unfoldable pub exit_handle : System → System
exit_handle s = record s { server = request terminated s.server; database = terminate s.database }

abbrev pub joined : Server → Phase
joined s = if s.got_exit then over else reading

-- The database's thread has handled an event, and posted what it had to.
abbrev pub answered : System → Database Db × Gateway → System
answered s (d, g) = record s { server = record s.server { gateway = g }; database = d }

-- When the threads start, with the requests that `main` posted.
unfoldable pub first_system : Db → Gateway → List ℕ → List ℕ → System
first_system tables g in_block out_block = record {
  server = record (first_server in_block out_block) { gateway = g };
  database = record {
    tables = tables;
    create_dhcp_request = empty;
    update_time_request = empty;
    term_event = 0;
    got_exit = false;
  };
  phase = reading;
  outbox = all_posted;
}

-- A frame of bytes that is no shorter than an ARP message, and memory for icmp_mtu.
pub record IsFrame (block frame : List ℕ) : Type 0 where
  pub memory : length block ≡ 70
  pub long : 42 ≤ length frame
  pub bytes : AllBytes frame

-- Memory of the size that create_dhcp asks for.
pub record IsSupply (supply : Supply) : Type 0 where
  pub packet_size : length supply.packet_block ≡ 1514
  pub dhcp_size : length supply.dhcp_block ≡ 1514
  pub dhcp_bytes : AllBytes supply.dhcp_block

module _ (update_access_time : ℕ → Text → Db → Option ℕ × Db) (inet_addr : Text → ℕ)
    (config : Config) where
  -- The event library looks at every event of the gateway in each of its loops, in any order.
  pub data Step (s : System) : System → Type 0 where
    frame_inside :
        (now : ℕ) (block frame : List ℕ) (t : System)
        → IsFrame block frame
        → s.phase ≡ reading
        → take_inside now block frame s ≡ some t
        → Step s t
    frame_outside :
        (block frame : List ℕ) (t : System)
        → IsFrame block frame
        → IsQuiet frame
        → s.phase ≡ reading
        → take_outside block frame s ≡ some t
        → Step s t
    turn_over :
        (order : List Event)
        → ((e : Event) → Memᴰ e order)
        → s.phase ≡ reading
        → Step s (record s { phase = handling order })
    event :
        (e : Event) (rest : List Event) (t : Server)
        → s.phase ≡ handling (e ∷ rest)
        → look e s.server ≡ some t
        → Step s (record s { server = t; phase = handling rest })
    loop_over : s.phase ≡ handling [] → Step s (record s { phase = joined s.server })
    -- The handlers read nothing of the gateway, and what they do to the database is seen by nobody else. So
    -- a handler's work is one step, and each of its posts another one.
    database_event :
        (e : DatabaseEvent) (supply : ℕ → Supply) (d : Database Db) (posted : Gateway)
        → ((i : ℕ) → IsSupply (supply i))
        → s.database.got_exit ≡ false
        → s.outbox ≡ all_posted
        → pending e s.database ≢ 0
        → handle_database statements update_access_time inet_addr config supply e
            (s.database, initial)
          ≡ done (d, posted)
        → Step s (record s { database = d; outbox = to_post posted })
    user_posted :
        (info : UserInfo) (rest : List UserInfo)
        → s.outbox.users ≡ info ∷ rest
        → Step s (record s {
          server = request (user_added info) s.server;
          outbox = record s.outbox { users = rest };
        })
    removal_posted :
        (ip : ℕ) (rest : List ℕ)
        → s.outbox.removals ≡ ip ∷ rest
        → Step s (record s {
          server = request (user_deleted ip) s.server;
          outbox = record s.outbox { removals = rest };
        })
    packet_posted :
        (p : Packet) (rest : List Packet)
        → s.outbox.packets ≡ p ∷ rest
        → Step s (record s {
          server = request (packet_given p) s.server;
          outbox = record s.outbox { packets = rest };
        })
    signalled : Step s (exit_handle s)

  -- From the start on the tables of a database, in any order of the threads' steps.
  pub data Reach (timeout : ℕ) (tables : Db) (in_block out_block : List ℕ) : System → Type 0 where
    start :
        (g : Gateway)
        → fill inet_addr timeout tables initial ≡ some g
        → Reach timeout tables in_block out_block (first_system tables g in_block out_block)
    next :
        (s t : System)
        → Reach timeout tables in_block out_block s
        → Step s t
        → Reach timeout tables in_block out_block t
