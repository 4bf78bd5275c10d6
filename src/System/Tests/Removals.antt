-- ===== src/System/Tests/Removals.antt =====
-- The removal of a user whose row is gone, at a concrete database.
use gateway_socket.Base.{false, ◌≡◌, refl, some, [], ◌∷◌, filter, bytes_eq}
use mathlib.Core.List.{Memᴰ}
use mathlib.Core.List.Memᴰ
use gateway_socket.Ethernet.Mac.{print_mac}
use gateway_socket.Mailbox.{empty}
use gateway_socket.Requests.{UpdateTime}
use gateway_socket.Gateway.Handlers.{Gateway}
use gateway_socket.Gateway.Samples.{user_mac, static_mac}
use gateway_socket.Gateway.Connected.{IsCut}
use gateway_socket.Gateway.Loop.{Server, event_loop}
use gateway_socket.Gateway.Loop.Samples.{order, order-complete}
use gateway_socket.Database.Create.{done}
use gateway_socket.Database.Laws.{refused}
use gateway_socket.Database.Sql.{Db, statements}
use gateway_socket.Database.Sql.Laws.{rows_of}
use gateway_socket.Database.Loop.{Database, update_event, handle_database}
use gateway_socket.Startup.Samples.{text, database}
use gateway_socket.System.{System, first_system, answered}
use gateway_socket.System.Invariant.{Invariant}
use gateway_socket.System.Revokes.{update-Revokes}
use gateway_socket.System.Samples.{
  update_access_time, update_access_time-SetsAccess, inet_addr, config, config-IsConfigured, first,
  supply, supply-IsSupply, first-Invariant,
}

-- A user of whose hardware address the database has no row.
abbrev stranger : UpdateTime
stranger = record { mac = static_mac; ip = inet_addr text; utc = 5 }

abbrev later : System
later = record first {
  server = record first.server {
    gateway = record first.server.gateway { user_add_request = empty };
  };
  database = record first.database {
    update_time_request = record { queue = stranger ∷ []; count = 1 };
  };
}

later-Invariant : Invariant inet_addr database.static_ip later
unfolding first_system
later-Invariant = record {
  sound = record {
    added = first-Invariant.sound.added;
    deleted = first-Invariant.sound.deleted;
    users_added = refl;
    users_deleted = first-Invariant.sound.users_deleted;
    packets = first-Invariant.sound.packets;
    in_buffer = first-Invariant.sound.in_buffer;
    out_buffer = first-Invariant.sound.out_buffer;
  };
  serves = record {
    only_listed = first-Invariant.serves.only_listed;
    all_listed = first-Invariant.serves.all_listed;
    none_deleted = first-Invariant.serves.none_deleted;
    new_users = λ info m. absurd (Memᴰ.not-nil m);
  };
  phase_holds = first-Invariant.phase_holds;
  serving = record {
    keys = first-Invariant.serving.keys;
    same_statics = first-Invariant.serving.same_statics;
    requests = first-Invariant.serving.requests;
    times = refl;
    clients = first-Invariant.serving.clients;
  };
  outbox_lent = first-Invariant.outbox_lent;
}

stranger-refused :
    Memᴰ
      (inet_addr text)
      (refused update_access_time later.database.update_time_request.queue later.database.tables)
unfolding update_access_time rows_of filter bytes_eq print_mac first_system
stranger-refused = Memᴰ.head refl

update-Revokes_example :
    (t : Database Db × Gateway) × (u : Server) × (handle_database statements update_access_time
        inet_addr config
        (λ n. supply)
        update_event
        (later.database, later.server.gateway)
      ≡ done t)
    × (event_loop order (answered later t).server ≡ some u)
    × IsCut u.gateway.tables (inet_addr text)
unfolding first_system
update-Revokes_example =
    update-Revokes update_access_time inet_addr config database.static_ip
      update_access_time-SetsAccess config-IsConfigured later later-Invariant refl (inet_addr text)
      stranger-refused
      (record { ip = text; mac = print_mac user_mac 32; is_static = false }, Memᴰ.head refl, refl)
      (λ info m. absurd (Memᴰ.not-nil m)) (λ n. supply) (λ n. supply-IsSupply) order order-complete
