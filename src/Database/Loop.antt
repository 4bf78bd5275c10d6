-- ===== src/Database/Loop.antt =====
-- class Database and its event loop (gateway-socket/database.hh, database.cpp): the queues of its thread,
-- the events that the constructor adds, `serve` and `terminate`. Which events the event library looks at,
-- and in which order, is a parameter.
use gateway_socket.Base.{ℕ, ◌+◌, ◌==◌, Bool, true, if◌then◌else◌, Option, List, [], ◌∷◌}
use gateway_socket.Requests.{DhcpRequest, UpdateTime}
use gateway_socket.Mailbox.{Mailbox}
use gateway_socket.Gateway.Handlers.{Gateway}
use gateway_socket.Database.{request_update_time, update_time}
use gateway_socket.Database.Create.{
  Text, Config, Statements, Supply, Result, done, ◌>>=◌, defined, create_dhcp, request_create_dhcp,
}

-- The tables, the queues with their eventfds, the eventfd of `terminate`, and whether the event loop was
-- told to exit.
pub record Database (Db : Type 0) : Type 0 where
  pub tables : Db
  pub create_dhcp_request : Mailbox DhcpRequest
  pub update_time_request : Mailbox UpdateTime
  pub term_event : ℕ
  pub got_exit : Bool

pub data DatabaseEvent : Type 0 where
  term_event dhcp_event update_event : DatabaseEvent

module _ {Db : Type 0} where
  -- What the gateway's thread and the signal handler call.
  unfoldable pub ask_dhcp : DhcpRequest → Database Db → Database Db
  ask_dhcp request d = record d {
    create_dhcp_request = request_create_dhcp request d.create_dhcp_request;
  }

  unfoldable pub ask_time : UpdateTime → Database Db → Database Db
  ask_time request d = record d {
    update_time_request = request_update_time request d.update_time_request;
  }

  unfoldable pub terminate : Database Db → Database Db
  terminate d = record d { term_event = d.term_event + 1 }

  abbrev pub pending : DatabaseEvent → Database Db → ℕ
  pending term_event d = d.term_event
  pending dhcp_event d = d.create_dhcp_request.count
  pending update_event d = d.update_time_request.count

  -- terminate_database.
  unfoldable pub terminate_database : Database Db → Database Db
  terminate_database d = record d { term_event = 0; got_exit = true }

  module _ (sq : Statements Db) (update_access_time : ℕ → List ℕ → Db → Option ℕ × Db)
      (inet_addr : Text → ℕ) (config : Config) where
    -- The handler of an event, on the database and the gateway's queues.
    unfoldable pub handle_database :
        (ℕ → Supply) → DatabaseEvent → Database Db × Gateway → Result (Database Db × Gateway)
    unfolding terminate_database
    handle_database supply term_event (d, g) = done (terminate_database d, g)
    handle_database supply dhcp_event (d, g) = do
      r ← create_dhcp sq inet_addr config supply d.create_dhcp_request (d.tables, g)
      done (record d { tables = r.1.0; create_dhcp_request = r.0 }, r.1.1)
    handle_database supply update_event (d, g) = do
      r ← defined (update_time update_access_time d.update_time_request (d.tables, g))
      done (record d { tables = r.1.0; update_time_request = r.0 }, r.1.1)

    -- One round of event_base_loop: of the events in the order that they are looked at, those whose
    -- eventfd is not 0 have their handlers run, each with a supply of its own.
    unfoldable pub database_round :
        List (DatabaseEvent × (ℕ → Supply)) → Database Db × Gateway → Result (Database Db × Gateway)
    database_round [] s = done s
    database_round ((e, supply) ∷ rest) s =
        if pending e s.0 == 0
        then database_round rest s
        else do s' ← handle_database supply e s; database_round rest s'

    -- The `while` of `serve` with the library's loop under it, over the rounds that come. Both end when
    -- the loop was told to exit.
    unfoldable pub serve_database :
        List (List (DatabaseEvent × (ℕ → Supply)))
        → Database Db × Gateway
        → Result (Database Db × Gateway)
    serve_database [] s = done s
    serve_database (order ∷ rest) s =
        if s.0.got_exit then done s else do s' ← database_round order s; serve_database rest s'
