-- ===== src/Startup/Start.antt =====
-- gateway-socket/main.cpp: `main` up to the start of its threads, with the constructors of class Database
-- and class Gateway. The results of `fork`, `setsid`, `eventfd` and `event_base_new`, the kernel's answers
-- for both devices, and the connection and the contents of the database are parameters.
use gateway_socket.Base.{
  ℕ, zero, suc, Bool, true, false, not, if◌then◌else◌, ℤ, pos, is_negative, leb_int, to_ℕ, Option,
  none, some, List,
}
use gateway_socket.Gateway.Handlers.{Gateway, initial}
use gateway_socket.Database.Create.{Text}
use gateway_socket.Database.Sql.{Db}
use gateway_socket.Device.{Call, Device, open_device}
use gateway_socket.Startup.{fill}
use gateway_socket.Startup.Options.{Given, Settings, parse_options}
use gateway_socket.Startup.Wait.{Probe, wait_mysql}

pub record World : Type 0 where
  pub inet_addr : Text → ℕ
  pub atoi : Text → ℤ
  pub given : List Given
  pub pid : ℤ
  pub sid : ℤ
  pub probe : ℕ → Probe
  pub inside_kernel : Call → Option ℕ
  pub outside_kernel : Call → Option ℕ
  -- Neither the connection nor a statement to prepare raised an exception.
  pub connected : Bool
  -- What `eventfd` gives to the constructors, call by call, and whether `event_base_new` succeeds.
  pub database_fd : ℕ → ℤ
  pub database_base : Bool
  pub gateway_fd : ℕ → ℤ
  pub gateway_base : Bool
  pub database : Db

-- `fault`: undefined behaviour.
pub data Run : Type 0 where
  exits : ℕ → Run
  fault : Run
  running : Settings → Device → Device → Gateway → Run

-- The two blocks under `if(daemonize)`; `some` is the exit code.
unfoldable pub detach : Bool → ℤ → ℤ → Option ℕ
detach false pid sid = none
detach true pid sid =
    if is_negative pid
    then some 1
    else if leb_int (pos 1) pid
    then some 0
    else if is_negative sid
    then some 1
    else none

-- The first `left` calls of `eventfd` from the one with a number; `false` is `exit(1)`.
unfoldable pub create_events : (ℕ → ℤ) → ℕ → ℕ → Bool
create_events fd zero number = true
create_events fd (suc left) number =
    let rest = create_events fd left (suc number) in if is_negative (fd number) then false else rest

-- `new Database(...)` with its three events; its texts may not be terminated, or not set.
unfoldable pub create_database : World → Option Text → Option Text → Option Text → Run → Run
unfolding create_events
create_database w (some db_user) (some db_pass) (some db_name) next =
    if not w.connected
    then exits 1
    else if not (create_events w.database_fd 3 0)
    then exits 1
    else if not w.database_base
    then exits 1
    else next
create_database w db_user db_pass db_name next = fault

-- The loops behind `new Gateway(...)`.
unfoldable pub fill_gateway : World → Settings → Device → Device → Run
fill_gateway w s inner outer = elim (fill w.inet_addr (to_ℕ s.timeout) w.database initial) [
  | none ↦ fault
  | some g ↦ running s inner outer g
]

-- `new Gateway(in_dev, out_dev, db)` with its six events; the names may not be terminated, or not set.
unfoldable pub create_gateway : World → Settings → Option Text → Option Text → Run
unfolding create_events fill_gateway
create_gateway w s (some in_dev) (some out_dev) = elim (open_device w.inside_kernel in_dev).device [
  | none ↦ exits 1
  | some inner ↦ elim (open_device w.outside_kernel out_dev).device [
    | none ↦ exits 1
    | some outer ↦
        if not (create_events w.gateway_fd 6 0)
        then exits 1
        else if not w.gateway_base
        then exits 1
        else fill_gateway w s inner outer
  ]
]
create_gateway w s in_dev out_dev = fault

unfoldable pub start : World → Run
unfolding detach create_database create_gateway
start w = elim (parse_options w.inet_addr w.atoi w.given) [
  | none ↦ exits 1
  | some s ↦ elim (detach s.daemonize w.pid w.sid) [
    | some code ↦ exits code
    | none ↦ elim (wait_mysql w.probe).1 [
      | none ↦ exits 1
      | some seconds ↦
          create_database w s.db_user s.db_pass s.db_name (create_gateway w s s.in_dev s.out_dev)
    ]
  ]
]
