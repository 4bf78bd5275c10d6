-- ===== src/Database.antt =====
-- class Database (gateway-socket/database.cpp): the requests of the gateway for new access times, and
-- the handler for them. The prepared statement is a parameter.
pub mod Laws
pub mod Create
pub mod Sql
pub mod Load
pub mod Loop
mod Tests
use gateway_socket.Base.{ℕ, zero, Option, none, some, List, [], ◌∷◌, ◌++◌, ◌==◌, if◌then◌else◌}
use gateway_socket.Ethernet.Mac.{print_mac}
use gateway_socket.Requests.{UpdateTime}
use gateway_socket.Mailbox.{Mailbox, post, handle}
use gateway_socket.Gateway.Handlers.{Gateway, del_user_info}

-- Database::updateTime.
unfoldable pub request_update_time : UpdateTime → Mailbox UpdateTime → Mailbox UpdateTime
request_update_time request m = post request m

-- The first loop of the handler: the requests move to the vector `temp`.
unfoldable pub push_back {ℓ} : {A : Type ℓ} → A → List A → List A
push_back x temp = temp ++ x ∷ []

-- `ret` starts as 0 and stays so after an exception.
pub rows : Option ℕ → ℕ
rows none = 0
rows (some ret) = ret

-- `update_access_time` is the statement updateAccessTime: the time and the text of the hardware address
-- go in, and the number of rows that were changed comes out; `none` is an SQL exception.
module _ {ℓ} {Db : Type ℓ} (update_access_time : ℕ → List ℕ → Db → Option ℕ × Db) where
  -- The body of the second loop, on the database and the gateway's queues.
  unfoldable pub update_one : UpdateTime → Db × Gateway → Db × Gateway
  unfolding rows
  update_one request (db, g) =
      let (result, db') = update_access_time request.utc (print_mac request.mac 32) db in
      if rows result == 0 then (db', del_user_info request.ip g) else (db', g)

  unfoldable pub update_all : List UpdateTime → Db × Gateway → Db × Gateway
  unfolding update_one
  update_all [] s = s
  update_all (request ∷ rest) s = update_all rest (update_one request s)

  -- `none`: `front` of an empty queue.
  unfoldable pub update_time :
      Mailbox UpdateTime → Db × Gateway → Option (Mailbox UpdateTime × (Db × Gateway))
  update_time m s = elim (handle push_back m []) [
    | none ↦ none
    | some (m', temp) ↦ some (m', update_all temp s)
  ]
