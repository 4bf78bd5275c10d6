-- ===== src/Database/Tests.antt =====
-- Database::update_time: the property at a concrete mailbox.
use gateway_socket.Base.{ℕ, ◌+◌, ◌≡◌, refl, Option, some, List, [], ◌∷◌, bytes_eq, if◌then◌else◌}
use gateway_socket.Requests.{UpdateTime}
use gateway_socket.Mailbox.{Mailbox, empty}
use gateway_socket.Gateway.Handlers.{initial}
use gateway_socket.Gateway.Samples.{user_address, user_mac, static_mac}
use gateway_socket.Ethernet.Mac.{print_mac}
use gateway_socket.Database.{update_time}
use gateway_socket.Database.Laws.{updated, refused, with_removals, update_time-refused}

-- A database of one user, which counts the statements that were executed.
statement : ℕ → List ℕ → ℕ → Option ℕ × ℕ
statement utc text executed =
    (some (if bytes_eq text (print_mac user_mac 32) then 1 else 0), executed + 1)

abbrev waiting : Mailbox UpdateTime
waiting = record {
  queue =
      record { mac = user_mac; ip = user_address; utc = 1000 }
      ∷ record { mac = static_mac; ip = 7; utc = 1001 }
      ∷ [];
  count = 2;
}

update_time-refused_example :
    update_time statement waiting (0, initial)
    ≡ some (
      empty,
      (
        updated statement waiting.queue 0,
        with_removals (refused statement waiting.queue 0) initial,
      ),
    )
update_time-refused_example = update_time-refused statement waiting 0 initial refl
