-- ===== src/Startup/Samples.antt =====
-- A database for the tests of the start: one client with its address.
use gateway_socket.Base.{refl, some, [], ◌∷◌, false, filter, arith}
use gateway_socket.Ethernet.Mac.{read_mac, read_loop, hex_to_byte, print_mac}
use gateway_socket.Gateway.Buffer.{Known}
use gateway_socket.Gateway.Samples.{user_mac}
use gateway_socket.Database.Create.{Text}
use gateway_socket.Database.Sql.{Db, holders}
use gateway_socket.Database.Sql.Laws.{rows_of}
use gateway_socket.Database.Sql.Leases.{IsLeased}
use gateway_socket.Database.Load.{is_active}
use gateway_socket.Database.Load.Laws.{AllReadable}

abbrev pub text : Text
text = b'5' ∷ []

abbrev pub database : Db
database = record {
  static_ip = record { ip = text; mac = print_mac user_mac 32; is_static = false } ∷ [];
  user = record { ip = some text; mac = print_mac user_mac 32; accessed = 9 } ∷ [];
}

pub database-IsLeased : IsLeased database
unfolding rows_of holders filter
database-IsLeased = record {
  one_row = λ mac. ground arith;
  alone = λ ip. ground arith;
  known = λ ip h. ground arith;
}

pub readable : Known (read_mac (print_mac user_mac 32))
unfolding read_mac read_loop hex_to_byte print_mac
readable = (user_mac, refl)

pub users_readable : AllReadable (λ row. row.mac) (filter is_active database.user)
unfolding filter
users_readable = (readable, tt)
