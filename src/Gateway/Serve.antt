-- ===== src/Gateway/Serve.antt =====
-- Gateway::serve (gateway-socket/gateway.cpp): the bursts of frames of one turn of its main loop. A
-- device is the list of the frames that wait in it, and is read empty at its end.
pub mod Laws
use gateway_socket.Base.{ℕ, zero, suc, Option, none, some, List, [], ◌∷◌, ◌++◌}
use gateway_socket.Packet.{Packet}
use gateway_socket.Gateway.Tables.{Tables, Effect}
use gateway_socket.Gateway.Icmp.{◌>>=◌}
use gateway_socket.Gateway.Inside.{Round, on_inside}
use gateway_socket.Gateway.Outside.{on_outside}

abbrev pub io_burst : ℕ
io_burst = 32

-- The frames that still wait, the state, and what was sent, in order.
pub record Burst : Type 0 where
  pub waiting : List (List ℕ)
  pub tables : Tables
  pub buffer : Packet
  pub effects : List Effect

-- What a burst does first.
abbrev before : List Effect → Burst → Burst
before effects b = record b { effects = effects ++ b.effects }

-- `for(burst = 0; burst < limit; burst++)`, with the body `round`; it leaves the loop when the device
-- has no frame. `none`: undefined behaviour.
unfoldable pub burst :
    (Tables → Packet → List ℕ → Option Round) → ℕ → List (List ℕ) → Tables → Packet → Option Burst
burst round zero waiting t p =
    some (record { waiting = waiting; tables = t; buffer = p; effects = [] })
burst round (suc left) [] t p = some (record { waiting = []; tables = t; buffer = p; effects = [] })
burst round (suc left) (frame ∷ waiting) t p = do
  r ← round t p frame
  rest ← burst round left waiting r.tables r.buffer
  some (before r.effects rest)

-- Both loops, with the clock of the turn: the second starts with the tables that the first one left.
-- `block` is the memory that icmp_mtu is given.
unfoldable pub turn :
    ℕ → List ℕ → List (List ℕ) → List (List ℕ) → Tables → Packet → Packet → Option (Burst × Burst)
turn now block inside outside t in_packet out_packet = do
  first ← burst (on_inside now block) io_burst inside t in_packet
  second ← burst (on_outside block) io_burst outside first.tables out_packet
  some (first, second)
