-- ===== src/Gateway/Loop.antt =====
-- Gateway::serve and its event loop (gateway-socket/gateway.cpp): the turns of the packet loops, the
-- handlers, and the requests of the other threads. Which events the event library looks at, and in which
-- order, is a parameter.
pub mod Sound
pub mod Turns
pub mod Served
pub mod Moves
pub mod Rounds
pub mod Joined
pub mod Samples
mod Tests
use gateway_socket.Base.{
  ℕ, zero, suc, ◌+◌, ◌==◌, Bool, true, false, not, if◌then◌else◌, Option, none, some, List, [], ◌∷◌,
  ◌++◌, map,
}
use gateway_socket.Packet.{Packet}
use gateway_socket.Requests.{UserInfo}
use gateway_socket.Mailbox.{Mailbox, post}
use gateway_socket.Gateway.Tables.{Effect, send_inside}
use gateway_socket.Gateway.Icmp.{◌>>=◌}
use gateway_socket.Gateway.Serve.{Burst, turn}
use gateway_socket.Gateway.Handlers.{
  Gateway, request_add_static_ip, request_del_static_ip, add_user_info, del_user_info,
  request_send_packet, add_static_ip, del_static_ip, add_user, del_user, send_packet,
}

-- The locals of `serve`, the eventfd of `terminate`, and whether the event loop was told to exit.
pub record Server : Type 0 where
  pub gateway : Gateway
  pub in_packet : Packet
  pub out_packet : Packet
  pub term_event : ℕ
  pub got_exit : Bool
  pub effects : List Effect

-- What other threads call.
pub data Request : Type 0 where
  static_ip_added : ℕ → List ℕ → Request
  static_ip_deleted : ℕ → Request
  user_added : UserInfo → Request
  user_deleted : ℕ → Request
  packet_given : Packet → Request
  terminated : Request

unfoldable pub request : Request → Server → Server
request (static_ip_added ip mac) s = record s { gateway = request_add_static_ip ip mac s.gateway }
request (static_ip_deleted ip) s = record s { gateway = request_del_static_ip ip s.gateway }
request (user_added info) s = record s { gateway = add_user_info info s.gateway }
request (user_deleted ip) s = record s { gateway = del_user_info ip s.gateway }
request (packet_given p) s = record s { gateway = request_send_packet p s.gateway }
request terminated s = record s { term_event = s.term_event + 1 }

-- The events that the constructor adds, by their handlers.
pub data Event : Type 0 where
  add_static_event del_static_event add_user_event del_user_event send_packet_event term_event :
      Event

abbrev pub count_of : Event → Server → ℕ
count_of add_static_event s = s.gateway.static_ip_add_request.count
count_of del_static_event s = s.gateway.static_ip_del_request.count
count_of add_user_event s = s.gateway.user_add_request.count
count_of del_user_event s = s.gateway.user_del_request.count
count_of send_packet_event s = s.gateway.send_packet_request.count
count_of term_event s = s.term_event

abbrev pub with_gateway : Server → Option Gateway → Option Server
with_gateway s none = none
with_gateway s (some g) = some (record s { gateway = g })

abbrev pub with_frames : Server → Option (Gateway × List (List ℕ)) → Option Server
with_frames s none = none
with_frames s (some (g, frames)) =
    some (record s { gateway = g; effects = s.effects ++ map send_inside frames })

unfoldable pub handle_event : Event → Server → Option Server
handle_event add_static_event s = with_gateway s (add_static_ip s.gateway)
handle_event del_static_event s = with_gateway s (del_static_ip s.gateway)
handle_event add_user_event s = with_gateway s (add_user s.gateway)
handle_event del_user_event s = with_gateway s (del_user s.gateway)
handle_event send_packet_event s = with_frames s (send_packet s.gateway)
handle_event term_event s = some (record s { term_event = 0; got_exit = true })

-- event_base_loop with EVLOOP_NONBLOCK: of the events in the order that they are looked at, those whose
-- eventfd is not 0 have their handlers run.
unfoldable pub event_loop : List Event → Server → Option Server
event_loop [] s = some s
event_loop (e ∷ rest) s =
    if count_of e s == 0 then event_loop rest s else do s' ← handle_event e s; event_loop rest s'

-- The clock, the memory for icmp_mtu, and the frames that wait in both devices.
pub record Arrivals : Type 0 where
  pub now : ℕ
  pub block : List ℕ
  pub inside : List (List ℕ)
  pub outside : List (List ℕ)

abbrev after_turn : Server → Burst × Burst → Server
after_turn s (first, second) = record s {
  gateway = record s.gateway { tables = second.tables };
  in_packet = first.buffer;
  out_packet = second.buffer;
  effects = s.effects ++ first.effects ++ second.effects;
}

unfoldable pub take_turn : Arrivals → Server → Option Server
take_turn a s = do
  bursts ← turn a.now a.block a.inside a.outside s.gateway.tables s.in_packet s.out_packet
  some (after_turn s bursts)

-- The body of the `while` of `serve`.
unfoldable pub round : Arrivals → List Event → Server → Option Server
round a order s = do s' ← take_turn a s; event_loop order s'

-- The `while`, over what arrives in each of its rounds.
unfoldable pub serve : List (Arrivals × List Event) → Server → Option Server
serve [] s = some s
serve ((a, order) ∷ rest) s = if s.got_exit then some s else do s' ← round a order s; serve rest s'
