-- ===== src/Gateway/Loop/Samples.antt =====
-- An order of the events and the frames of a turn, for the tests.
use gateway_socket.Base.{ℕ, refl, List, [], ◌∷◌, replicate, length-replicate, arith}
use gateway_socket.Gateway.Samples.{user_mac, static_mac, out_frame, in_frame}
use mathlib.Core.List.{Memᴰ}
use mathlib.Core.List.Memᴰ.{head, tail}
use gateway_socket.Gateway.Loop.{
  Event, add_static_event, del_static_event, add_user_event, del_user_event, send_packet_event,
  term_event, Arrivals,
}
use gateway_socket.Ip
use gateway_socket.Gateway.Buffer.{read_byte-received}
use gateway_socket.Gateway.Outside.Rounds.{IsQuiet}
use gateway_socket.Gateway.Loop.Turns.{IsArrival}

abbrev pub order : List Event
order =
    send_packet_event ∷ term_event ∷ del_user_event ∷ add_user_event ∷ del_static_event
    ∷ add_static_event ∷ []

pub order-complete : (e : Event) → Memᴰ e order
order-complete send_packet_event = head refl
order-complete term_event = tail (head refl)
order-complete del_user_event = tail (tail (head refl))
order-complete add_user_event = tail (tail (tail (head refl)))
order-complete del_static_event = tail (tail (tail (tail (head refl))))
order-complete add_static_event = tail (tail (tail (tail (tail (head refl)))))

pub in_frame-IsQuiet : IsQuiet (in_frame static_mac)
unfolding Ip.get_protocol
in_frame-IsQuiet buffer b ip (udp, from, to) =
    let protocol =
      read_byte-received (in_frame static_mac) buffer 23 b (omega arith) (omega arith) in
    ground (arith, udp, protocol)

abbrev pub arrivals : Arrivals
arrivals = record {
  now = 1000;
  block = replicate 70 0;
  inside = out_frame user_mac ∷ [];
  outside = in_frame static_mac ∷ [];
}

pub arrivals-IsArrival : IsArrival arrivals
arrivals-IsArrival = record {
  memory = length-replicate {A = ℕ} 70 0;
  long_inside = (omega arith, tt);
  long_outside = ((omega arith, in_frame-IsQuiet), tt);
}
