-- ===== src/Gateway/Loop/Tests.antt =====
-- Gateway::serve and its event loop: the properties at concrete states.
use gateway_socket.Base.{◌≡◌, ◌≢◌, refl, false, some, List, [], ◌∷◌}
use gateway_socket.Gateway.Handlers.{initial}
use gateway_socket.Gateway.Samples.{user_address, tables, tables-IsBacked, buffer, buffer-IsBuffer}
use gateway_socket.Gateway.Loop.{Server, Event, count_of, Arrivals, round, serve}
use gateway_socket.Gateway.Loop.Samples.{order, order-complete, arrivals, arrivals-IsArrival}
use gateway_socket.Gateway.Loop.Sound.{IsSound}
use gateway_socket.Gateway.Loop.Rounds.{round-Served}
use gateway_socket.Gateway.Loop.Moves.{AllDone}
use gateway_socket.Gateway.Loop.{take_turn}

-- A user is to be removed, and the program is to end.
abbrev busy : Server
busy = record {
  gateway = record initial {
    tables = tables;
    user_del_request = record { queue = user_address ∷ []; count = 1 };
  };
  in_packet = buffer;
  out_packet = buffer;
  term_event = 1;
  got_exit = false;
  effects = [];
}

busy-IsSound : IsSound busy
busy-IsSound = record {
  added = refl;
  deleted = refl;
  users_added = refl;
  users_deleted = refl;
  packets = refl;
  in_buffer = buffer-IsBuffer;
  out_buffer = buffer-IsBuffer;
}

round-Served_example :
    (s' t : Server) × (take_turn arrivals busy ≡ some s')
    × (round arrivals order busy ≡ some t)
    × IsSound t
    × ((e : Event) → count_of e t ≡ 0)
    × AllDone s' t
    × (busy.got_exit ≡ false
        → busy.term_event ≢ 0
        → (later : List (Arrivals × List Event)) → serve ((arrivals, order) ∷ later) busy ≡ some t)
round-Served_example =
    round-Served arrivals order busy arrivals-IsArrival busy-IsSound tables-IsBacked order-complete
