-- ===== src/Gateway/Loop/Turns.antt =====
-- A turn of the packet loops in the server's state.
use gateway_socket.Base.{ℕ, ◌≡◌, refl, pos, false, some, List, [], length}
use gateway_socket.Packet.{Packet}
use gateway_socket.Gateway.Buffer.{IsBacked}
use gateway_socket.Gateway.Icmp.{◌>>=◌}
use gateway_socket.Gateway.Serve.{Burst}
use gateway_socket.Gateway.Serve.Laws.{All, IsLong, IsJudged, turn-Ends}
use gateway_socket.Gateway.Handlers.{initial}
use gateway_socket.Gateway.Loop.{
  Server, Event, add_static_event, del_static_event, add_user_event, del_user_event,
  send_packet_event, term_event, count_of, Arrivals, after_turn, take_turn,
}
use gateway_socket.Gateway.Loop.Sound.{IsSound}

-- The start of `serve`; the packets' memory is what was allocated.
abbrev pub first_server : List ℕ → List ℕ → Server
first_server in_block out_block =
    let buffer : List ℕ → Packet =
      λ block. record { written_byte = pos 0; capacity = 1514; in_memory = block } in
    record {
      gateway = initial;
      in_packet = buffer in_block;
      out_packet = buffer out_block;
      term_event = 0;
      got_exit = false;
      effects = [];
    }

-- What arrives in a turn, and the memory for icmp_mtu, are as the packet loops need them.
pub record IsArrival (a : Arrivals) : Type 0 where
  pub memory : length a.block ≡ 70
  pub long_inside : All IsLong a.inside
  pub long_outside : All IsJudged a.outside

count_of-after_turn :
    (s : Server) (bursts : Burst × Burst) (e : Event)
    → count_of e (after_turn s bursts) ≡ count_of e s
count_of-after_turn s bursts add_static_event = refl
count_of-after_turn s bursts del_static_event = refl
count_of-after_turn s bursts add_user_event = refl
count_of-after_turn s bursts del_user_event = refl
count_of-after_turn s bursts send_packet_event = refl
count_of-after_turn s bursts term_event = refl

-- A turn ends; its buffers and counts are sound, and every user's address is static behind it.
pub take_turn-Ends :
    (a : Arrivals) (s : Server)
    → IsArrival a
    → IsSound s
    → IsBacked s.gateway.tables
    → (t : Server) × (take_turn a s ≡ some t)
      × IsSound t
      × IsBacked t.gateway.tables
      × ((e : Event) → count_of e t ≡ count_of e s)
      × (t.got_exit ≡ s.got_exit)
unfolding take_turn
take_turn-Ends a s v sound backed =
    let (first, second, e, done, done') =
      turn-Ends a.now a.block a.inside a.outside s.gateway.tables s.in_packet s.out_packet
        sound.in_buffer sound.out_buffer backed v.memory v.long_inside v.long_outside in
    (
      after_turn s (first, second),
      rw (take_turn, e, ◌>>=◌) refl,
      record {
        added = sound.added;
        deleted = sound.deleted;
        users_added = sound.users_added;
        users_deleted = sound.users_deleted;
        packets = sound.packets;
        in_buffer = done.buffer;
        out_buffer = done'.buffer;
      },
      done'.backed,
      count_of-after_turn s (first, second),
      refl,
    )

pub some_same {ℓ} : {A : Type ℓ} (a b : A) → some a ≡ some b → a ≡ b
some_same a b e = cc
