-- ===== src/Gateway/Loop/Rounds.antt =====
-- Gateway::serve: a round of its main loop does all that was requested before it.
use gateway_socket.Base.{◌≡◌, ◌≢◌, refl, sym, ◌∙◌, inl, inr, true, false, some, List, [], ◌∷◌}
use mathlib.Core.List.{Memᴰ}
use gateway_socket.Gateway.Buffer.{IsBacked}
use gateway_socket.Gateway.Icmp.{◌>>=◌}
use gateway_socket.Gateway.Loop.{Server, Event, term_event, count_of, Arrivals, round, serve}
use gateway_socket.Gateway.Loop.Sound.{IsSound}
use gateway_socket.Gateway.Loop.Turns.{IsArrival, take_turn-Ends}
use gateway_socket.Gateway.Loop.Served.{event_loop-IsServed}
use gateway_socket.Gateway.Loop.Moves.{AllDone, event_loop-AllDone}
use gateway_socket.Gateway.Loop.{take_turn}

stopped_there :
    (later : List (Arrivals × List Event)) (t : Server) → t.got_exit ≡ true → serve later t ≡ some t
unfolding serve
stopped_there [] t e = refl
stopped_there ((a, order) ∷ rest) t e = rw (serve, e) refl

last_round :
    (a : Arrivals) (order : List Event) (s t : Server) (later : List (Arrivals × List Event))
    → s.got_exit ≡ false
    → round a order s ≡ some t
    → t.got_exit ≡ true
    → serve ((a, order) ∷ later) s ≡ some t
unfolding serve
last_round a order s t later running ended last =
    rw (serve, ended, ◌>>=◌, running) (stopped_there later t last)

-- If the event loop looks at every event, whatever their order, the state is sound, every user's
-- address is static, no frame is shorter than an ARP message and none from outside is a DHCP reply, a
-- round ends, in a sound state in which no eventfd counts any more. What waited behind the turn of the
-- packet loops is done: the last new user of an address has it, the removed ones are gone and no other
-- is, as with the static addresses, but for an address in both queues of its map; and the packets that
-- waited are sent, in order, and nothing else is. If `terminate` was called and the loop was not told
-- to exit before, this round is the last one, whatever arrives later.
pub round-Served :
    (a : Arrivals) (order : List Event) (s : Server)
    → IsArrival a
    → IsSound s
    → IsBacked s.gateway.tables
    → ((e : Event) → Memᴰ e order)
    → (s' t : Server) × (take_turn a s ≡ some s')
      × (round a order s ≡ some t)
      × IsSound t
      × ((e : Event) → count_of e t ≡ 0)
      × AllDone s' t
      × (s.got_exit ≡ false
          → s.term_event ≢ 0
          → (later : List (Arrivals × List Event)) → serve ((a, order) ∷ later) s ≡ some t)
unfolding round
round-Served a order s arrival v backed complete =
    let (s', h', sound, backed', counts, exit) = take_turn-Ends a s arrival v backed in
    let (t, h, done) = event_loop-IsServed order s' sound in
    let ended : round a order s ≡ some t = rw (round, h', ◌>>=◌) h in
    (
      s',
      t,
      h',
      ended,
      done.sound,
      λ e. done.served e (complete e),
      event_loop-AllDone order s' t sound done complete h,
      λ running asked later.
          let last : t.got_exit ≡ true = elim done.stops [
            | inl x ↦ x
            | inr same ↦ absurd (
                asked (
                  sym (counts term_event)
                  ∙ sym same
                  ∙ done.served term_event (complete term_event)))
          ] in
          last_round a order s t later running ended last,
    )
