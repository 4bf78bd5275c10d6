-- ===== src/Gateway/Loop/Moves.antt =====
-- The event loop of class Gateway: what became of the requests that waited when it began.
use gateway_socket.Base.{
  ℕ, ◌≡◌, ◌≢◌, refl, sym, ap, ◌∙◌, inl, inr, Option, some, Bool-cases, ◌==◌, List, [], ◌∷◌, ◌++◌,
  map, append-nil, find, arith, subst,
}
use mathlib.Core.List.{Memᴰ}
use mathlib.Core.List.Memᴰ
use gateway_socket.Mailbox.{empty}
use gateway_socket.Mailbox.Laws.{nothing_waits}
use gateway_socket.Gateway.Tables.{Effect, send_inside}
use gateway_socket.Gateway.Icmp.{◌>>=◌}
use gateway_socket.Gateway.Handlers.{Gateway}
use gateway_socket.Gateway.Handlers.Laws.{
  latest, without, add_static_ip-latest, del_static_ip-without, frames, send_packet-frames,
}
use gateway_socket.Gateway.Handlers.Users.{keyed, add_user-latest, del_user-without}
use gateway_socket.Gateway.Loop.{
  Server, Event, add_static_event, del_static_event, add_user_event, del_user_event,
  send_packet_event, term_event, count_of, handle_event, with_gateway, with_frames, event_loop,
}
use gateway_socket.Gateway.Loop.Sound.{IsSound, handle_event-IsHandled}
use gateway_socket.Gateway.Loop.Served.{IsServed}
use gateway_socket.Gateway.Loop.Turns.{some_same}

-- No request is for the key.
abbrev pub IsAway {ℓ} : {V : Type ℓ} → ℕ → List (ℕ × V) → Type 0
IsAway ip [] = Unit
IsAway ip ((key, v) ∷ rest) = (key ≢ ip) × IsAway ip rest

latest-away {ℓ} :
    {V : Type ℓ} (ip : ℕ) (requests : List (ℕ × V)) (old : Option V)
    → IsAway ip requests
    → latest ip requests old ≡ old
latest-away ip [] old away = refl
latest-away ip ((key, v) ∷ rest) old (other, away) = elim (Bool-cases (key == ip)) [
  | inl e ↦ absurd (other (ground arith))
  | inr e ↦ rw (latest, e) (latest-away ip rest old away)
]

without-other {ℓ} :
    {V : Type ℓ} (ip : ℕ) (requests : List ℕ) (old : Option V)
    → ¬ Memᴰ ip requests
    → without ip requests old ≡ old
without-other ip [] old other = refl
without-other ip (key ∷ rest) old other = elim (Bool-cases (key == ip)) [
  | inl e ↦ absurd (other (Memᴰ.head (ground arith)))
  | inr e ↦ rw e (without-other ip rest old (λ m. other (Memᴰ.tail m)))
]

-- A map with its queues of additions and removals, before and after some handlers.
pub record Moves {ℓ} {V : Type ℓ} (adds : List (ℕ × V)) (dels : List ℕ) (m : List (ℕ × V))
    (adds' : List (ℕ × V)) (dels' : List ℕ) (m' : List (ℕ × V)) : Type ℓ where
  -- Of a key that is not to be removed, the last addition still wins.
  pub joins : (ip : ℕ) → ¬ Memᴰ ip dels → latest ip adds' (find ip m') ≡ latest ip adds (find ip m)
  -- Of a key that is not to be added, the removals still count.
  pub leaves :
      (ip : ℕ) → IsAway ip adds → without ip dels' (find ip m') ≡ without ip dels (find ip m)
  pub away : (ip : ℕ) → IsAway ip adds → IsAway ip adds'
  pub absent : (ip : ℕ) → ¬ Memᴰ ip dels → ¬ Memᴰ ip dels'

module _ {ℓ} {V : Type ℓ} (adds : List (ℕ × V)) (dels : List ℕ) (m : List (ℕ × V)) where
  kept : (m' : List (ℕ × V)) → m' ≡ m → Moves adds dels m adds dels m'
  kept m' e = record {
    joins = λ ip other. rw e refl;
    leaves = λ ip other. rw e refl;
    away = λ ip a. a;
    absent = λ ip a. a;
  }

  added :
      (m' : List (ℕ × V))
      → ((ip : ℕ) → find ip m' ≡ latest ip adds (find ip m))
      → Moves adds dels m [] dels m'
  added m' h = record {
    joins = λ ip other. h ip;
    leaves = λ ip other. ap (without ip dels) (h ip ∙ latest-away ip adds _ other);
    away = λ ip a. tt;
    absent = λ ip a. a;
  }

  removed :
      (m' : List (ℕ × V))
      → ((ip : ℕ) → find ip m' ≡ without ip dels (find ip m))
      → Moves adds dels m adds [] m'
  removed m' h = record {
    joins = λ ip other. ap (latest ip adds) (h ip ∙ without-other ip dels _ other);
    leaves = λ ip other. h ip;
    away = λ ip a. a;
    absent = λ ip a. Memᴰ.not-nil;
  }

abbrev UsersMove : Gateway → Gateway → Type 0
UsersMove g h =
    Moves (keyed g.user_add_request.queue) g.user_del_request.queue g.tables.user_map
      (keyed h.user_add_request.queue) h.user_del_request.queue h.tables.user_map

abbrev StaticsMove : Gateway → Gateway → Type 0
StaticsMove g h =
    Moves g.static_ip_add_request.queue g.static_ip_del_request.queue g.tables.static_ip_map
      h.static_ip_add_request.queue h.static_ip_del_request.queue h.tables.static_ip_map

-- The frames sent, and behind them those that wait.
abbrev sending : Server → List Effect
sending s = s.effects ++ map send_inside (frames s.gateway.send_packet_request.queue)

record IsMoved (s t : Server) : Type 0 where
  users : UsersMove s.gateway t.gateway
  statics : StaticsMove s.gateway t.gateway
  sent : sending t ≡ sending s

handle_event-IsMoved :
    (e : Event) (s : Server) → IsSound s → (t : Server) × (handle_event e s ≡ some t) × IsMoved s t
unfolding handle_event map
handle_event-IsMoved add_static_event s v =
    let (t, e, u, m) = add_static_ip-latest s.gateway v.added in
    (
      record s { gateway = record s.gateway { tables = t; static_ip_add_request = empty } },
      rw (with_gateway, e) refl,
      record { users = kept _ _ _ _ u; statics = added _ _ _ _ m; sent = refl },
    )
handle_event-IsMoved del_static_event s v =
    let (t, e, u, m) = del_static_ip-without s.gateway v.deleted in
    (
      record s { gateway = record s.gateway { tables = t; static_ip_del_request = empty } },
      rw (with_gateway, e) refl,
      record { users = kept _ _ _ _ u; statics = removed _ _ _ _ m; sent = refl },
    )
handle_event-IsMoved add_user_event s v =
    let (t, e, u, m) = add_user-latest s.gateway v.users_added in
    (
      record s { gateway = record s.gateway { tables = t; user_add_request = empty } },
      rw (with_gateway, e) refl,
      record { users = added _ _ _ _ m; statics = kept _ _ _ _ u; sent = refl },
    )
handle_event-IsMoved del_user_event s v =
    let (t, e, u, m) = del_user-without s.gateway v.users_deleted in
    (
      record s { gateway = record s.gateway { tables = t; user_del_request = empty } },
      rw (with_gateway, e) refl,
      record { users = removed _ _ _ _ m; statics = kept _ _ _ _ u; sent = refl },
    )
handle_event-IsMoved send_packet_event s v = (
  record s { gateway = record s.gateway { send_packet_request = empty }; effects = sending s },
  rw (with_frames, send_packet-frames s.gateway v.packets) refl,
  record { users = kept _ _ _ _ refl; statics = kept _ _ _ _ refl; sent = append-nil (sending s) },
)
handle_event-IsMoved term_event s v =
    (_, refl, record { users = kept _ _ _ _ refl; statics = kept _ _ _ _ refl; sent = refl })

IsMoved-trans : (s t u : Server) → IsMoved s t → IsMoved t u → IsMoved s u
IsMoved-trans s t u m n = record {
  users = record {
    joins = λ ip a. n.users.joins ip (m.users.absent ip a) ∙ m.users.joins ip a;
    leaves = λ ip a. n.users.leaves ip (m.users.away ip a) ∙ m.users.leaves ip a;
    away = λ ip a. n.users.away ip (m.users.away ip a);
    absent = λ ip a. n.users.absent ip (m.users.absent ip a);
  };
  statics = record {
    joins = λ ip a. n.statics.joins ip (m.statics.absent ip a) ∙ m.statics.joins ip a;
    leaves = λ ip a. n.statics.leaves ip (m.statics.away ip a) ∙ m.statics.leaves ip a;
    away = λ ip a. n.statics.away ip (m.statics.away ip a);
    absent = λ ip a. n.statics.absent ip (m.statics.absent ip a);
  };
  sent = n.sent ∙ m.sent;
}

event_loop-IsMoved :
    (order : List Event) (s t : Server) → IsSound s → event_loop order s ≡ some t → IsMoved s t
unfolding event_loop
event_loop-IsMoved [] s t v h =
    subst (IsMoved s) (some_same s t h)
      (record { users = kept _ _ _ _ refl; statics = kept _ _ _ _ refl; sent = refl })
event_loop-IsMoved (e ∷ rest) s t v h = elim (Bool-cases (count_of e s == 0)) [
  | inl idle ↦ event_loop-IsMoved rest s t v (rw (event_loop, idle) at h)
  | inr ready ↦
      let (s', h', first) = handle_event-IsHandled e s v in
      let (u, h'', moved) = handle_event-IsMoved e s v in
      IsMoved-trans s s' t (subst (IsMoved s) (some_same u s' (sym h'' ∙ h')) moved)
        (event_loop-IsMoved rest s' t first.sound (rw (event_loop, ready, h', ◌>>=◌) at h))
]

-- What waited in `s` was done when `t` was reached. Of an address in both queues of a map, the order of
-- the events decides.
pub record AllDone (s t : Server) : Type 0 where
  -- The last new user of an address has it, the removed ones are gone, and no other is.
  pub users_joined :
      (ip : ℕ)
      → ¬ Memᴰ ip s.gateway.user_del_request.queue
      → find ip t.gateway.tables.user_map
        ≡ latest ip (keyed s.gateway.user_add_request.queue) (find ip s.gateway.tables.user_map)
  pub users_removed :
      (ip : ℕ)
      → IsAway ip (keyed s.gateway.user_add_request.queue)
      → find ip t.gateway.tables.user_map
        ≡ without ip s.gateway.user_del_request.queue (find ip s.gateway.tables.user_map)
  -- The same of the static addresses.
  pub statics_added :
      (ip : ℕ)
      → ¬ Memᴰ ip s.gateway.static_ip_del_request.queue
      → find ip t.gateway.tables.static_ip_map
        ≡ latest ip s.gateway.static_ip_add_request.queue (find ip s.gateway.tables.static_ip_map)
  pub statics_removed :
      (ip : ℕ)
      → IsAway ip s.gateway.static_ip_add_request.queue
      → find ip t.gateway.tables.static_ip_map
        ≡ without ip s.gateway.static_ip_del_request.queue (find ip s.gateway.tables.static_ip_map)
  -- The frames that waited were written to the inside device, in order, and nothing else.
  pub sent : t.effects ≡ s.effects ++ map send_inside (frames s.gateway.send_packet_request.queue)

module _ (s t : Server) (sound : IsSound t) (nothing : (e : Event) → count_of e t ≡ 0) where
  moved-AllDone : IsMoved s t → AllDone s t
  unfolding map
  moved-AllDone m =
      let g = t.gateway in
      let no_user = nothing_waits g.user_add_request sound.users_added (nothing add_user_event) in
      let no_removal =
        nothing_waits g.user_del_request sound.users_deleted (nothing del_user_event) in
      let no_static =
        nothing_waits g.static_ip_add_request sound.added (nothing add_static_event) in
      let no_loss =
        nothing_waits g.static_ip_del_request sound.deleted (nothing del_static_event) in
      let no_packet =
        nothing_waits g.send_packet_request sound.packets (nothing send_packet_event) in
      record {
        users_joined = λ ip a.
            ap (λ q. latest ip (keyed q) (find ip g.tables.user_map)) (sym no_user)
            ∙ m.users.joins ip a;
        users_removed = λ ip a.
            ap (λ q. without ip q (find ip g.tables.user_map)) (sym no_removal)
            ∙ m.users.leaves ip a;
        statics_added = λ ip a.
            ap (λ q. latest ip q (find ip g.tables.static_ip_map)) (sym no_static)
            ∙ m.statics.joins ip a;
        statics_removed = λ ip a.
            ap (λ q. without ip q (find ip g.tables.static_ip_map)) (sym no_loss)
            ∙ m.statics.leaves ip a;
        sent =
            sym (append-nil t.effects)
            ∙ ap (λ q. t.effects ++ map send_inside (frames q)) (sym no_packet)
            ∙ m.sent;
      }

-- The event loop, having looked at every event, has done what waited.
pub event_loop-AllDone :
    (order : List Event) (s t : Server)
    → IsSound s
    → IsServed order s t
    → ((e : Event) → Memᴰ e order)
    → event_loop order s ≡ some t
    → AllDone s t
event_loop-AllDone order s t v done complete h =
    moved-AllDone s t done.sound (λ e. done.served e (complete e))
      (event_loop-IsMoved order s t v h)
