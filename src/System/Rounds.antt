-- ===== src/System/Rounds.antt =====
-- The packet loops in the running program: every frame's round ends, and the invariant holds behind it.
use gateway_socket.Base.{ℕ, ◌≡◌, refl, sym, subst, ap, inl, inr, some, List, [], ◌∷◌, find}
use mathlib.Core.List.{Memᴰ}
use mathlib.Core.List.Memᴰ
use mathlib.Core.List.Memᴰ.{head, tail}
use gateway_socket.Requests.{DhcpRequest, UpdateTime}
use gateway_socket.Mailbox.{post}
use gateway_socket.Mailbox.Laws.{post-IsCounted}
use gateway_socket.Gateway.Tables.{
  Tables, Effect, send_inside, send_outside, create_dhcp, update_time,
}
use gateway_socket.Gateway.Buffer.{IsBacked}
use gateway_socket.Gateway.Icmp.{◌>>=◌}
use gateway_socket.Gateway.Inside.Rounds.{on_inside-IsFit}
use gateway_socket.Gateway.Outside.Rounds.{IsQuiet, on_outside-IsFit}
use gateway_socket.Gateway.Handlers.{Gateway}
use gateway_socket.Gateway.Handlers.Laws.{latest}
use gateway_socket.Database.{request_update_time}
use gateway_socket.Database.Create.{Text, request_create_dhcp}
use gateway_socket.Database.Sql.{StaticIp, Db}
use gateway_socket.Database.Loop.{Database, ask_dhcp, ask_time}
use gateway_socket.System.{
  reading, System, deliver, after_inside, after_outside, take_inside, take_outside, IsFrame,
}
use gateway_socket.System.Invariant.{IsClient, Serves, PhaseHolds, IsServing, Invariant}
use gateway_socket.System.Handlers.{Serves-same}
use gateway_socket.System.Frames.{asked, on_inside-Keeps, on_outside-Keeps}
use gateway_socket.System.Answers.{append-Mem}

module _ (inet_addr : Text → ℕ) (statics : List StaticIp) where
  ask_dhcp-IsServing :
      (r : DhcpRequest) (d : Database Db)
      → IsClient r
      → IsServing inet_addr statics d
      → IsServing inet_addr statics (ask_dhcp r d)
  unfolding ask_dhcp request_create_dhcp post
  ask_dhcp-IsServing r d client v = record {
    keys = v.keys;
    same_statics = v.same_statics;
    requests = post-IsCounted r d.create_dhcp_request v.requests;
    times = v.times;
    clients = λ q m. elim (append-Mem q r d.create_dhcp_request.queue m) [
      | inl m' ↦ v.clients q m'
      | inr same ↦ rw same client
    ];
  }

  ask_time-IsServing :
      (r : UpdateTime) (d : Database Db)
      → IsServing inet_addr statics d
      → IsServing inet_addr statics (ask_time r d)
  unfolding ask_time request_update_time
  ask_time-IsServing r d v = record {
    keys = v.keys;
    same_statics = v.same_statics;
    requests = v.requests;
    times = post-IsCounted r d.update_time_request v.times;
    clients = v.clients;
  }

  deliver-IsServing :
      (effects : List Effect) (d : Database Db)
      → ((r : DhcpRequest) → Memᴰ r (asked effects) → IsClient r)
      → IsServing inet_addr statics d
      → IsServing inet_addr statics (deliver effects d)
  unfolding deliver
  deliver-IsServing [] d clients v = v
  deliver-IsServing (send_inside frame ∷ rest) d clients v = deliver-IsServing rest d clients v
  deliver-IsServing (send_outside frame ∷ rest) d clients v = deliver-IsServing rest d clients v
  deliver-IsServing (create_dhcp r ∷ rest) d clients v =
      deliver-IsServing rest (ask_dhcp r d) (λ q m. clients q (tail m))
        (ask_dhcp-IsServing r d (clients r (head refl)) v)
  deliver-IsServing (update_time r ∷ rest) d clients v =
      deliver-IsServing rest (ask_time r d) clients (ask_time-IsServing r d v)

  -- New tables with the same static addresses.
  retabled-Serves :
      (g : Gateway) (t : Tables)
      → t.static_ip_map ≡ g.tables.static_ip_map
      → Serves inet_addr statics g
      → Serves inet_addr statics (record g { tables = t })
  retabled-Serves g t same v =
      Serves-same inet_addr statics g (record g { tables = t })
        (λ ip. ap (λ m. latest ip g.static_ip_add_request.queue (find ip m)) same) v.none_deleted
        v.new_users v

  module _ (s : System) (v : Invariant inet_addr statics s) (now_reading : s.phase ≡ reading)
      (block frame : List ℕ) (fit : IsFrame block frame) where
    backed : IsBacked s.server.gateway.tables
    backed = subst (λ p. PhaseHolds inet_addr statics p s.server.gateway) now_reading v.phase_holds

    pub take_inside-Invariant :
        (now : ℕ)
        → (t : System) × (take_inside now block frame s ≡ some t) × Invariant inet_addr statics t
    unfolding take_inside
    take_inside-Invariant now =
        let (r, e, done) =
          on_inside-IsFit now block s.server.gateway.tables s.server.in_packet frame
            v.sound.in_buffer fit.memory backed (λ arp. fit.long) in
        let (same, clients) =
          on_inside-Keeps now block s.server.gateway.tables s.server.in_packet frame r
            v.sound.in_buffer fit.bytes e in
        (
          after_inside s r,
          rw (take_inside, e, ◌>>=◌) refl,
          record {
            sound = record {
              added = v.sound.added;
              deleted = v.sound.deleted;
              users_added = v.sound.users_added;
              users_deleted = v.sound.users_deleted;
              packets = v.sound.packets;
              in_buffer = done.buffer;
              out_buffer = v.sound.out_buffer;
            };
            serves = retabled-Serves s.server.gateway r.tables same v.serves;
            phase_holds =
                subst
                  (λ p.
                    PhaseHolds inet_addr statics p (record s.server.gateway { tables = r.tables }))
                  (sym now_reading) done.backed;
            serving = deliver-IsServing r.effects s.database clients v.serving;
            outbox_lent = v.outbox_lent;
          },
        )

    pub take_outside-Invariant :
        IsQuiet frame
        → (t : System) × (take_outside block frame s ≡ some t) × Invariant inet_addr statics t
    unfolding take_outside
    take_outside-Invariant judged =
        let (r, e, done) =
          on_outside-IsFit block s.server.gateway.tables s.server.out_packet frame
            v.sound.out_buffer fit.memory backed (λ arp. fit.long) judged in
        let (same, quiet) =
          on_outside-Keeps block s.server.gateway.tables s.server.out_packet frame r e in
        (
          after_outside s r,
          rw (take_outside, e, ◌>>=◌) refl,
          record {
            sound = record {
              added = v.sound.added;
              deleted = v.sound.deleted;
              users_added = v.sound.users_added;
              users_deleted = v.sound.users_deleted;
              packets = v.sound.packets;
              in_buffer = v.sound.in_buffer;
              out_buffer = done.buffer;
            };
            serves = retabled-Serves s.server.gateway r.tables same v.serves;
            phase_holds =
                subst
                  (λ p.
                    PhaseHolds inet_addr statics p (record s.server.gateway { tables = r.tables }))
                  (sym now_reading) done.backed;
            serving =
                deliver-IsServing r.effects s.database
                  (λ q m. absurd (Memᴰ.not-nil (subst (Memᴰ q) quiet m))) v.serving;
            outbox_lent = v.outbox_lent;
          },
        )
