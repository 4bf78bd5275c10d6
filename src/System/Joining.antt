-- ===== src/System/Joining.antt =====
-- The event loop in the running program: a client to whom the database's thread granted an address
-- becomes a user, and is connected behind the loop.
use gateway_socket.Base.{
  ℕ, ◌≡◌, refl, sym, subst, ap, ◌∙◌, inl, inr, ◌==◌, Bool-cases, Option-cases, false, none, some,
  List, [], ◌∷◌, find,
}
use mathlib.Core.List.{Memᴰ}
use mathlib.Core.List.Memᴰ
use gateway_socket.Requests.{UserInfo, DhcpRequest}
use gateway_socket.Mailbox.{empty}
use gateway_socket.Mailbox.Laws.{IsCounted}
use gateway_socket.Gateway.Icmp.{◌>>=◌}
use gateway_socket.Gateway.Inside.{on_inside, Round}
use gateway_socket.Gateway.Handlers.{Gateway, add_user}
use gateway_socket.Gateway.Handlers.Laws.{send_packet-frames}
use gateway_socket.Gateway.Handlers.Users.{add_user-latest}
use gateway_socket.Gateway.Connected.{IsConnected, user-IsConnected}
use gateway_socket.Gateway.Loop.{Server, Event, add_static_event, count_of, event_loop}
use gateway_socket.Gateway.Loop.Turns.{some_same}
use gateway_socket.Gateway.Loop.Sound.{IsSound}
use gateway_socket.Gateway.Loop.Joined.{IsJoining, event_loop-joined}
use gateway_socket.Database.Create.{Text}
use gateway_socket.Database.Sql.{StaticIp}
use gateway_socket.Database.Sql.Delivered.{IsDelivered}
use gateway_socket.System.{reading, handling, System, after_inside, take_inside, look}
use gateway_socket.System.Invariant.{
  Serves, PhaseHolds, Invariant, backed-UsersLent, settled-IsBacked,
}
use gateway_socket.System.Handlers.{look-Serves}
use gateway_socket.System.Steps.{phase_at}

event_loop-look :
    (e : Event) (rest : List Event) (s u : Server)
    → look e s ≡ some u
    → event_loop (e ∷ rest) s ≡ event_loop rest u
unfolding event_loop look
event_loop-look e rest s u h = elim (Bool-cases (count_of e s == 0)) [
  | inl idle ↦ rw (event_loop, idle) (ap (event_loop rest) (some_same s u (rw (look, idle) at h)))
  | inr ready ↦ rw (event_loop, ready, rw (look, ready) at h, ◌>>=◌) refl
]

-- A delivered client waits to become a user.
pub delivered-IsJoining :
    (request : DhcpRequest) (ip : ℕ) (bytes : List ℕ) (g h : Gateway)
    → IsCounted h.send_packet_request
    → IsCounted h.user_add_request
    → h.user_del_request.queue ≡ []
    → request.is_discover ≡ false
    → IsDelivered request ip bytes g h
    → (user : UserInfo) × (user.user_mac ≡ request.mac) × IsJoining ip user h
delivered-IsJoining request ip bytes g h c d stays asks (g1, sent, joins) =
    let (g2, user, added, known, mac) = joins asks in
    let (t, e, statics, users) = add_user-latest (record h { send_packet_request = empty }) d in
    let same : record h { send_packet_request = empty } ≡ g1 =
      ap (λ w. w.0) (some_same _ (g1, _) (sym (send_packet-frames h c) ∙ sent)) in
    let last = some_same _ g2 (sym e ∙ ap add_user same ∙ added) in
    (
      user,
      mac,
      record {
        joins = sym (users ip) ∙ ap (λ w. find ip w.tables.user_map) last ∙ known;
        stays = λ m. Memᴰ.not-nil (subst (Memᴰ ip) stays m);
      },
    )

pub take_inside-after :
    (now : ℕ) (block bytes : List ℕ) (s s1 : System)
    → take_inside now block bytes s ≡ some s1
    → (r : Round) × (s1 ≡ after_inside s r)
unfolding take_inside
take_inside-after now block bytes s s1 h =
    elim (Option-cases (on_inside now block s.server.gateway.tables s.server.in_packet bytes)) [
      | inl e ↦ let stuck : none ≡ some s1 = rw (take_inside, e, ◌>>=◌) at h in absurd (cc)
      | inr (r, e) ↦ (r, sym (some_same (after_inside s r) s1 (rw (take_inside, e, ◌>>=◌) at h)))
    ]

module _ (inet_addr : Text → ℕ) (statics : List StaticIp) where
  pub event_loop-Serves :
      (order : List Event) (s t : Server)
      → IsSound s
      → Serves inet_addr statics s.gateway
      → PhaseHolds inet_addr statics (handling order) s.gateway
      → event_loop order s ≡ some t
      → Serves inet_addr statics t.gateway × PhaseHolds inet_addr statics (handling []) t.gateway
  unfolding event_loop
  event_loop-Serves [] s t sound v phase h =
      subst
        (λ u.
          Serves inet_addr statics u.gateway × PhaseHolds inet_addr statics (handling []) u.gateway)
        (some_same s t h) (v, phase)
  event_loop-Serves (e ∷ rest) s t sound v phase h =
      let (u, looked, sound', v', phase') = look-Serves inet_addr statics rest s sound v e phase in
      event_loop-Serves rest u t sound' v' phase' (sym (event_loop-look e rest s u looked) ∙ h)

  -- After the event loop the user who waited is connected.
  pub joining-IsConnected :
      (s : System) (order : List Event) (ip : ℕ) (user : UserInfo)
      → Invariant inet_addr statics s
      → s.phase ≡ reading
      → ((e : Event) → Memᴰ e order)
      → IsJoining ip user s.server.gateway
      → (t : Server) × (event_loop order s.server ≡ some t)
        × (static_mac : List ℕ) × IsConnected t.gateway.tables ip user static_mac
  joining-IsConnected s order ip user v here_reading complete joining =
      let (t, h, known) = event_loop-joined ip user order s.server v.sound joining complete in
      let lent =
        backed-UsersLent inet_addr statics s.server.gateway v.serves
          (phase_at inet_addr statics s reading v here_reading) in
      let (v', (lent', settled)) =
        event_loop-Serves order s.server t v.sound v.serves (lent, inr (complete add_static_event))
          h in
      let backed =
        settled-IsBacked inet_addr statics t.gateway v' lent'
          (elim settled [ inl none_left ↦ none_left | inr m ↦ absurd (Memᴰ.not-nil m) ]) in
      let (static_mac, static) = backed ip user known in
      (t, h, static_mac, user-IsConnected t.gateway.tables ip user static_mac known static)
