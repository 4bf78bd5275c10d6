-- ===== src/System/Handlers.antt =====
-- The event loop of the gateway's thread keeps the invariant.
use gateway_socket.Base.{
  ℕ, ◌≡◌, ◌≢◌, refl, sym, subst, ap, ◌∙◌, ◌⊎◌, inl, inr, ◌==◌, Bool-cases, Option, some, List, [],
  ◌∷◌, ◌++◌, map, find, arith,
}
use mathlib.Core.List.{Memᴰ}
use mathlib.Core.List.Memᴰ
use gateway_socket.Requests.{UserInfo}
use gateway_socket.Gateway.Tables.{send_inside}
use gateway_socket.Mailbox.{empty}
use gateway_socket.Mailbox.Laws.{nothing_waits}
use gateway_socket.Gateway.Buffer.{Known}
use gateway_socket.Gateway.Handlers.{Gateway}
use gateway_socket.Gateway.Handlers.Laws.{
  latest, without, add_static_ip-latest, del_static_ip-without, frames, send_packet-frames,
}
use gateway_socket.Gateway.Handlers.Users.{keyed, add_user-latest, del_user-without}
use gateway_socket.Gateway.Handlers.Backing.{without-some}
use gateway_socket.Gateway.Loop.{
  Server, Event, add_static_event, del_static_event, add_user_event, del_user_event,
  send_packet_event, term_event, count_of, handle_event, with_gateway, with_frames,
}
use gateway_socket.Gateway.Loop.Sound.{IsSound, handle_event-IsHandled}
use gateway_socket.Gateway.Loop.Turns.{some_same}
use gateway_socket.Startup.Posted.{latest-Mem, keyed-Mem}
use gateway_socket.Database.Create.{Text}
use gateway_socket.Database.Sql.{StaticIp}
use gateway_socket.System.{handling, look}
use gateway_socket.System.Invariant.{final, IsLent, AreLent, Serves, PhaseHolds}

module _ (inet_addr : Text → ℕ) (statics : List StaticIp) where
  pub Serves-same :
      (g h : Gateway)
      → ((ip : ℕ) → final ip h ≡ final ip g)
      → h.static_ip_del_request.queue ≡ []
      → AreLent inet_addr statics h.user_add_request.queue
      → Serves inet_addr statics g
      → Serves inet_addr statics h
  Serves-same g h same deletes lent v = record {
    only_listed = λ ip k. v.only_listed ip (subst Known (same ip) k);
    all_listed = λ ip l. subst Known (sym (same ip)) (v.all_listed ip l);
    none_deleted = deletes;
    new_users = lent;
  }

  abbrev Handled : Event → List Event → Server → Type 0
  Handled e rest s =
      (t : Server) × (handle_event e s ≡ some t)
      × Serves inet_addr statics t.gateway
      × PhaseHolds inet_addr statics (handling rest) t.gateway

  -- The events behind the first one, if it is not that of new static addresses.
  behind :
      (e : Event) (rest : List Event) (q : List (ℕ × List ℕ))
      → add_static_event ≢ e
      → (q ≡ []) ⊎ Memᴰ add_static_event (e ∷ rest)
      → (q ≡ []) ⊎ Memᴰ add_static_event rest
  behind e rest q other (inl none_left) = inl none_left
  behind e rest q other (inr m) = elim (Memᴰ.cases_cons m) [
    | inl same ↦ absurd (other same)
    | inr m' ↦ inr m'
  ]

  latest-UsersLent :
      (infos : List UserInfo) (old : Option UserInfo) (ip : ℕ) (user : UserInfo)
      → AreLent inet_addr statics infos
      → (old ≡ some user → IsLent inet_addr statics ip)
      → latest ip (keyed infos) old ≡ some user
      → IsLent inet_addr statics ip
  latest-UsersLent infos old ip user lent before h = elim (latest-Mem ip user (keyed infos) old h) [
    | inl m ↦
        let (mi, same) = keyed-Mem ip user infos m in
        subst (IsLent inet_addr statics) same (lent user mi)
    | inr e ↦ before e
  ]

  module _ (rest : List Event) (s : Server) (sound : IsSound s)
      (v : Serves inet_addr statics s.gateway) where
    handled :
        (e : Event)
        → PhaseHolds inet_addr statics (handling (e ∷ rest)) s.gateway
        → Handled e rest s
    unfolding handle_event
    handled add_static_event (lent, later) =
        let (t, e, u, m) = add_static_ip-latest s.gateway sound.added in
        (
          record s { gateway = record s.gateway { tables = t; static_ip_add_request = empty } },
          rw (with_gateway, e) refl,
          Serves-same s.gateway _ m v.none_deleted v.new_users v,
          (λ ip user h. lent ip user (rw (← u) h), inl refl),
        )
    handled del_static_event (lent, later) =
        let (t, e, u, m) = del_static_ip-without s.gateway sound.deleted in
        (
          record s { gateway = record s.gateway { tables = t; static_ip_del_request = empty } },
          rw (with_gateway, e) refl,
          Serves-same s.gateway _
              (λ ip. ap (latest ip s.gateway.static_ip_add_request.queue) (
                m ip
                ∙ ap (λ q. without ip q (find ip s.gateway.tables.static_ip_map)) v.none_deleted))
              refl v.new_users v,
          (λ ip user h. lent ip user (rw (← u) h), behind del_static_event rest _ (λ h. cc) later),
        )
    handled add_user_event (lent, later) =
        let (t, e, u, m) = add_user-latest s.gateway sound.users_added in
        (
          record s { gateway = record s.gateway { tables = t; user_add_request = empty } },
          rw (with_gateway, e) refl,
          Serves-same s.gateway _
              (λ ip. ap (λ n. latest ip s.gateway.static_ip_add_request.queue (find ip n)) u)
              v.none_deleted (λ info no. absurd (Memᴰ.not-nil no)) v,
          (
            λ ip user h.
                latest-UsersLent s.gateway.user_add_request.queue _ ip user v.new_users
                  (lent ip user) (sym (m ip) ∙ h),
            behind add_user_event rest _ (λ h. cc) later,
          ),
        )
    handled del_user_event (lent, later) =
        let (t, e, u, m) = del_user-without s.gateway sound.users_deleted in
        (
          record s { gateway = record s.gateway { tables = t; user_del_request = empty } },
          rw (with_gateway, e) refl,
          Serves-same s.gateway _
              (λ ip. ap (λ n. latest ip s.gateway.static_ip_add_request.queue (find ip n)) u)
              v.none_deleted v.new_users v,
          (
            λ ip user h.
                lent ip user
                  (without-some ip s.gateway.user_del_request.queue _ user (sym (m ip) ∙ h)),
            behind del_user_event rest _ (λ h. cc) later,
          ),
        )
    handled send_packet_event (lent, later) = (
      record s {
        gateway = record s.gateway { send_packet_request = empty };
        effects = s.effects ++ map send_inside (frames s.gateway.send_packet_request.queue);
      },
      rw (with_frames, send_packet-frames s.gateway sound.packets) refl,
      Serves-same s.gateway _ (λ ip. refl) v.none_deleted v.new_users v,
      (lent, behind send_packet_event rest _ (λ h. cc) later),
    )
    handled term_event (lent, later) =
        (_, refl, v, (lent, behind term_event rest _ (λ h. cc) later))

    -- Whatever the event loop looks at, the thread goes on, and the invariant holds before the next look.
    pub look-Serves :
        (e : Event)
        → PhaseHolds inet_addr statics (handling (e ∷ rest)) s.gateway
        → (t : Server) × (look e s ≡ some t)
          × IsSound t
          × Serves inet_addr statics t.gateway
          × PhaseHolds inet_addr statics (handling rest) t.gateway
    unfolding look
    look-Serves e (lent, later) = elim (Bool-cases (count_of e s == 0)) [
      | inl idle ↦
          let none_here : count_of e s ≡ 0 = ground arith in
          (
            s,
            rw (look, idle) refl,
            sound,
            v,
            (
              lent,
              elim later [
                | inl none_left ↦ inl none_left
                | inr m ↦ elim (Memᴰ.cases_cons m) [
                  | inr m' ↦ inr m'
                  | inl same ↦ inl (
                      nothing_waits s.gateway.static_ip_add_request sound.added
                        (subst (λ f. count_of f s ≡ 0) (sym same) none_here))
                ]
              ],
            ),
          )
      | inr ready ↦
          let (t, h, serves, phase) = handled e (lent, later) in
          let (t', h', done) = handle_event-IsHandled e s sound in
          (
            t,
            rw (look, ready) h,
            subst IsSound (some_same t' t (sym h' ∙ h)) done.sound,
            serves,
            phase,
          )
    ]
