-- ===== src/System/Revokes.antt =====
-- From a user whose row is gone to its disconnection: the answer of the database's thread to a request for
-- the time of access, and the event loop in which the gateway's thread takes the user away.
use gateway_socket.Base.{
  ℕ, ◌≡◌, ◌≢◌, refl, sym, subst, ap, ◌∙◌, ◌⊎◌, ◌++◌, inl, inr, Option, some, List, [], ◌∷◌, find,
}
use mathlib.Core.List.{Memᴰ}
use mathlib.Core.List.Memᴰ
use gateway_socket.Requests.{UserInfo}
use gateway_socket.Mailbox.{empty, post}
use gateway_socket.Gateway.Handlers.{Gateway, del_user_info}
use gateway_socket.Gateway.Handlers.Laws.{latest}
use gateway_socket.Gateway.Buffer.{Known}
use gateway_socket.Gateway.Connected.{IsCut, nobody-IsCut}
use gateway_socket.Gateway.Loop.{Server, Event, add_static_event, event_loop}
use gateway_socket.Gateway.Loop.Served.{event_loop-IsServed}
use gateway_socket.Gateway.Loop.Joined.{IsLeaving, users-IsAway, event_loop-removed}
use gateway_socket.Database.Laws.{refused, with_removals, updated, update_time-refused}
use gateway_socket.Database.Create.{Text, Config, Supply, done}
use gateway_socket.Database.Sql.{StaticIp, Db, statements}
use gateway_socket.Database.Sql.Access.{SetsAccess}
use gateway_socket.Database.Loop.{Database, update_event, handle_database}
use gateway_socket.System.{reading, System, answered, IsSupply}
use gateway_socket.System.Invariant.{IsLent, Invariant, backed-UsersLent}
use gateway_socket.System.Answers.{IsConfigured}
use gateway_socket.System.Granting.{done_same}
use gateway_socket.System.Joining.{event_loop-Serves}
use gateway_socket.System.Leasing.{handle_database-IsServing}
use gateway_socket.System.Steps.{answered-Invariant, phase_at}

-- The removals wait, and nothing else is changed.
removals-Mem :
    (ips : List ℕ) (g : Gateway) (ip : ℕ)
    → Memᴰ ip ips ⊎ Memᴰ ip g.user_del_request.queue
    → Memᴰ ip (with_removals ips g).user_del_request.queue
unfolding del_user_info post
removals-Mem [] g ip (inl m) = absurd (Memᴰ.not-nil m)
removals-Mem [] g ip (inr m) = m
removals-Mem (key ∷ rest) g ip m = removals-Mem rest (del_user_info key g) ip (posted m)
  where
    last : (xs : List ℕ) → Memᴰ key (xs ++ key ∷ [])
    last [] = Memᴰ.head refl
    last (x ∷ xs) = Memᴰ.tail (last xs)

    before : (xs : List ℕ) → Memᴰ ip xs → Memᴰ ip (xs ++ key ∷ [])
    before [] m' = absurd (Memᴰ.not-nil m')
    before (x ∷ xs) m' = elim (Memᴰ.cases_cons m') [
      | inl same ↦ Memᴰ.head same
      | inr m'' ↦ Memᴰ.tail (before xs m'')
    ]

    posted :
        Memᴰ ip (key ∷ rest) ⊎ Memᴰ ip g.user_del_request.queue
        → Memᴰ ip rest ⊎ Memᴰ ip (del_user_info key g).user_del_request.queue
    posted (inr m') = inr (before g.user_del_request.queue m')
    posted (inl m') = elim (Memᴰ.cases_cons m') [
      | inl same ↦ inr (
          subst (λ k. Memᴰ k (g.user_del_request.queue ++ key ∷ [])) (sym same)
            (last g.user_del_request.queue))
      | inr m'' ↦ inl m''
    ]

removals-same_users :
    (ips : List ℕ) (g : Gateway) → (with_removals ips g).user_add_request ≡ g.user_add_request
unfolding del_user_info
removals-same_users [] g = refl
removals-same_users (key ∷ rest) g = removals-same_users rest (del_user_info key g)

module _ (update_access_time : ℕ → Text → Db → Option ℕ × Db) (inet_addr : Text → ℕ)
    (config : Config) (statics : List StaticIp) (sets : SetsAccess update_access_time)
    (configured : IsConfigured inet_addr config) where
  -- In a state with the invariant, between two turns, let a request for the time of access wait whose
  -- statement, after those before it, changes no row, for a listed address of which no new user waits. Let
  -- the database's thread handle these requests, and the gateway's event loop look at every event, in any
  -- order. Both end, and the address is cut off behind them: no well-formed IP packet from it leaves for
  -- the outside, from whatever hardware address, and none to it enters.
  pub update-Revokes :
      (s : System)
      → Invariant inet_addr statics s
      → s.phase ≡ reading
      → (ip : ℕ)
      → Memᴰ ip (refused update_access_time s.database.update_time_request.queue s.database.tables)
      → IsLent inet_addr statics ip
      → ((info : UserInfo) → Memᴰ info s.server.gateway.user_add_request.queue → info.ip ≢ ip)
      → (supply : ℕ → Supply) → ((i : ℕ) → IsSupply (supply i))
      → (order : List Event) → ((e : Event) → Memᴰ e order)
      → (t : Database Db × Gateway) × (u : Server) × (handle_database statements update_access_time
            inet_addr config supply update_event
            (s.database, s.server.gateway)
          ≡ done t)
        × (event_loop order (answered s t).server ≡ some u)
        × IsCut u.gateway.tables ip
  unfolding handle_database
  update-Revokes s v here_reading ip gone lent away supply supplies order complete =
      let requests = s.database.update_time_request.queue in
      let ips = refused update_access_time requests s.database.tables in
      let h = with_removals ips s.server.gateway in
      let (t, handled, serving, posted, taken) =
        handle_database-IsServing inet_addr statics config configured update_access_time sets supply
          supplies update_event s.database s.server.gateway v.serving in
      let same : h ≡ t.1 =
        ap (λ w. w.1)
          (done_same
            (
              record s.database {
                tables = updated update_access_time requests s.database.tables;
                update_time_request = empty;
              },
              h,
            )
            t
            (sym (
                rw
                  (
                    handle_database,
                    update_time-refused update_access_time s.database.update_time_request
                        s.database.tables s.server.gateway v.serving.times,
                  )
                  refl)
              ∙ handled)) in
      let v2 = answered-Invariant inet_addr statics s t v serving posted in
      let leaving : IsLeaving ip h = record {
        leaves = removals-Mem ips s.server.gateway ip (inl gone);
        away = users-IsAway ip h.user_add_request.queue (λ info m.
            away info
              (subst (λ w. Memᴰ info w.queue) (removals-same_users ips s.server.gateway) m));
      } in
      let (u, looped, done') = event_loop-IsServed order (answered s t).server v2.sound in
      let nobody =
        event_loop-removed ip order (answered s t).server u v2.sound
          (subst (IsLeaving ip) same leaving) complete looped in
      let (serves, (lent', settled)) =
        event_loop-Serves inet_addr statics order (answered s t).server u v2.sound v2.serves
          (
            backed-UsersLent inet_addr statics t.1 v2.serves
                (phase_at inet_addr statics (answered s t) reading v2 here_reading),
            inr (complete add_static_event),
          )
          looped in
      let none_left : u.gateway.static_ip_add_request.queue ≡ [] = elim settled [
        | inl e ↦ e
        | inr m ↦ absurd (Memᴰ.not-nil m)
      ] in
      let (static_mac, static) =
        subst (λ q. Known (latest ip q (find ip u.gateway.tables.static_ip_map))) none_left
          (serves.all_listed ip lent) in
      (t, u, handled, looped, nobody-IsCut u.gateway.tables ip static_mac nobody static)
