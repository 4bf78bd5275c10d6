-- ===== src/System/Leasing.antt =====
-- The events of the database's thread: every handler ends, and the invariant holds behind it.
use gateway_socket.Base.{
  ℕ, ◌≤◌, ◌⊎◌, arith, true, ◌≡◌, refl, sym, ap, ◌∙◌, inl, inr, Option, List, [],
}
use mathlib.Core.List.Memᴰ
use gateway_socket.Mailbox.{empty}
use gateway_socket.Mailbox.Laws.{handle-serve_all}
use gateway_socket.Gateway.Handlers.{Gateway}
use gateway_socket.Database.{push_back}
use gateway_socket.Database.Laws.{pushes, refused, updated, with_removals, update_time-refused}
use gateway_socket.Database.Create.{Text, Config, Supply, done, create_dhcp}
use gateway_socket.Database.Sql.{StaticIp, Db, statements}
use gateway_socket.Database.Sql.Leases.{IsLeased}
use gateway_socket.Database.Sql.Access.{SetsAccess, updated-IsLeased}
use gateway_socket.Database.Loop.{
  Database, DatabaseEvent, term_event, dhcp_event, update_event, terminate_database, pending,
  handle_database,
}
use gateway_socket.System.{IsSupply}
use gateway_socket.System.Invariant.{IsServing}
use gateway_socket.System.Answers.{IsConfigured, IsPosted, IsPosted-refl, with_removals-IsPosted}
use gateway_socket.System.Granting.{done_same, create_all-IsPosted}

-- A handler serves its own event and raises no other; only that of `terminate` ends the loop.
pub record IsTaken (e : DatabaseEvent) (d d' : Database Db) : Type 0 where
  pub served : pending e d' ≡ 0
  pub others : (f : DatabaseEvent) → pending f d' ≤ pending f d
  pub exits : d.got_exit ≡ true → d'.got_exit ≡ true
  pub stops : (d'.got_exit ≡ true) ⊎ (pending term_event d' ≡ pending term_event d)

fewer :
    (d d' : Database Db)
    → pending term_event d' ≤ pending term_event d
    → pending dhcp_event d' ≤ pending dhcp_event d
    → pending update_event d' ≤ pending update_event d
    → (f : DatabaseEvent) → pending f d' ≤ pending f d
fewer d d' a b c term_event = a
fewer d d' a b c dhcp_event = b
fewer d d' a b c update_event = c

module _ (inet_addr : Text → ℕ) (statics : List StaticIp) (config : Config)
    (configured : IsConfigured inet_addr config) where
  module _ (update_access_time : ℕ → Text → Db → Option ℕ × Db)
      (sets : SetsAccess update_access_time) (supply : ℕ → Supply)
      (fit : (i : ℕ) → IsSupply (supply i)) where
    dhcp_event-answers :
        (d : Database Db) (g : Gateway)
        → IsServing inet_addr statics d
        → (s : Db × Gateway) × (handle_database statements update_access_time inet_addr config
              supply dhcp_event
              (d, g)
            ≡ done (record d { tables = s.0; create_dhcp_request = empty }, s.1))
          × IsLeased s.0
          × (s.0.static_ip ≡ statics)
          × (s.1.user_del_request ≡ g.user_del_request)
          × IsPosted inet_addr statics g s.1
    unfolding handle_database create_dhcp
    dhcp_event-answers d g v =
        let (s, e, l, same, removals, posted) =
          create_all-IsPosted inet_addr statics config configured supply d.create_dhcp_request.queue
            d.tables g v.keys v.same_statics fit v.clients in
        (
          s,
          rw
              (
                handle_database,
                create_dhcp,
                handle-serve_all push_back d.create_dhcp_request [] v.requests,
                pushes d.create_dhcp_request.queue [],
                e,
              )
              refl,
          l,
          same,
          removals,
          posted,
        )

    -- Every handler of the database's thread ends: no exception, no undefined behaviour.
    pub handle_database-IsServing :
        (e : DatabaseEvent) (d : Database Db) (g : Gateway)
        → IsServing inet_addr statics d
        → (s : Database Db × Gateway) × (handle_database statements update_access_time inet_addr
              config supply e
              (d, g)
            ≡ done s)
          × IsServing inet_addr statics s.0
          × IsPosted inet_addr statics g s.1
          × IsTaken e d s.0
    unfolding handle_database terminate_database create_dhcp
    handle_database-IsServing term_event d g v = (
      _,
      refl,
      record {
        keys = v.keys;
        same_statics = v.same_statics;
        requests = v.requests;
        times = v.times;
        clients = v.clients;
      },
      IsPosted-refl inet_addr statics g,
      record {
        served = refl;
        others = fewer d _ (omega arith) (omega arith) (omega arith);
        exits = λ h. refl;
        stops = inl refl;
      },
    )
    handle_database-IsServing dhcp_event d g v =
        let (s, e, l, same, removals, posted) = dhcp_event-answers d g v in
        (
          (record d { tables = s.0; create_dhcp_request = empty }, s.1),
          e,
          record {
            keys = l;
            same_statics = same;
            requests = refl;
            times = v.times;
            clients = λ r m. absurd (Memᴰ.not-nil m);
          },
          posted,
          record {
            served = refl;
            others = fewer d _ (omega arith) (omega arith) (omega arith);
            exits = λ h. h;
            stops = inr refl;
          },
        )
    handle_database-IsServing update_event d g v =
        let requests = d.update_time_request.queue in
        let (l, same) = updated-IsLeased update_access_time sets requests d.tables v.keys in
        (
          (
            record d {
              tables = updated update_access_time requests d.tables;
              update_time_request = empty;
            },
            with_removals (refused update_access_time requests d.tables) g,
          ),
          rw
              (
                handle_database,
                update_time-refused update_access_time d.update_time_request d.tables g v.times,
              )
              refl,
          record {
            keys = l;
            same_statics = same ∙ v.same_statics;
            requests = v.requests;
            times = refl;
            clients = v.clients;
          },
          with_removals-IsPosted inet_addr statics (refused update_access_time requests d.tables) g,
          record {
            served = refl;
            others = fewer d _ (omega arith) (omega arith) (omega arith);
            exits = λ h. h;
            stops = inr refl;
          },
        )

    -- The handler of DHCP requests posts no removal.
    pub dhcp_event-removals :
        (d : Database Db) (g : Gateway) (s : Database Db × Gateway)
        → IsServing inet_addr statics d
        → handle_database statements update_access_time inet_addr config supply dhcp_event (d, g)
          ≡ done s
        → s.1.user_del_request ≡ g.user_del_request
    dhcp_event-removals d g s v h =
        let (t, e, l, same, removals, posted) = dhcp_event-answers d g v in
        let same_gateway : t.1 ≡ s.1 = ap (λ u. u.1) (done_same _ s (sym e ∙ h)) in
        sym (ap (λ w. w.user_del_request) same_gateway) ∙ removals
