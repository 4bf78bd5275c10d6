-- ===== src/System/Handled.antt =====
-- Database::serve: a round of its event loop does to the tables and to the gateway's queues what the
-- requests that waited ask for, whichever of its two handlers runs first.
use gateway_socket.Base.{
  ℕ, suc, ◌≡◌, ◌⊎◌, refl, sym, subst, ◌∙◌, inl, inr, ◌==◌, Bool-cases, Option, List, [], ◌∷◌,
}
use mathlib.Core.List.{Memᴰ}
use mathlib.Core.List.Memᴰ.{head, tail}
use gateway_socket.Requests.{DhcpRequest, UpdateTime}
use gateway_socket.Mailbox.{empty}
use gateway_socket.Mailbox.Laws.{nothing_waits}
use gateway_socket.Gateway.Handlers.{Gateway}
use gateway_socket.Database.Laws.{refused, updated, with_removals, update_time-refused}
use gateway_socket.Database.Create.{Text, Config, Supply, done, ◌>>=◌}
use gateway_socket.Database.Sql.{StaticIp, Db, statements}
use gateway_socket.Database.Sql.Rounds.{Outcomes, finished, AllServable, create_dhcp-Outcomes}
use gateway_socket.Database.Sql.Access.{SetsAccess}
use gateway_socket.Database.Loop.{
  Database, DatabaseEvent, term_event, dhcp_event, update_event, terminate_database, pending,
  handle_database, database_round,
}
use gateway_socket.System.{IsSupply}
use gateway_socket.System.Invariant.{IsClient, IsServing}
use gateway_socket.System.Answers.{IsConfigured}
use gateway_socket.System.Granting.{done_same, client-IsServable}
use gateway_socket.System.Leasing.{handle_database-IsServing}

-- What the event library looks at in a round; each handler has a supply that fits.
abbrev pub Order : Type 0
Order = List (DatabaseEvent × (ℕ → Supply))

abbrev pub AllSupplied : Order → Type 0
AllSupplied [] = Unit
AllSupplied ((e, supply) ∷ rest) = ((i : ℕ) → IsSupply (supply i)) × AllSupplied rest

abbrev pub Looks : DatabaseEvent → Order → Type 0
Looks e [] = ⊥
Looks e ((f, supply) ∷ rest) = (e ≡ f) ⊎ Looks e rest

some_supply :
    (e : DatabaseEvent) (order : Order)
    → AllSupplied order
    → Looks e order
    → (supply : ℕ → Supply) × ((i : ℕ) → IsSupply (supply i))
some_supply e [] fits m = absurd m
some_supply e ((f, supply) ∷ rest) (fit, fits) m = (supply, fit)

Outcomes-none :
    (inet_addr : Text → ℕ) (config : Config) (supply : ℕ → Supply) (s t : Db × Gateway)
    → Outcomes inet_addr config supply [] s t
    → s ≡ t
Outcomes-none inet_addr config supply s t (finished _ _) = refl

module _ (update_access_time : ℕ → Text → Db → Option ℕ × Db) (inet_addr : Text → ℕ)
    (config : Config) where
  -- Every DHCP request had its outcome, in order.
  abbrev pub Answered : List DhcpRequest → Db × Gateway → Db × Gateway → Type 0
  Answered requests s t =
      (supply : ℕ → Supply) × ((i : ℕ) → IsSupply (supply i))
      × Outcomes inet_addr config supply requests s t

  -- Every access time was written, and the refused users were asked to be removed, in order.
  abbrev pub Updated : List UpdateTime → Db × Gateway → Db × Gateway → Type 0
  Updated requests s t =
      (
        updated update_access_time requests s.0,
        with_removals (refused update_access_time requests s.0) s.1,
      )
      ≡ t

  -- All of the ones, then all of the others.
  abbrev pub Handled : List DhcpRequest → List UpdateTime → Db × Gateway → Db × Gateway → Type 0
  Handled asks times s t =
      ((mid : Db × Gateway) × Answered asks s mid × Updated times mid t)
      ⊎ ((mid : Db × Gateway) × Updated times s mid × Answered asks mid t)

  -- What waits in the queues of the database.
  abbrev pub WaitsFor : Database Db × Gateway → Db × Gateway → Type 0
  WaitsFor s t =
      Handled s.0.create_dhcp_request.queue s.0.update_time_request.queue (s.0.tables, s.1) t

  -- What is still to come behind `t` was to come behind `s`.
  abbrev IsMoved : Database Db × Gateway → Database Db × Gateway → Type 0
  IsMoved s t = (last : Db × Gateway) → WaitsFor t last → WaitsFor s last

  Answered-first :
      (asks : List DhcpRequest) (times : List UpdateTime) (s t last : Db × Gateway)
      → Answered asks s t
      → Handled [] times t last
      → Handled asks times s last
  Answered-first asks times s t last done' (inl (mid, (supply, fit, none_left), upd)) = inl (
    t,
    done',
    subst (λ u. Updated times u last) (sym (Outcomes-none inet_addr config supply t mid none_left))
        upd,
  )
  Answered-first asks times s t last done' (inr (mid, upd, (supply, fit, none_left))) =
      inl (t, done', upd ∙ Outcomes-none inet_addr config supply mid last none_left)

  Updated-first :
      (asks : List DhcpRequest) (times : List UpdateTime) (s t last : Db × Gateway)
      → Updated times s t
      → Handled asks [] t last
      → Handled asks times s last
  Updated-first asks times s t last done' (inl (mid, answers, same)) =
      inr (t, done', subst (Answered asks t) same answers)
  Updated-first asks times s t last done' (inr (mid, same, answers)) =
      inr (t, done', subst (λ u. Answered asks u last) (sym same) answers)

  all-AllServable :
      (supply : ℕ → Supply) (requests : List DhcpRequest)
      → IsConfigured inet_addr config
      → ((i : ℕ) → IsSupply (supply i))
      → ((r : DhcpRequest) → Memᴰ r requests → IsClient r)
      → AllServable inet_addr config supply requests
  all-AllServable supply [] configured fit clients = tt
  all-AllServable supply (request ∷ rest) configured fit clients = (
    client-IsServable inet_addr config (supply 0) request configured (fit 0)
        (clients request (head refl)),
    all-AllServable (λ i. supply (suc i)) rest configured (λ i. fit (suc i))
        (λ r m. clients r (tail m)),
  )

  module _ (statics : List StaticIp) (configured : IsConfigured inet_addr config) where
    handle_database-IsMoved :
        (supply : ℕ → Supply) (e : DatabaseEvent) (d : Database Db) (g : Gateway)
        → ((i : ℕ) → IsSupply (supply i))
        → IsServing inet_addr statics d
        → (s : Database Db × Gateway) × (handle_database statements update_access_time inet_addr
              config supply e
              (d, g)
            ≡ done s)
          × IsMoved (d, g) s
    unfolding handle_database terminate_database
    handle_database-IsMoved supply term_event d g fit v = (_, refl, λ last h. h)
    handle_database-IsMoved supply dhcp_event d g fit v =
        let asks = d.create_dhcp_request.queue in
        let (s, e, l, same, outcomes) =
          create_dhcp-Outcomes inet_addr config supply d.create_dhcp_request d.tables g v.requests
            v.keys (all-AllServable supply asks configured fit v.clients) in
        (
          (record d { tables = s.0; create_dhcp_request = empty }, s.1),
          rw (handle_database, e) refl,
          λ last h.
              Answered-first asks d.update_time_request.queue (d.tables, g) s last
                (supply, fit, outcomes) h,
        )
    handle_database-IsMoved supply update_event d g fit v =
        let times = d.update_time_request.queue in
        (
          (
            record d {
              tables = updated update_access_time times d.tables;
              update_time_request = empty;
            },
            with_removals (refused update_access_time times d.tables) g,
          ),
          rw
              (
                handle_database,
                update_time-refused update_access_time d.update_time_request d.tables g v.times,
              )
              refl,
          λ last h. Updated-first d.create_dhcp_request.queue times (d.tables, g) _ last refl h,
        )

    database_round-IsMoved :
        (sets : SetsAccess update_access_time) (order : Order) (d : Database Db) (g : Gateway)
        (s : Database Db × Gateway)
        → AllSupplied order
        → IsServing inet_addr statics d
        → database_round statements update_access_time inet_addr config order (d, g) ≡ done s
        → IsMoved (d, g) s
    unfolding database_round
    database_round-IsMoved sets [] d g s fits v h =
        subst (IsMoved (d, g)) (done_same (d, g) s h) (λ last w. w)
    database_round-IsMoved sets ((e, supply) ∷ rest) d g s (fit, fits) v h =
        elim (Bool-cases (pending e d == 0)) [
          | inl idle ↦
              database_round-IsMoved sets rest d g s fits v (rw (database_round, idle) at h)
          | inr ready ↦
              let (s1, h1, v1, posted, taken) =
                handle_database-IsServing inet_addr statics config configured update_access_time
                  sets supply fit e d g v in
              let (u, h2, moved) = handle_database-IsMoved supply e d g fit v in
              let first : IsMoved (d, g) s1 =
                subst (IsMoved (d, g)) (done_same u s1 (sym h2 ∙ h1)) moved in
              λ last w. first last (
                database_round-IsMoved sets rest s1.0 s1.1 s fits v1
                  (rw (database_round, ready, h1, ◌>>=◌) at h) last w)
        ]

    -- Nothing waits any more, so that the round did all that waited.
    pub database_round-Handled :
        (sets : SetsAccess update_access_time) (order : Order) (d : Database Db) (g : Gateway)
        (s : Database Db × Gateway)
        → AllSupplied order
        → ((e : DatabaseEvent) → Looks e order)
        → IsServing inet_addr statics d
        → database_round statements update_access_time inet_addr config order (d, g) ≡ done s
        → IsServing inet_addr statics s.0
        → ((e : DatabaseEvent) → pending e s.0 ≡ 0)
        → WaitsFor (d, g) (s.0.tables, s.1)
    database_round-Handled sets order d g s fits complete v h v' nothing =
        let (supply, fit) = some_supply dhcp_event order fits (complete dhcp_event) in
        database_round-IsMoved sets order d g s fits v h (s.0.tables, s.1)
          (rw
            (
              nothing_waits s.0.create_dhcp_request v'.requests (nothing dhcp_event),
              nothing_waits s.0.update_time_request v'.times (nothing update_event),
            )
            (inl ((s.0.tables, s.1), (supply, fit, finished supply (s.0.tables, s.1)), refl)))
