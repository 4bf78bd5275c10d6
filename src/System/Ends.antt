-- ===== src/System/Ends.antt =====
-- Database::serve: a round of its event loop serves all that was requested before it, and `terminate`
-- ends the loop.
use gateway_socket.Base.{
  ℕ, ◌≤◌, ◌≡◌, ◌≢◌, refl, sym, subst, ◌∙◌, ◌⊎◌, inl, inr, ◌==◌, true, false, Bool-cases, Option,
  List, [], ◌∷◌, arith,
}
use gateway_socket.Gateway.Handlers.{Gateway}
use gateway_socket.Database.Create.{Text, Config, Supply, done, ◌>>=◌}
use gateway_socket.Database.Sql.{StaticIp, Db, statements}
use gateway_socket.Database.Sql.Access.{SetsAccess}
use gateway_socket.Database.Loop.{
  Database, DatabaseEvent, term_event, pending, database_round, serve_database,
}
use gateway_socket.System.Invariant.{IsServing}
use gateway_socket.System.Answers.{IsConfigured, IsPosted, IsPosted-refl, IsPosted-trans}
use gateway_socket.System.Handled.{Order, AllSupplied, Looks, WaitsFor, database_round-Handled}
use gateway_socket.System.Leasing.{IsTaken, handle_database-IsServing}

record IsServed (order : Order) (d d' : Database Db) : Type 0 where
  fewer : (e : DatabaseEvent) → pending e d' ≤ pending e d
  served : (e : DatabaseEvent) → Looks e order → pending e d' ≡ 0
  exits : d.got_exit ≡ true → d'.got_exit ≡ true
  stops : (d'.got_exit ≡ true) ⊎ (pending term_event d' ≡ pending term_event d)

IsServed-idle :
    (e : DatabaseEvent) (supply : ℕ → Supply) (rest : Order) (d d' : Database Db)
    → pending e d ≡ 0
    → IsServed rest d d'
    → IsServed ((e, supply) ∷ rest) d d'
IsServed-idle e supply rest d d' nothing done' = record {
  fewer = done'.fewer;
  served = λ f m. elim m [
    | inl same ↦ subst (λ k. pending k d' ≡ 0) (sym same) (omega (arith, done'.fewer e, nothing))
    | inr m' ↦ done'.served f m'
  ];
  exits = done'.exits;
  stops = done'.stops;
}

IsServed-ready :
    (e : DatabaseEvent) (supply : ℕ → Supply) (rest : Order) (d d1 d' : Database Db)
    → IsTaken e d d1
    → IsServed rest d1 d'
    → IsServed ((e, supply) ∷ rest) d d'
IsServed-ready e supply rest d d1 d' taken done' = record {
  fewer = λ f. omega (arith, done'.fewer f, taken.others f);
  served = λ f m. elim m [
    | inl same ↦
        subst (λ k. pending k d' ≡ 0) (sym same) (omega (arith, done'.fewer e, taken.served))
    | inr m' ↦ done'.served f m'
  ];
  exits = λ x. done'.exits (taken.exits x);
  stops = elim done'.stops [
    | inl x ↦ inl x
    | inr same ↦ elim taken.stops [ inl x ↦ inl (done'.exits x) | inr same' ↦ inr (same ∙ same') ]
  ];
}

module _ (update_access_time : ℕ → Text → Db → Option ℕ × Db) (inet_addr : Text → ℕ)
    (config : Config) (statics : List StaticIp) (sets : SetsAccess update_access_time)
    (configured : IsConfigured inet_addr config) where
  database_round-IsServed :
      (order : Order) (d : Database Db) (g : Gateway)
      → AllSupplied order
      → IsServing inet_addr statics d
      → (s : Database Db × Gateway) × (database_round statements update_access_time inet_addr config
            order
            (d, g)
          ≡ done s)
        × IsServing inet_addr statics s.0
        × IsPosted inet_addr statics g s.1
        × IsServed order d s.0
  unfolding database_round
  database_round-IsServed [] d g fits v = (
    (d, g),
    refl,
    v,
    IsPosted-refl inet_addr statics g,
    record { fewer = λ e. omega arith; served = λ e m. absurd m; exits = λ h. h; stops = inr refl },
  )
  database_round-IsServed ((e, supply) ∷ rest) d g (fit, fits) v =
      elim (Bool-cases (pending e d == 0)) [
        | inl idle ↦
            let (s, h, v', posted, done') = database_round-IsServed rest d g fits v in
            (
              s,
              rw (database_round, idle) h,
              v',
              posted,
              IsServed-idle e supply rest d s.0 (ground arith) done',
            )
        | inr ready ↦
            let (s1, h1, v1, posted1, taken) =
              handle_database-IsServing inet_addr statics config configured update_access_time sets
                supply fit e d g v in
            let (s, h, v', posted, done') = database_round-IsServed rest s1.0 s1.1 fits v1 in
            (
              s,
              rw (database_round, ready, h1, ◌>>=◌) h,
              v',
              IsPosted-trans inet_addr statics g s1.1 s.1 posted1 posted,
              IsServed-ready e supply rest d s1.0 s.0 taken done',
            )
      ]

  over_there :
      (rounds : List Order) (s : Database Db × Gateway)
      → s.0.got_exit ≡ true
      → serve_database statements update_access_time inet_addr config rounds s ≡ done s
  unfolding serve_database
  over_there [] s e = refl
  over_there (order ∷ rest) s e = rw (serve_database, e) refl

  last_round :
      (order : Order) (rounds : List Order) (d : Database Db) (g : Gateway)
      (s : Database Db × Gateway)
      → d.got_exit ≡ false
      → database_round statements update_access_time inet_addr config order (d, g) ≡ done s
      → s.0.got_exit ≡ true
      → serve_database statements update_access_time inet_addr config (order ∷ rounds) (d, g)
        ≡ done s
  unfolding serve_database
  last_round order rounds d g s running ended last =
      rw (serve_database, ended, ◌>>=◌, running) (over_there rounds s last)

  -- If the event library looks at every event, whatever their order, and the state is as the program
  -- leaves it, a round of the database's loop, over statements that raise no exception, does what
  -- waited when it began and nothing else, either all DHCP requests first or all access times first:
  -- the DHCP requests have their outcomes one after the other, the access times are written, and the
  -- users whose statement changed no row are asked to be removed, all in order. Nothing waits then,
  -- the tables keep their keys, and the gateway's queues got only packets, removals and users with
  -- listed addresses. If `terminate` was called and the loop was not told to exit before, `serve`
  -- returns after this round, whatever comes later.
  pub database_round-Ends :
      (order : Order) (d : Database Db) (g : Gateway)
      → AllSupplied order
      → ((e : DatabaseEvent) → Looks e order)
      → IsServing inet_addr statics d
      → (s : Database Db × Gateway) × (database_round statements update_access_time inet_addr config
            order
            (d, g)
          ≡ done s)
        × ((e : DatabaseEvent) → pending e s.0 ≡ 0)
        × WaitsFor update_access_time inet_addr config (d, g) (s.0.tables, s.1)
        × IsServing inet_addr statics s.0
        × IsPosted inet_addr statics g s.1
        × (d.got_exit ≡ false
            → d.term_event ≢ 0
            → (rounds : List Order)
            → serve_database statements update_access_time inet_addr config (order ∷ rounds) (d, g)
              ≡ done s)
  database_round-Ends order d g fits complete v =
      let (s, h, v', posted, done') = database_round-IsServed order d g fits v in
      (
        s,
        h,
        λ e. done'.served e (complete e),
        database_round-Handled update_access_time inet_addr config statics configured sets order d g
            s fits complete v h v' (λ e. done'.served e (complete e)),
        v',
        posted,
        λ running asked rounds.
            let last : s.0.got_exit ≡ true = elim done'.stops [
              | inl x ↦ x
              | inr same ↦ absurd (asked (sym same ∙ done'.served term_event (complete term_event)))
            ] in
            last_round order rounds d g s running h last,
      )
