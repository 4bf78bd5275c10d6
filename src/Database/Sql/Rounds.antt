-- ===== src/Database/Sql/Rounds.antt =====
-- Database::create_dhcp on the tables: the whole handler, over any number of requests.
use gateway_socket.Base.{ℕ, suc, ◌≡◌, refl, ◌∙◌, List, [], ◌∷◌}
use gateway_socket.Requests.{DhcpRequest}
use gateway_socket.Mailbox.{Mailbox, empty}
use gateway_socket.Mailbox.Laws.{IsCounted, handle-serve_all}
use gateway_socket.Gateway.Handlers.{Gateway}
use gateway_socket.Database.{push_back}
use gateway_socket.Database.Laws.{pushes}
use gateway_socket.Database.Create.{Text, Config, Supply, done, create_all, create_dhcp}
use gateway_socket.Database.Create.Reply.{IsServable}
use gateway_socket.Database.Sql.{Db, statements}
use gateway_socket.Database.Sql.Leases.{IsLeased}
use gateway_socket.Database.Sql.Grants.{Outcome, create_one-Outcome}

-- Request after request, what each does to the state that the earlier ones left.
pub data Outcomes (inet_addr : Text → ℕ) (config : Config)
    : (ℕ → Supply) → List DhcpRequest → Db × Gateway → Db × Gateway → Type 0 where
  finished : (supply : ℕ → Supply) (s : Db × Gateway) → Outcomes inet_addr config supply [] s s
  served :
      (supply : ℕ → Supply) (request : DhcpRequest) (rest : List DhcpRequest) (db : Db)
      (g : Gateway) (s t : Db × Gateway)
      → Outcome inet_addr config (supply 0) request db g s
      → Outcomes inet_addr config (λ i. supply (suc i)) rest s t
      → Outcomes inet_addr config supply (request ∷ rest) (db, g) t

-- Each request with its own supply.
abbrev pub AllServable : (Text → ℕ) → Config → (ℕ → Supply) → List DhcpRequest → Type 0
AllServable inet_addr config supply [] = Unit
AllServable inet_addr config supply (request ∷ rest) =
    ((ip : Text) → IsServable (supply 0) config request (inet_addr ip))
    × AllServable inet_addr config (λ i. supply (suc i)) rest

module _ (inet_addr : Text → ℕ) (config : Config) where
  create_all-Outcomes :
      (supply : ℕ → Supply) (requests : List DhcpRequest) (db : Db) (g : Gateway)
      → IsLeased db
      → AllServable inet_addr config supply requests
      → (s : Db × Gateway) × (create_all statements inet_addr config supply requests (db, g)
          ≡ done s)
        × IsLeased s.0
        × (s.0.static_ip ≡ db.static_ip)
        × Outcomes inet_addr config supply requests (db, g) s
  unfolding create_all
  create_all-Outcomes supply [] db g l v = ((db, g), refl, l, refl, finished supply (db, g))
  create_all-Outcomes supply (request ∷ rest) db g l (v, vs) =
      let (s, e, l', same, outcome) =
        create_one-Outcome inet_addr config (supply 0) request db g l v in
      let (t, e', l'', same', outcomes) =
        create_all-Outcomes (λ i. supply (suc i)) rest s.0 s.1 l' vs in
      (
        t,
        rw (create_all, e) e',
        l'',
        same' ∙ same,
        served supply request rest db g s t outcome outcomes,
      )

  -- If the eventfd counts the queue, on tables with their keys and with what each request needs, the
  -- handler ends with its mailbox empty: no exception and no undefined behaviour, the keys hold, the
  -- listed addresses are untouched, and the requests have their outcomes one after the other, in
  -- order, none left out.
  pub create_dhcp-Outcomes :
      (supply : ℕ → Supply) (m : Mailbox DhcpRequest) (db : Db) (g : Gateway)
      → IsCounted m
      → IsLeased db
      → AllServable inet_addr config supply m.queue
      → (s : Db × Gateway) × (create_dhcp statements inet_addr config supply m (db, g)
          ≡ done (empty, s))
        × IsLeased s.0
        × (s.0.static_ip ≡ db.static_ip)
        × Outcomes inet_addr config supply m.queue (db, g) s
  unfolding create_dhcp
  create_dhcp-Outcomes supply m db g c l v =
      let (s, e, l', same, outcomes) = create_all-Outcomes supply m.queue db g l v in
      (
        s,
        rw (create_dhcp, handle-serve_all push_back m [] c, pushes m.queue [], e) refl,
        l',
        same,
        outcomes,
      )
