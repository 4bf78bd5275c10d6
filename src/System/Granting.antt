-- ===== src/System/Granting.antt =====
-- The answers to DHCP requests in the running program: every one ends, the leases stay unique, and only
-- packets and users are posted to the gateway.
use gateway_socket.Base.{ℕ, suc, ◌≡◌, refl, subst, ◌∙◌, inl, inr, Bool-cases, List, [], ◌∷◌}
use mathlib.Core.List.{Memᴰ}
use mathlib.Core.List.Memᴰ.{head, tail}
use gateway_socket.Requests.{DhcpRequest}
use gateway_socket.Gateway.Handlers.{Gateway, add_user_info, request_send_packet}
use gateway_socket.Database.Create.{Text, Config, Supply, done, answer, create_all}
use gateway_socket.Database.Create.Reply.{IsServable}
use gateway_socket.Database.Sql.{StaticIp, Db, statements}
use gateway_socket.Database.Sql.Leases.{IsLeased}
use gateway_socket.Database.Sql.Grants.{Outcome, unknown, leased, create_one-Outcome}
use gateway_socket.Database.Sql.Grants as Grants
use gateway_socket.System.{IsSupply}
use gateway_socket.System.Invariant.{IsClient}
use gateway_socket.System.Answers.{
  IsConfigured, granted-listed, IsPosted, IsPosted-refl, IsPosted-trans, answer-IsPosted,
}

pub done_same {ℓ} : {A : Type ℓ} (a b : A) → done a ≡ done b → a ≡ b
done_same a b e = cc

pub client-IsServable :
    (inet_addr : Text → ℕ) (config : Config) (supply : Supply) (request : DhcpRequest)
    → IsConfigured inet_addr config
    → IsSupply supply
    → IsClient request
    → (ip : Text) → IsServable supply config request (inet_addr ip)
client-IsServable inet_addr config supply request c s k ip = record {
  packet_size = s.packet_size;
  dhcp_size = s.dhcp_size;
  dhcp_bytes = s.dhcp_bytes;
  mac_size = k.size;
  mac_bytes = k.bytes;
  few = c.few;
  gateway_word = c.gateway_word;
  ip_word = c.words ip;
}

module _ (inet_addr : Text → ℕ) (statics : List StaticIp) (config : Config)
    (configured : IsConfigured inet_addr config) where
  Outcome-IsPosted :
      (supply : Supply) (request : DhcpRequest) (db : Db) (g : Gateway) (s : Db × Gateway)
      → IsLeased db
      → db.static_ip ≡ statics
      → Outcome inet_addr config supply request db g s
      → IsPosted inet_addr statics g s.1
  Outcome-IsPosted supply request db g s l same (unknown none_there e) =
      rw e (IsPosted-refl inet_addr statics g)
  Outcome-IsPosted supply request db g s l same (Grants.refused client m mac exhausted e) =
      rw e (IsPosted-refl inet_addr statics g)
  Outcome-IsPosted supply request db g s l same (leased client ip p m mac granted held bytes e) =
      let (row, mr, e_ip) = granted-listed _ db client ip l m granted in
      rw e (
        answer-IsPosted inet_addr statics config request (inet_addr ip) p g
          (row, subst (Memᴰ row) same mr, rw e_ip refl))

  -- The answer to a request posts no removal.
  Outcome-removals :
      (supply : Supply) (request : DhcpRequest) (db : Db) (g : Gateway) (s : Db × Gateway)
      → Outcome inet_addr config supply request db g s
      → s.1.user_del_request ≡ g.user_del_request
  unfolding answer add_user_info request_send_packet
  Outcome-removals supply request db g s (unknown none_there e) = rw e refl
  Outcome-removals supply request db g s (Grants.refused client m mac exhausted e) = rw e refl
  Outcome-removals supply request db g s (leased client ip p m mac granted held bytes e) =
      elim (Bool-cases request.is_discover) [
        | inl discover ↦ rw (e, answer, discover) refl
        | inr asks ↦ rw (e, answer, asks) refl
      ]

  pub create_all-IsPosted :
      (supply : ℕ → Supply) (requests : List DhcpRequest) (db : Db) (g : Gateway)
      → IsLeased db
      → db.static_ip ≡ statics
      → ((i : ℕ) → IsSupply (supply i))
      → ((r : DhcpRequest) → Memᴰ r requests → IsClient r)
      → (s : Db × Gateway) × (create_all statements inet_addr config supply requests (db, g)
          ≡ done s)
        × IsLeased s.0
        × (s.0.static_ip ≡ statics)
        × (s.1.user_del_request ≡ g.user_del_request)
        × IsPosted inet_addr statics g s.1
  unfolding create_all
  create_all-IsPosted supply [] db g l same fit clients =
      ((db, g), refl, l, same, refl, IsPosted-refl inet_addr statics g)
  create_all-IsPosted supply (request ∷ rest) db g l same fit clients =
      let (s, e, l', kept, outcome) =
        create_one-Outcome inet_addr config (supply 0) request db g l (
          client-IsServable inet_addr config (supply 0) request configured (fit 0)
            (clients request (head refl))) in
      let (t, e', l'', same', removals, posted) =
        create_all-IsPosted (λ i. supply (suc i)) rest s.0 s.1 l' (kept ∙ same) (λ i. fit (suc i))
          (λ r m. clients r (tail m)) in
      (
        t,
        rw (create_all, e) e',
        l'',
        same',
        removals ∙ Outcome-removals (supply 0) request db g s outcome,
        IsPosted-trans inet_addr statics g s.1 t.1
            (Outcome-IsPosted (supply 0) request db g s l same outcome) posted,
      )
