-- ===== src/System/Exchange.antt =====
-- A client's DHCP request through the whole program: the frame that the gateway's thread reads, the
-- request that it queues in the database, the answer, and the frame that the gateway sends.
use gateway_socket.Base.{
  ℕ, ◌≤◌, suc, ◌≡◌, refl, ap, ◌∙◌, ◌⊎◌, some, List, [], ◌∷◌, ◌++◌, pos, length, ltb, false, Option,
  arith,
}
use mathlib.Core.List.{Memᴰ}
use mathlib.Core.List.Memᴰ.{head}
use gateway_socket.Packet.{set_length}
use gateway_socket.Ethernet.Mac.{print_mac}
use gateway_socket.Requests.{DhcpRequest}
use gateway_socket.Mailbox.{empty, post}
use gateway_socket.Mailbox.Laws.{handle-serve_all, post-IsCounted}
use gateway_socket.Udp.Make.Frame.{frame}
use gateway_socket.Gateway.Tables.{received, create_dhcp}
use gateway_socket.Gateway.Icmp.{◌>>=◌ as ◌>>=?◌}
use gateway_socket.Gateway.Inside.{offer, inside_verdict, finish_inside, on_inside, Round}
use gateway_socket.Gateway.Handlers.{Gateway}
use gateway_socket.Database.{push_back}
use gateway_socket.Database.Laws.{pushes}
use gateway_socket.Database.Create as Create
use gateway_socket.Database.Create.{
  Text, Config, Supply, Result, done, exits, fault, ◌>>=◌, defined, create_one, create_all,
  request_create_dhcp,
}
use gateway_socket.Database.Create.Reply.{offer_datagram}
use gateway_socket.Database.Sql.{StaticIp, User, Db, statements}
use gateway_socket.Database.Sql.Grants.{IsRefused}
use gateway_socket.Database.Sql.Leases.{IsGranted, deadline_of}
use gateway_socket.Database.Sql.Delivered.{IsDelivered, create_one-IsDelivered}
use gateway_socket.System.{System, deliver, after_inside, take_inside, IsFrame, IsSupply}
use gateway_socket.System.Invariant.{IsClient, Invariant}
use gateway_socket.System.Frames.{on_inside-Keeps}
use gateway_socket.System.Answers.{IsConfigured}
use gateway_socket.System.Granting.{done_same, client-IsServable, create_all-IsPosted}
use gateway_socket.Database.Loop.{Database, dhcp_event, ask_dhcp, handle_database}

-- The supplies that are left behind some requests.
abbrev pub later : List DhcpRequest → (ℕ → Supply) → ℕ → Supply
later [] supply = supply
later (request ∷ rest) supply = later rest (λ i. supply (suc i))

>>=-done {ℓ κ} :
    {A : Type ℓ} {B : Type κ} (m : Result A) (f : A → Result B) (b : B)
    → (m >>= f) ≡ done b
    → (a : A) × (m ≡ done a) × (f a ≡ done b)
>>=-done (done a) f b h = (a, refl, h)
>>=-done exits f b h = cc
>>=-done fault f b h = cc

create_all-append :
    (inet_addr : Text → ℕ) (config : Config) (supply : ℕ → Supply) (xs ys : List DhcpRequest)
    (s t : Db × Gateway)
    → create_all statements inet_addr config supply xs s ≡ done t
    → create_all statements inet_addr config supply (xs ++ ys) s
      ≡ create_all statements inet_addr config (later xs supply) ys t
unfolding create_all
create_all-append inet_addr config supply [] ys s t h =
    ap (create_all statements inet_addr config supply ys) (done_same s t h)
create_all-append inet_addr config supply (x ∷ xs) ys s t h =
    let (s1, e, rest) = >>=-done (create_one statements inet_addr config (supply 0) x s) _ t h in
    rw (create_all, e) (create_all-append inet_addr config (λ i. supply (suc i)) xs ys s1 t rest)

module _ (inet_addr : Text → ℕ) (statics : List StaticIp) (config : Config)
    (configured : IsConfigured inet_addr config) (s : System) (v : Invariant inet_addr statics s)
    (now : ℕ) (block bytes : List ℕ) (r : DhcpRequest) (fit : IsFrame block bytes)
    (short : length bytes ≤ 1514)
    (offered : inside_verdict s.server.gateway.tables
        (length bytes)
        (set_length (pos (length bytes)) (received bytes s.server.in_packet))
      ≡ offer r) where
  abbrev asking : Round
  asking = record {
    tables = s.server.gateway.tables;
    buffer = set_length (pos (length bytes)) (received bytes s.server.in_packet);
    effects = create_dhcp r ∷ [];
  }

  on_inside-asking :
      on_inside now block s.server.gateway.tables s.server.in_packet bytes ≡ some asking
  unfolding on_inside finish_inside
  on_inside-asking =
      let in_size : ltb 1514 (length bytes) ≡ false = ground arith in
      let whole_header : ltb (length bytes) 14 ≡ false = ground (arith, fit.long) in
      rw (on_inside, in_size, whole_header, offered, finish_inside) refl

  asking-IsClient : IsClient r
  asking-IsClient =
      (on_inside-Keeps now block s.server.gateway.tables s.server.in_packet bytes asking
          v.sound.in_buffer fit.bytes on_inside-asking).1
        r (head refl)

  take_inside-asking : take_inside now block bytes s ≡ some (after_inside s asking)
  unfolding take_inside
  take_inside-asking = rw (take_inside, on_inside-asking, ◌>>=?◌) refl

  -- The supply of this request, behind those of the requests that waited.
  abbrev own_supply : (ℕ → Supply) → Supply
  own_supply supply = later s.database.create_dhcp_request.queue supply 0

  later-IsSupply :
      (xs : List DhcpRequest) (supply : ℕ → Supply)
      → ((i : ℕ) → IsSupply (supply i))
      → IsSupply (later xs supply 0)
  later-IsSupply [] supply fits = fits 0
  later-IsSupply (x ∷ xs) supply fits = later-IsSupply xs (λ i. supply (suc i)) (λ i. fits (suc i))

  served_all :
      (supply : ℕ → Supply)
      → ((i : ℕ) → IsSupply (supply i))
      → (before t : Db × Gateway) × (create_all statements inet_addr config supply
            s.database.create_dhcp_request.queue
            (s.database.tables, s.server.gateway)
          ≡ done before)
        × (create_all statements inet_addr config supply
              (s.database.create_dhcp_request.queue ++ r ∷ [])
              (s.database.tables, s.server.gateway)
            ≡ done t)
        × (((t ≡ before)
              × IsRefused
                  (deadline_of (own_supply supply).current_time)
                  (print_mac r.mac 32)
                  before.0)
            ⊎ ((client : User) × (ip : Text) × (client.mac ≡ print_mac r.mac 32)
                × Memᴰ client before.0.user
                × IsGranted (deadline_of (own_supply supply).current_time) before.0 client ip
                × IsDelivered r
                    (inet_addr ip)
                    (frame (offer_datagram (own_supply supply).dhcp_block config r (inet_addr ip)))
                    before.1
                    t.1))
  unfolding create_all
  served_all supply fits =
      let queue = s.database.create_dhcp_request.queue in
      let (before, e, l, same, removals, posted) =
        create_all-IsPosted inet_addr statics config configured supply queue s.database.tables
          s.server.gateway v.serving.keys v.serving.same_statics fits v.serving.clients in
      let (t, e', outcome) =
        create_one-IsDelivered inet_addr config (own_supply supply) r before.0 before.1 l
          (client-IsServable inet_addr config (own_supply supply) r configured
            (later-IsSupply queue supply fits) asking-IsClient)
          (posted.packets v.sound.packets) (posted.users v.sound.users_added) in
      (
        before,
        t,
        e,
        create_all-append inet_addr config supply queue (r ∷ []) _ before e
            ∙ rw (create_all, e') refl,
        outcome,
      )

  module _ (update_access_time : ℕ → Text → Db → Option ℕ × Db) (supply : ℕ → Supply)
      (supplies : (i : ℕ) → IsSupply (supply i)) where
    -- In a state with the invariant, let the gateway's thread read a frame of bytes that is judged the
    -- DHCP request `r`, and let the database's thread then handle its requests. Both end, and no request
    -- waits any more. Those that waited before were served first; behind them either nothing changed, and
    -- then no client with its hardware address is registered or no address is left for it, or the
    -- registered client that the frame came from was granted an address, and the gateway's handlers will
    -- send the frame that offers it and, if this was no discovery, take the client as its user.
    pub frame-IsAnswered :
        (s1 : System) × (t : Database Db × Gateway) × (before : Db × Gateway) × (take_inside now
            block bytes s
          ≡ some s1)
        × (handle_database statements update_access_time inet_addr config supply dhcp_event
              (s1.database, s1.server.gateway)
            ≡ done t)
        × (t.0.create_dhcp_request ≡ empty)
        × (create_all statements inet_addr config supply s.database.create_dhcp_request.queue
              (s.database.tables, s.server.gateway)
            ≡ done before)
        × ((((t.0.tables, t.1) ≡ before)
              × IsRefused
                  (deadline_of (own_supply supply).current_time)
                  (print_mac r.mac 32)
                  before.0)
            ⊎ ((client : User) × (ip : Text) × (client.mac ≡ print_mac r.mac 32)
                × Memᴰ client before.0.user
                × IsGranted (deadline_of (own_supply supply).current_time) before.0 client ip
                × IsDelivered r
                    (inet_addr ip)
                    (frame (offer_datagram (own_supply supply).dhcp_block config r (inet_addr ip)))
                    before.1
                    t.1))
    unfolding handle_database Create.create_dhcp deliver ask_dhcp request_create_dhcp post
    frame-IsAnswered =
        let (before, t, e, e', outcome) = served_all supply supplies in
        let waiting = post r s.database.create_dhcp_request in
        (
          after_inside s asking,
          (record s.database { tables = t.0; create_dhcp_request = empty }, t.1),
          before,
          take_inside-asking,
          rw
              (
                handle_database,
                Create.create_dhcp,
                handle-serve_all push_back waiting []
                    (post-IsCounted r s.database.create_dhcp_request v.serving.requests),
                pushes waiting.queue [],
                e',
              )
              refl,
          refl,
          e,
          outcome,
        )
