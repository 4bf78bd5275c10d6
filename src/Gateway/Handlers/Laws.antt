-- ===== src/Gateway/Handlers/Laws.antt =====
-- The handlers of class Gateway: the static addresses, and the packets to send.
use gateway_socket.Base.{
  ℕ, ◌≡◌, refl, sym, ap, ◌∙◌, inl, inr, Option, none, some, List, [], ◌∷◌, ◌++◌, Bool-cases,
  if◌then◌else◌, ◌==◌, ltb, length, find, find-erase, find-insert, find-insert-erase, arith,
  append_assoc, append-nil,
}
use gateway_socket.Packet.{Packet}
use gateway_socket.Mailbox.{empty}
use gateway_socket.Mailbox.Laws.{IsCounted, serve_all, handle-serve_all}
use gateway_socket.Gateway.Tables.{Tables, in_use}
use gateway_socket.Gateway.Handlers.{
  Gateway, put_static_ip, remove_static_ip, write_inside, add_static_ip, del_static_ip, send_packet,
  keep_tables,
}

-- The last of the requests for a key, if there is one, replaces what the map had.
abbrev pub latest {ℓ} : {V : Type ℓ} → ℕ → List (ℕ × V) → Option V → Option V
latest ip [] old = old
latest ip ((key, v) ∷ rest) old = latest ip rest (if key == ip then some v else old)

-- A key that is named in the requests is gone.
abbrev pub without {ℓ} : {V : Type ℓ} → ℕ → List ℕ → Option V → Option V
without ip [] old = old
without ip (key ∷ rest) old = without ip rest (if key == ip then none else old)

find_nothing {ℓ} : {V : Type ℓ} (key : ℕ) (m : List (ℕ × V)) → length m ≡ 0 → find key m ≡ none
unfolding find
find_nothing key [] e = refl
find_nothing key (entry ∷ m) e = absurd (omega arith)

find-put_static_ip :
    (ip : ℕ) (r : ℕ × List ℕ) (t : Tables)
    → find ip (put_static_ip r t).static_ip_map
      ≡ (if r.0 == ip then some r.1 else find ip t.static_ip_map)
unfolding put_static_ip
find-put_static_ip ip (key, mac) t = elim (Bool-cases (ltb 0 (length t.static_ip_map))) [
  | inl many ↦ rw (put_static_ip, many) (find-insert-erase key ip mac t.static_ip_map)
  | inr few ↦
      rw (put_static_ip, few)
        (find-insert key ip mac t.static_ip_map (find_nothing key t.static_ip_map (ground arith)))
]

adds :
    (requests : List (ℕ × List ℕ)) (t : Tables) (ip : ℕ)
    → find ip (serve_all put_static_ip requests t).static_ip_map
      ≡ latest ip requests (find ip t.static_ip_map)
adds [] t ip = refl
adds (r ∷ rest) t ip =
    adds rest (put_static_ip r t) ip ∙ ap (latest ip rest) (find-put_static_ip ip r t)

removes :
    (requests : List ℕ) (t : Tables) (ip : ℕ)
    → find ip (serve_all remove_static_ip requests t).static_ip_map
      ≡ without ip requests (find ip t.static_ip_map)
unfolding remove_static_ip
removes [] t ip = refl
removes (key ∷ rest) t ip =
    removes rest (remove_static_ip key t) ip
    ∙ ap (without ip rest) (find-erase key ip t.static_ip_map)

kept_users :
    (requests : List (ℕ × List ℕ)) (t : Tables)
    → (serve_all put_static_ip requests t).user_map ≡ t.user_map
unfolding put_static_ip
kept_users [] t = refl
kept_users ((key, mac) ∷ rest) t = kept_users rest (put_static_ip (key, mac) t)

kept_users_removed :
    (requests : List ℕ) (t : Tables) → (serve_all remove_static_ip requests t).user_map ≡ t.user_map
unfolding remove_static_ip
kept_users_removed [] t = refl
kept_users_removed (key ∷ rest) t = kept_users_removed rest (remove_static_ip key t)

-- If the eventfd counts the queue, the handler of added static addresses ends, with its mailbox empty
-- and nothing but the map of static addresses changed: each address has the hardware address of its
-- last request, or, without a request, what it had.
pub add_static_ip-latest :
    (g : Gateway)
    → IsCounted g.static_ip_add_request
    → (t' : Tables) × (add_static_ip g
        ≡ some (record g { tables = t'; static_ip_add_request = empty }))
      × (t'.user_map ≡ g.tables.user_map)
      × ((ip : ℕ)
          → find ip t'.static_ip_map
            ≡ latest ip g.static_ip_add_request.queue (find ip g.tables.static_ip_map))
unfolding add_static_ip
add_static_ip-latest g c = (
  serve_all put_static_ip g.static_ip_add_request.queue g.tables,
  rw (handle-serve_all put_static_ip g.static_ip_add_request g.tables c, keep_tables) refl,
  kept_users g.static_ip_add_request.queue g.tables,
  adds g.static_ip_add_request.queue g.tables,
)

-- If the eventfd counts the queue, the handler of removed static addresses ends, with its mailbox empty
-- and nothing but the map of static addresses changed: those that were named are gone, no other is.
pub del_static_ip-without :
    (g : Gateway)
    → IsCounted g.static_ip_del_request
    → (t' : Tables) × (del_static_ip g
        ≡ some (record g { tables = t'; static_ip_del_request = empty }))
      × (t'.user_map ≡ g.tables.user_map)
      × ((ip : ℕ)
          → find ip t'.static_ip_map
            ≡ without ip g.static_ip_del_request.queue (find ip g.tables.static_ip_map))
unfolding del_static_ip
del_static_ip-without g c = (
  serve_all remove_static_ip g.static_ip_del_request.queue g.tables,
  rw (handle-serve_all remove_static_ip g.static_ip_del_request g.tables c, keep_tables) refl,
  kept_users_removed g.static_ip_del_request.queue g.tables,
  removes g.static_ip_del_request.queue g.tables,
)

-- The frames of packets, in order.
abbrev pub frames : List Packet → List (List ℕ)
frames [] = []
frames (p ∷ rest) = in_use p ∷ frames rest

writes :
    (packets : List Packet) (sent : List (List ℕ))
    → serve_all write_inside packets sent ≡ sent ++ frames packets
unfolding write_inside
writes [] sent = sym (append-nil sent)
writes (p ∷ rest) sent =
    writes rest (sent ++ in_use p ∷ []) ∙ append_assoc sent (in_use p ∷ []) (frames rest)

-- If the eventfd counts the queue, the handler of packets to send writes each to the inside device, in
-- the order of the requests, and empties its mailbox.
pub send_packet-frames :
    (g : Gateway)
    → IsCounted g.send_packet_request
    → send_packet g
      ≡ some (record g { send_packet_request = empty }, frames g.send_packet_request.queue)
unfolding send_packet
send_packet-frames g c =
    rw (handle-serve_all write_inside g.send_packet_request [] c, send_packet)
      (ap (λ sent. some (record g { send_packet_request = empty }, sent))
        (writes g.send_packet_request.queue []))
