-- ===== src/Dhcp/Message.antt =====
-- DHCP::writeResponse at the start of a packet: the message as one run of bytes.
use gateway_socket.Base.{
  ℕ, ◌+◌, ◌*◌, ◌≤◌, ◌<◌, ◌≡◌, refl, sym, ap, ◌∙◌, if◌then◌else◌, Bool, true, false, List, [], ◌∷◌,
  ◌++◌, append_assoc, store16, store32, length, length-append, length-take, length-drop, replicate,
  drop, arith, splice, slice, splice-slice, splice_adjacent, splice_adjacent_rev, AllBytes,
  AllBytes-append, AllBytes-replicate, AllBytes-take, AllBytes-drop,
}
use gateway_socket.Packet.{Packet}
use gateway_socket.Packet.Laws.{Holds, write_at}
use gateway_socket.Dhcp.{Response, write_response}
use gateway_socket.Dhcp.Reply.{
  reply_start, reply_rest, reply_type, option, length-reply_rest, write_response-reply,
}
use gateway_socket.Dhcp.Reply.Writers.{dns_bytes, length-dns_bytes}

-- The relay agent's address is what the memory held.
abbrev pub message : List ℕ → Response → List ℕ
message block r = reply_start r ++ (slice 24 4 block ++ reply_rest r)

abbrev pub gap : List ℕ → List ℕ
gap block = slice 24 4 block

length-gap : (block : List ℕ) → 28 ≤ length block → length (gap block) ≡ 4
length-gap block h = length-take 4 (drop 24 block) (length-drop 24 4 block h)

pub length-message :
    (block : List ℕ) (r : Response)
    → 28 ≤ length block
    → length r.client_ether_addr ≡ 6
    → length (message block r) ≡ 274 + 4 * length r.dns_vector
unfolding store32
length-message block r h mac =
    omega
      (arith, length-append (gap block) (reply_rest r), length-gap block h, length-reply_rest r mac)

one_run :
    (block : List ℕ) (r : Response)
    → 28 ≤ length block
    → splice 28 (reply_rest r) (splice 0 (reply_start r) block) ≡ splice 0 (message block r) block
unfolding store32
one_run block r h =
    ap (λ m. splice 28 (reply_rest r) (splice 0 (reply_start r) m)) (sym (splice-slice 24 4 block))
    ∙ ap (splice 28 (reply_rest r))
        (splice_adjacent_rev 0 24 (reply_start r) (gap block) block refl)
    ∙ splice_adjacent 0 28 (reply_start r ++ gap block) (reply_rest r) block
        (omega (arith, length-gap block h))
    ∙ ap (λ bs. splice 0 bs block) (append_assoc (reply_start r) (gap block) (reply_rest r))

pub write_response-message :
    (n : ℕ) (p : Packet) (r : Response)
    → Holds n p
    → length r.client_ether_addr ≡ 6
    → length r.dns_vector < 64
    → 274 + 4 * length r.dns_vector ≤ n
    → write_response p 0 r ≡ (write_at 0 (message p.in_memory r) p, 274 + 4 * length r.dns_vector)
write_response-message n p r h mac few room =
    write_response-reply n p 0 r h mac few (omega arith)
    ∙ ap (λ m. (record p { in_memory = m }, 274 + 4 * length r.dns_vector))
        (one_run p.in_memory r (rw h.block (omega (arith, h.fits))))

AllBytes-dns_bytes : (dns : List ℕ) → AllBytes (dns_bytes dns)
unfolding store32
AllBytes-dns_bytes [] = tt
AllBytes-dns_bytes (d ∷ rest) =
    AllBytes-append (store32 d) (dns_bytes rest) (omega arith) (AllBytes-dns_bytes rest)

AllBytes-type : (b : Bool) → AllBytes (option 53 ((if b then 2 else 5) ∷ []))
AllBytes-type true = omega arith
AllBytes-type false = omega arith

AllBytes-name_servers :
    (dns : List ℕ) → length dns < 64 → AllBytes (option 6 (dns_bytes dns) ++ 255 ∷ [])
AllBytes-name_servers dns few = (
  omega arith,
  (
    omega (arith, length-dns_bytes dns),
    AllBytes-append (dns_bytes dns) (255 ∷ []) (AllBytes-dns_bytes dns) (omega arith),
  ),
)

AllBytes-reply_rest :
    (r : Response)
    → AllBytes r.client_ether_addr
    → length r.dns_vector < 64
    → AllBytes (reply_rest r)
unfolding store32 store16
AllBytes-reply_rest r bytes few =
    let s0 : List ℕ = option 6 (dns_bytes r.dns_vector) ++ 255 ∷ [] in
    let b0 : AllBytes s0 = AllBytes-name_servers r.dns_vector few in
    let s1 : List ℕ = (option 26 (store16 r.mtu)) ++ s0 in
    let b1 : AllBytes s1 = AllBytes-append (option 26 (store16 r.mtu)) s0 (omega arith) b0 in
    let s2 : List ℕ = (option 3 (store32 r.router)) ++ s1 in
    let b2 : AllBytes s2 = AllBytes-append (option 3 (store32 r.router)) s1 (omega arith) b1 in
    let s3 : List ℕ = (option 1 (store32 r.subnet_mask)) ++ s2 in
    let b3 : AllBytes s3 = AllBytes-append (option 1 (store32 r.subnet_mask)) s2 (omega arith) b2 in
    let s4 : List ℕ = (option 51 (store32 r.lease_time)) ++ s3 in
    let b4 : AllBytes s4 = AllBytes-append (option 51 (store32 r.lease_time)) s3 (omega arith) b3 in
    let s5 : List ℕ = (option 54 (store32 r.server_identifier)) ++ s4 in
    let b5 : AllBytes s5 =
      AllBytes-append (option 54 (store32 r.server_identifier)) s4 (omega arith) b4 in
    let s6 : List ℕ = (option 53 (reply_type r ∷ [])) ++ s5 in
    let b6 : AllBytes s6 =
      AllBytes-append (option 53 (reply_type r ∷ [])) s5 (AllBytes-type r.discover) b5 in
    let s7 : List ℕ = (99 ∷ 130 ∷ 83 ∷ 99 ∷ []) ++ s6 in
    let b7 : AllBytes s7 = AllBytes-append (99 ∷ 130 ∷ 83 ∷ 99 ∷ []) s6 (omega arith) b6 in
    let s8 : List ℕ = (replicate 192 0) ++ s7 in
    let b8 : AllBytes s8 = AllBytes-append (replicate 192 0) s7 (AllBytes-replicate 192) b7 in
    let s9 : List ℕ = (replicate 10 0) ++ s8 in
    let b9 : AllBytes s9 = AllBytes-append (replicate 10 0) s8 (AllBytes-replicate 10) b8 in
    AllBytes-append r.client_ether_addr s9 bytes b9

pub AllBytes-message :
    (block : List ℕ) (r : Response)
    → AllBytes block
    → AllBytes r.client_ether_addr
    → length r.dns_vector < 64
    → AllBytes (message block r)
unfolding store32
AllBytes-message block r h bytes few =
    AllBytes-append (reply_start r) (gap block ++ reply_rest r) (omega arith) (
      AllBytes-append (gap block) (reply_rest r)
        (AllBytes-take 4 (drop 24 block) (AllBytes-drop 24 block h))
        (AllBytes-reply_rest r bytes few))
