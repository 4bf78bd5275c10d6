-- ===== src/Gateway/Outside/Total.antt =====
-- Gateway::serve, frames from outside: no undefined behaviour.
use gateway_socket.Base.{
  ℕ, ◌+◌, ◌≤◌, ◌≡◌, ◌≢◌, refl, sym, ap, ◌∙◌, inl, inr, none, some, List, Bool-cases, Option-cases,
  find, arith, ltb, ◌==◌, ◌&&◌, pos, get_or, get_or-drop, drop-splice, take, length-take_le, splice,
  ntohs, load16, load32,
}
use mathlib.Core.Option
use gateway_socket.Packet.{Packet, write_byte_array}
use gateway_socket.Packet.Laws.{Holds, write_byte_array-Holds, outside_inside, read_byte_inside}
use gateway_socket.Ethernet
use gateway_socket.Ethernet.{ethertype_ip, ethertype_arp}
use gateway_socket.Arp
use gateway_socket.Ip
use gateway_socket.Udp
use gateway_socket.Gateway.Tables.{Tables}
use gateway_socket.Gateway.Buffer.{Known, read-Known, get_next_offset-le}
use gateway_socket.Gateway.Outside.{
  forget, deliver_arp, admit_arp, outside_arp, outside_dhcp, deliver_ip, admit_ip, not_dhcp_reply,
  outside_ip, outside_verdict,
}
use gateway_socket.Gateway.Outside.Passes.{IsBetween}

-- A frame is never read where it has no bytes.
module _ (t : Tables) {n : ℕ} {p : Packet} (h : Holds n p) where
  destination-Known : 6 ≤ n → Known (Ethernet.get_destination 0 p)
  unfolding Ethernet.get_destination
  destination-Known le = read-Known h 0 6 (omega arith) le

  admit_arp-ne-none : (dest src : ℕ) → 6 ≤ n → admit_arp t dest src p ≢ none
  unfolding admit_arp deliver_arp
  admit_arp-ne-none dest src le f = let (mac, m) = destination-Known le in ground arith

  outside_arp-ne-none : 42 ≤ n → outside_arp t p ≢ none
  unfolding outside_arp Ethernet.get_next_offset Arp.get_destination_ip Arp.get_source_ip
  outside_arp-ne-none le f =
      let (d, known_d) = read-Known h 38 42 (omega arith) le in
      let (s, known_s) = read-Known h 28 32 (omega arith) (omega arith) in
      ground (arith, admit_arp-ne-none (load32 d) (load32 s))

pub ports-Known :
    {n : ℕ} {p : Packet} (h : Holds n p) (at' : ℕ)
    → at' + 4 ≤ n
    → Known (Udp.get_source at' p) × Known (Udp.get_destination at' p)
unfolding Udp.get_source Udp.get_destination
ports-Known h at' le =
    let (s, known_s) = read-Known h (at' + 0) (at' + 2) (omega arith) (omega arith) in
    let (d, known_d) = read-Known h (at' + 2) (at' + 4) (omega arith) le in
    (
      (_, ap (Option.map (λ bs. ntohs (load16 bs))) known_s),
      (_, ap (Option.map (λ bs. ntohs (load16 bs))) known_d),
    )

outside_dhcp-ne-none :
    (t : Tables) {n : ℕ} {p : Packet} (h : Holds n p) (dest src : ℕ)
    → 14 + Ip.get_next_offset 14 p ≤ n
    → outside_dhcp 14 dest src t p ≢ none
unfolding outside_dhcp
outside_dhcp-ne-none t {p = p} h dest src room f =
    let ((s, known_s), (d, known_d)) = ports-Known h (Ip.get_next_offset 14 p) (omega arith) in
    ground arith

-- A new destination address does not move what is behind the header.
module _ {n : ℕ} {p : Packet} (mac : List ℕ) (h : Holds n p) (room : 15 ≤ n) where
  pub set_destination-Holds : Holds n (Ethernet.set_destination 0 mac p)
  unfolding Ethernet.set_destination
  set_destination-Holds = write_byte_array-Holds (pos 0) (pos 6) mac refl h

  header_byte : get_or (splice 0 (take 6 mac) p.in_memory) 14 0 ≡ get_or p.in_memory 14 0
  header_byte =
      get_or-drop 14 (splice 0 (take 6 mac) p.in_memory)
      ∙ ap (λ m. get_or m 0 0)
          (drop-splice 0 14 (take 6 mac) p.in_memory (omega (arith, length-take_le 6 mac)))
      ∙ sym (get_or-drop 14 p.in_memory)

  written_header_byte :
      get_or (write_byte_array (pos 0) (pos 6) mac p).in_memory 14 0 ≡ get_or p.in_memory 14 0
  unfolding write_byte_array
  written_header_byte = rw (outside_inside h 0 6 (omega arith)) header_byte

  pub set_destination-next_offset :
      Ip.get_next_offset 14 (Ethernet.set_destination 0 mac p) ≡ Ip.get_next_offset 14 p
  unfolding Ethernet.set_destination Ip.get_next_offset
  set_destination-next_offset =
      rw
        (
          read_byte_inside set_destination-Holds 14 room,
          read_byte_inside h 14 room,
          written_header_byte,
        )
        refl

module _ (t : Tables) {n : ℕ} {p : Packet} (h : Holds n p) where
  admit_ip-ne-none :
      (dest src : ℕ)
      → 14 + Ip.get_next_offset 14 p ≤ n
      → admit_ip t dest src (λ t1 q1. outside_dhcp 14 dest src t1 q1) p ≢ none
  unfolding admit_ip deliver_ip
  admit_ip-ne-none dest src room f =
      let far : 48 ≤ n = omega (arith, get_next_offset-le 14 p) in
      let (mac, m) = destination-Known t h (omega arith) in
      elim (Option-cases (find dest t.user_map)) [
        | inl u ↦ ground (arith, outside_dhcp-ne-none t h dest src)
        | inr (user, u) ↦
            let q = Ethernet.set_destination 0 user.user_mac p in
            let same = set_destination-next_offset user.user_mac h (omega arith) in
            ground (
              arith,
              outside_dhcp-ne-none t (set_destination-Holds user.user_mac h (omega arith)) dest src
                  (rw same room),
              outside_dhcp-ne-none (forget dest t) h dest src room,
            )
      ]

  outside_ip-ne-none : ¬ IsBetween 67 68 p → outside_ip t n p ≢ none
  unfolding outside_ip not_dhcp_reply Ethernet.get_next_offset Ip.get_destination Ip.get_source
  outside_ip-ne-none quiet f = elim (Bool-cases (ltb n (14 + Ip.get_next_offset 14 p))) [
    | inl short ↦ ground arith
    | inr long ↦
        let room : 48 ≤ n = ground (arith, get_next_offset-le 14 p) in
        let (d, known_d) = read-Known h 30 34 (omega arith) (omega arith) in
        let (s, known_s) = read-Known h 26 30 (omega arith) (omega arith) in
        let ((sp, known_sp), (dp, known_dp)) =
          ports-Known h (Ip.get_next_offset 14 p) (ground arith) in
        elim (Bool-cases (Ip.get_protocol 14 p == 17 && (sp == 67 && dp == 68))) [
          | inr other ↦ ground (arith, admit_ip-ne-none (load32 d) (load32 s))
          | inl reply ↦ absurd (
              quiet (
                ground arith,
                known_sp ∙ ap some (ground arith),
                known_dp ∙ ap some (ground arith),
              ))
        ]
  ]

  pub outside_verdict-ne-none :
      (Ethernet.get_protocol 0 p ≡ ethertype_arp → 42 ≤ n)
      → (Ethernet.get_protocol 0 p ≡ ethertype_ip → ¬ IsBetween 67 68 p)
      → outside_verdict t n p ≢ none
  unfolding outside_verdict
  outside_verdict-ne-none long quiet f =
      elim (Bool-cases (Ethernet.get_protocol 0 p == ethertype_ip)) [
        | inl ip ↦
            ground (arith, long, outside_arp-ne-none t h, outside_ip-ne-none (quiet (ground arith)))
        | inr other ↦ ground (arith, long, outside_arp-ne-none t h)
      ]
