-- ===== src/Gateway/Inside/Total.antt =====
-- Gateway::serve, frames from inside: no undefined behaviour.
use gateway_socket.Base.{
  ℕ, ◌+◌, ◌≤◌, ◌≡◌, ◌≢◌, inl, inr, List, Bool, true, false, Bool-cases, Option-cases, find, arith,
  ltb, load32,
}
use gateway_socket.Packet.{Packet}
use gateway_socket.Packet.Laws.{Holds}
use gateway_socket.Ethernet
use gateway_socket.Ethernet.{ethertype_ip, ethertype_arp}
use gateway_socket.Arp
use gateway_socket.Ip
use gateway_socket.Udp
use gateway_socket.Dhcp
use gateway_socket.Gateway.Tables.{Tables}
use gateway_socket.Gateway.Buffer.{IsBacked, Known, read-Known, read_byte-lt, get_next_offset-le}
use gateway_socket.Gateway.Inside.{
  Verdict, fault, forward_user, admit_inside, rewrite_arp, inside_arp, inside_dhcp, own_request,
  inside_udp, inside_ip, inside_verdict,
}

module _ (t : Tables) (backed : IsBacked t) {n : ℕ} {p : Packet} (h : Holds n p) where
  source-Known : 12 ≤ n → Known (Ethernet.get_source 0 p)
  unfolding Ethernet.get_source
  source-Known le = read-Known h 6 12 (omega arith) le

  admit_inside-ne-fault :
      (dest src : ℕ) (rewrite : List ℕ → Packet → Packet)
      → 12 ≤ n
      → admit_inside t dest src rewrite p ≢ fault
  unfolding admit_inside forward_user
  admit_inside-ne-fault dest src rewrite le f =
      let (mac, m) = source-Known le in
      elim (Option-cases (find src t.user_map)) [
        | inl u ↦ ground arith
        | inr (user, u) ↦ let (static_mac, s) = backed src user u in ground arith
      ]

  inside_arp-ne-fault : 42 ≤ n → inside_arp t p ≢ fault
  unfolding inside_arp Ethernet.get_next_offset Arp.get_destination_ip Arp.get_source_ip
  inside_arp-ne-fault le f =
      let (d, known_d) = read-Known h 38 42 (omega arith) le in
      let (s, known_s) = read-Known h 28 32 (omega arith) (omega arith) in
      ground (arith, admit_inside-ne-fault (load32 d) (load32 s) rewrite_arp)

  own_request-ne-fault : (at' : ℕ) (b : Bool) → 12 ≤ n → at' + 34 ≤ n → own_request at' p b ≢ fault
  unfolding own_request Dhcp.get_client_mac Dhcp.get_transaction_id
  own_request-ne-fault at' b le room f =
      let (mac, m) = source-Known le in
      let (c, known_c) = read-Known h (at' + 28) (at' + 34) (omega arith) room in
      let (i, known_i) = read-Known h (at' + 4) (at' + 8) (omega arith) (omega arith) in
      ground arith

  inside_dhcp-ne-fault : (at' : ℕ) → 12 ≤ n → inside_dhcp at' p ≢ fault
  unfolding inside_dhcp Dhcp.get_message_type
  inside_dhcp-ne-fault at' le f = ground (
    arith,
    read_byte-lt h (at' + 242) 1,
    read_byte-lt h (at' + 242) 3,
    own_request-ne-fault at' true,
    own_request-ne-fault at' false,
  )

  inside_udp-ne-fault :
      (at' : ℕ) (rest : Verdict)
      → 12 ≤ n
      → at' + 4 ≤ n
      → rest ≢ fault
      → inside_udp at' p rest ≢ fault
  unfolding inside_udp Udp.get_source Udp.get_destination
  inside_udp-ne-fault at' rest le room kept f =
      let (s, known_s) = read-Known h (at' + 0) (at' + 2) (omega arith) (omega arith) in
      let (d, known_d) = read-Known h (at' + 2) (at' + 4) (omega arith) room in
      ground (arith, kept, inside_dhcp-ne-fault (Udp.get_next_offset at'))

  inside_ip-ne-fault : inside_ip t n p ≢ fault
  unfolding inside_ip Ethernet.get_next_offset Ip.get_destination Ip.get_source
  inside_ip-ne-fault f = elim (Bool-cases (ltb n (14 + Ip.get_next_offset 14 p))) [
    | inl short ↦ ground arith
    | inr long ↦
        let room : 48 ≤ n = ground (arith, get_next_offset-le 14 p) in
        let (d, known_d) = read-Known h 30 34 (omega arith) (omega arith) in
        let (s, known_s) = read-Known h 26 30 (omega arith) (omega arith) in
        let rest = admit_inside t (load32 d) (load32 s) (Ethernet.set_source 0) p in
        ground (
          arith,
          admit_inside-ne-fault (load32 d) (load32 s) (Ethernet.set_source 0) (omega arith),
          inside_udp-ne-fault (Ip.get_next_offset 14 p) rest,
        )
  ]

  pub inside_verdict-ne-fault :
      (Ethernet.get_protocol 0 p ≡ ethertype_arp → 42 ≤ n) → inside_verdict t n p ≢ fault
  unfolding inside_verdict
  inside_verdict-ne-fault long f = ground (arith, long, inside_arp-ne-fault, inside_ip-ne-fault)
