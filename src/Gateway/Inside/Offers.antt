-- ===== src/Gateway/Inside/Offers.antt =====
-- Gateway::serve, frames from inside: what becomes a DHCP request.
use gateway_socket.Base.{
  ℕ, ◌+◌, ◌≡◌, ◌≢◌, inl, inr, some, List, Bool, true, false, Bool-cases, Option-cases, bytes_eq→eq,
  arith, if◌then◌else◌, eq_int, pos, ℤ, negsuc,
}
use gateway_socket.Packet.{Packet}
use gateway_socket.Ethernet
use gateway_socket.Ethernet.{ethertype_ip, ethertype_arp}
use gateway_socket.Arp
use gateway_socket.Ip
use gateway_socket.Udp
use gateway_socket.Dhcp
use gateway_socket.Requests.{DhcpRequest}
use gateway_socket.Gateway.Tables.{Tables}
use gateway_socket.Gateway.Inside.{
  Verdict, offer, admit_inside, rewrite_arp, inside_arp, inside_dhcp, own_request, inside_udp,
  inside_ip, inside_verdict,
}
use gateway_socket.Gateway.Inside.Passes.{IsDhcpRequest}

-- What becomes a DHCP request: a client's datagram of one of the two known types, whose client address
-- is the one that the frame came from.
pub record IsOffered (p : Packet) (r : DhcpRequest) : Type 0 where
  pub datagram : IsDhcpRequest p
  pub opcode : Dhcp.get_opcode (Ip.get_next_offset 14 p + 8) p ≡ pos 1
  pub kind :
      Dhcp.get_message_type (Ip.get_next_offset 14 p + 8) p ≡ pos (if r.is_discover then 1 else 3)
  pub client : Dhcp.get_client_mac (Ip.get_next_offset 14 p + 8) p ≡ some r.mac
  pub own : Ethernet.get_source 0 p ≡ some r.mac
  pub transaction : Dhcp.get_transaction_id (Ip.get_next_offset 14 p + 8) p ≡ some r.trans_id
  pub mtu : r.mtu ≡ 1500

admit_never_offers :
    (t : Tables) (dest src : ℕ) (rewrite : List ℕ → Packet → Packet) (p : Packet) (r : DhcpRequest)
    → admit_inside t dest src rewrite p ≢ offer r
unfolding admit_inside
admit_never_offers t dest src rewrite p r h = ground arith

eq_int→eq : (z : ℤ) (n : ℕ) → eq_int z n ≡ true → z ≡ pos n
eq_int→eq (pos a) n h = ground arith
eq_int→eq (negsuc a) n h = cc

own_request-offer :
    (dhcp_at : ℕ) (p : Packet) (b : Bool) (r : DhcpRequest)
    → own_request dhcp_at p b ≡ offer r
    → (r.is_discover ≡ b)
      × (Dhcp.get_client_mac dhcp_at p ≡ some r.mac)
      × (Ethernet.get_source 0 p ≡ some r.mac)
      × (Dhcp.get_transaction_id dhcp_at p ≡ some r.trans_id)
      × (r.mtu ≡ 1500)
unfolding own_request
own_request-offer dhcp_at p b r h = elim (Option-cases (Dhcp.get_client_mac dhcp_at p)) [
  | inl c ↦ ground arith
  | inr (mac, c) ↦ elim (Option-cases (Dhcp.get_transaction_id dhcp_at p)) [
    | inl i ↦ ground arith
    | inr (trans_id, i) ↦ elim (Option-cases (Ethernet.get_source 0 p)) [
      | inl s ↦ ground arith
      | inr (source_mac, s) ↦ ground (arith, bytes_eq→eq mac source_mac)
    ]
  ]
]

dhcp_offered :
    (dhcp_at : ℕ) (p : Packet) (r : DhcpRequest)
    → inside_dhcp dhcp_at p ≡ offer r
    → (Dhcp.get_opcode dhcp_at p ≡ pos 1)
      × (Dhcp.get_message_type dhcp_at p ≡ pos (if r.is_discover then 1 else 3))
      × (own_request dhcp_at p r.is_discover ≡ offer r)
unfolding inside_dhcp
dhcp_offered dhcp_at p r h = elim (Bool-cases (eq_int (Dhcp.get_opcode dhcp_at p) 1)) [
  | inr o ↦ ground arith
  | inl o ↦ elim (Bool-cases (eq_int (Dhcp.get_message_type dhcp_at p) 1)) [
    | inl m ↦
        let q : own_request dhcp_at p true ≡ offer r = ground arith in
        let d : r.is_discover ≡ true = (own_request-offer dhcp_at p true r q).0 in
        simp d (eq_int→eq _ 1 o, eq_int→eq _ 1 m, q)
    | inr m ↦ elim (Bool-cases (eq_int (Dhcp.get_message_type dhcp_at p) 3)) [
      | inl k ↦
          let q : own_request dhcp_at p false ≡ offer r = ground arith in
          let d : r.is_discover ≡ false = (own_request-offer dhcp_at p false r q).0 in
          simp d (eq_int→eq _ 1 o, eq_int→eq _ 3 k, q)
      | inr k ↦ ground arith
    ]
  ]
]

udp_offered :
    (udp_at : ℕ) (p : Packet) (rest : Verdict) (r : DhcpRequest)
    → rest ≢ offer r
    → inside_udp udp_at p rest ≡ offer r
    → (Udp.get_source udp_at p ≡ some 68)
      × (Udp.get_destination udp_at p ≡ some 67)
      × (inside_dhcp (Udp.get_next_offset udp_at) p ≡ offer r)
unfolding inside_udp
udp_offered udp_at p rest r apart h = ground arith

ip_offered :
    (t : Tables) (n : ℕ) (p : Packet) (r : DhcpRequest)
    → inside_ip t n p ≡ offer r
    → IsDhcpRequest p × (inside_dhcp (Udp.get_next_offset (Ip.get_next_offset 14 p)) p ≡ offer r)
unfolding inside_ip Ethernet.get_next_offset
ip_offered t n p r h = elim (Option-cases (Ip.get_destination 14 p)) [
  | inl d ↦ ground arith
  | inr (dest, d) ↦ elim (Option-cases (Ip.get_source 14 p)) [
    | inl s ↦ ground arith
    | inr (src, s) ↦ ground (
      arith,
      admit_never_offers t dest src (Ethernet.set_source 0) p r,
      udp_offered (Ip.get_next_offset 14 p) p (admit_inside t dest src (Ethernet.set_source 0) p) r,
    )
  ]
]

arp_never_offers : (t : Tables) (p : Packet) (r : DhcpRequest) → inside_arp t p ≢ offer r
unfolding inside_arp Ethernet.get_next_offset
arp_never_offers t p r h = elim (Option-cases (Arp.get_destination_ip 14 p)) [
  | inl d ↦ ground arith
  | inr (dest, d) ↦ elim (Option-cases (Arp.get_source_ip 14 p)) [
    | inl s ↦ ground arith
    | inr (src, s) ↦ ground (arith, admit_never_offers t dest src rewrite_arp p r)
  ]
]

-- A request reaches the database thread only from an IP frame that is a client's request, of a known
-- type, for the hardware address that the frame came from; the request tells that address, the
-- transaction and the type.
pub inside_verdict-IsOffered :
    (t : Tables) (n : ℕ) (p : Packet) (r : DhcpRequest)
    → inside_verdict t n p ≡ offer r
    → (Ethernet.get_protocol 0 p ≡ ethertype_ip) × IsOffered p r
unfolding inside_verdict Udp.get_next_offset
inside_verdict-IsOffered t n p r h =
    let ip_frame : (Ethernet.get_protocol 0 p ≡ ethertype_ip) × (inside_ip t n p ≡ offer r) =
      ground (arith, arp_never_offers t p r) in
    let datagram = ip_offered t n p r ip_frame.1 in
    let dhcp = dhcp_offered (Ip.get_next_offset 14 p + 8) p r datagram.1 in
    let own = own_request-offer (Ip.get_next_offset 14 p + 8) p r.is_discover r dhcp.2 in
    (
      ip_frame.0,
      record {
        datagram = datagram.0;
        opcode = dhcp.0;
        kind = dhcp.1;
        client = own.1;
        own = own.2;
        transaction = own.3;
        mtu = own.4;
      },
    )
