-- ===== src/Gateway/Outside/Passes.antt =====
-- Gateway::serve, frames from outside: what enters.
use gateway_socket.Base.{
  ℕ, ◌+◌, ◌≤◌, ◌≡◌, ◌≢◌, inl, inr, none, some, true, false, Bool-cases, Option-cases, find, arith,
  ◌==◌, ltb,
}
use gateway_socket.Packet.{Packet}
use gateway_socket.Ethernet
use gateway_socket.Ethernet.{ethertype_ip, ethertype_arp}
use gateway_socket.Arp
use gateway_socket.Ip
use gateway_socket.Udp
use gateway_socket.Gateway.Tables.{Tables}
use gateway_socket.Gateway.Icmp.{◌>>=◌}
use gateway_socket.Gateway.Inside.{is_plain_arp}
use gateway_socket.Gateway.Outside.{
  Passage, outside_arp, outside_dhcp, admit_ip, not_dhcp_reply, outside_ip, outside_verdict,
}
use gateway_socket.Gateway.Outside.Admit.{
  Delivers, rewrite_destination_arp, admit_arp-Delivers, admit_ip-Delivers,
}

-- A datagram from one DHCP port to the other.
abbrev pub IsBetween : ℕ → ℕ → Packet → Type 0
IsBetween from to p =
    (Ip.get_protocol 14 p ≡ 17)
    × (Udp.get_source (Ip.get_next_offset 14 p) p ≡ some from)
    × (Udp.get_destination (Ip.get_next_offset 14 p) p ≡ some to)

-- The frame `p` of `n` bytes enters as `q`.
pub data Enters (t : Tables) (n : ℕ) (p : Packet) (t' : Tables) (q : Packet) : Type 0 where
  arp_message :
      (dest src : ℕ)
      → Ethernet.get_protocol 0 p ≡ ethertype_arp
      → is_plain_arp (Arp.get_header 14 p) ≡ true
      → Arp.get_destination_ip 14 p ≡ some dest
      → Arp.get_source_ip 14 p ≡ some src
      → find src t.static_ip_map ≡ none
      → Delivers true t dest src rewrite_destination_arp p t' q
      → Enters t n p t' q
  ip_packet :
      (dest src : ℕ)
      → Ethernet.get_protocol 0 p ≡ ethertype_ip
      → 14 + Ip.get_next_offset 14 p ≤ n
      → Ip.get_destination 14 p ≡ some dest
      → Ip.get_source 14 p ≡ some src
      → ¬ IsBetween 67 68 p
      → ¬ ((src ≡ 0) × (dest ≡ 0xFFFF_FFFF) × IsBetween 68 67 q)
      → find src t.static_ip_map ≡ none
      → Delivers false t dest src (Ethernet.set_destination 0) p t' q
      → Enters t n p t' q
  other_frame :
      Ethernet.get_protocol 0 p ≢ ethertype_arp
      → Ethernet.get_protocol 0 p ≢ ethertype_ip
      → q ≡ p
      → t' ≡ t
      → Enters t n p t' q

outside_dhcp-passes :
    (dest src : ℕ) (t1 t' : Tables) (q1 q : Packet)
    → outside_dhcp 14 dest src t1 q1 ≡ some (t', some q)
    → (t' ≡ t1) × (q ≡ q1) × ¬ ((src ≡ 0) × (dest ≡ 0xFFFF_FFFF) × IsBetween 68 67 q1)
unfolding outside_dhcp
outside_dhcp-passes dest src t1 t' q1 q h =
    (ground arith, ground arith, λ dhcp. ground (arith, dhcp.0, dhcp.1, dhcp.2))

not_dhcp_reply-passes :
    (p : Packet) (rest : Passage) (t t' : Tables) (q : Packet)
    → not_dhcp_reply (Ip.get_next_offset 14 p) p rest t ≡ some (t', some q)
    → (rest ≡ some (t', some q)) × ¬ IsBetween 67 68 p
unfolding not_dhcp_reply
not_dhcp_reply-passes p rest t t' q h = (ground arith, λ dhcp. ground (arith, dhcp.1, dhcp.2))

module _ (t : Tables) (n : ℕ) (p : Packet) (t' : Tables) (q : Packet) where
  arp-Enters :
      Ethernet.get_protocol 0 p ≡ ethertype_arp
      → outside_arp t p ≡ some (t', some q)
      → Enters t n p t' q
  unfolding outside_arp Ethernet.get_next_offset
  arp-Enters proto h = elim (Bool-cases (is_plain_arp (Arp.get_header 14 p))) [
    | inr plain ↦ ground arith
    | inl plain ↦ elim (Option-cases (Arp.get_destination_ip 14 p)) [
      | inl d ↦ ground arith
      | inr (dest, d) ↦ elim (Option-cases (Arp.get_source_ip 14 p)) [
        | inl s ↦ ground arith
        | inr (src, s) ↦
            let passed = admit_arp-Delivers t dest src p t' q (ground arith) in
            arp_message dest src proto plain d s passed.0 passed.1
      ]
    ]
  ]

  tail : Passage
  tail = do
    dest ← Ip.get_destination 14 p
    src ← Ip.get_source 14 p
    admit_ip t dest src (λ t1 q1. outside_dhcp 14 dest src t1 q1) p

  after_udp :
      Ethernet.get_protocol 0 p ≡ ethertype_ip
      → 14 + Ip.get_next_offset 14 p ≤ n
      → ¬ IsBetween 67 68 p
      → tail ≡ some (t', some q)
      → Enters t n p t' q
  unfolding tail
  after_udp proto room reply h = elim (Option-cases (Ip.get_destination 14 p)) [
    | inl d ↦ ground arith
    | inr (dest, d) ↦ elim (Option-cases (Ip.get_source 14 p)) [
      | inl s ↦ ground arith
      | inr (src, s) ↦
          let (foreign, (t1, q1, passed, last)) =
            admit_ip-Delivers t dest src p t' q (λ t2 q2. outside_dhcp 14 dest src t2 q2)
              (ground arith) in
          let (same, kept, other) = outside_dhcp-passes dest src t1 t' q1 q last in
          ip_packet dest src proto room d s reply (rw kept other) foreign (rw (same, kept) passed)
    ]
  ]

  ip-Enters :
      Ethernet.get_protocol 0 p ≡ ethertype_ip
      → outside_ip t n p ≡ some (t', some q)
      → Enters t n p t' q
  unfolding outside_ip tail Ethernet.get_next_offset
  ip-Enters proto h = elim (Bool-cases (ltb n (14 + Ip.get_next_offset 14 p))) [
    | inl short ↦ ground arith
    | inr long ↦ elim (Bool-cases (Ip.get_protocol 14 p == 17)) [
      | inr other ↦ after_udp proto (ground arith) (λ dhcp. ground (arith, dhcp.0)) (ground arith)
      | inl udp ↦
          let passed = not_dhcp_reply-passes p tail t t' q (ground arith) in
          after_udp proto (ground arith) passed.1 passed.0
    ]
  ]

-- Whatever enters: an ARP message or an IP packet only if it claims no static address to come from,
-- and, to a user, only if it was sent to the hardware address of the user's static address (ARP: or to
-- all); then it bears the user's hardware address, and is otherwise unchanged, as is every other
-- frame. No DHCP reply enters, and no DHCP request from the unset address to all. The tables stay as
-- they are, but for a user whose address is not static any more.
pub outside_verdict-Enters :
    (t : Tables) (n : ℕ) (p : Packet) (t' : Tables) (q : Packet)
    → outside_verdict t n p ≡ some (t', some q)
    → Enters t n p t' q
unfolding outside_verdict
outside_verdict-Enters t n p t' q h =
    elim (Bool-cases (Ethernet.get_protocol 0 p == ethertype_arp)) [
      | inl a ↦ arp-Enters t n p t' q (ground arith) (ground arith)
      | inr a ↦ elim (Bool-cases (Ethernet.get_protocol 0 p == ethertype_ip)) [
        | inl i ↦ ip-Enters t n p t' q (ground arith) (ground arith)
        | inr i ↦ other_frame (λ e. ground arith) (λ e. ground arith) (ground arith) (ground arith)
      ]
    ]
