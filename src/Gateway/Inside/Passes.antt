-- ===== src/Gateway/Inside/Passes.antt =====
-- Gateway::serve, frames from inside: what leaves for the outside.
use gateway_socket.Base.{
  ℕ, ◌+◌, ◌≤◌, ◌≡◌, ◌≢◌, inl, inr, Option, none, some, true, Bool-cases, Option-cases, arith, ◌==◌,
  ltb,
}
use gateway_socket.Packet.{Packet}
use gateway_socket.Ethernet
use gateway_socket.Ethernet.{ethertype_ip, ethertype_arp}
use gateway_socket.Arp
use gateway_socket.Ip
use gateway_socket.Udp
use gateway_socket.Requests.{UserInfo}
use gateway_socket.Gateway.Tables.{Tables}
use gateway_socket.Gateway.Inside.{
  Verdict, forward, admit_inside, rewrite_arp, is_plain_arp, inside_arp, inside_dhcp, own_request,
  inside_udp, inside_ip, inside_verdict,
}
use gateway_socket.Gateway.Inside.Admit.{Admitted, admit_inside-Admitted}

-- A DHCP request of a client: a datagram from port 68 to port 67.
abbrev pub IsDhcpRequest : Packet → Type 0
IsDhcpRequest p =
    (Ip.get_protocol 14 p ≡ 17)
    × (Udp.get_source (Ip.get_next_offset 14 p) p ≡ some 68)
    × (Udp.get_destination (Ip.get_next_offset 14 p) p ≡ some 67)

-- The frame `p` of `n` bytes leaves as `q`.
pub data Passes (t : Tables) (n : ℕ) (p q : Packet) (who : Option (ℕ × UserInfo)) : Type 0 where
  arp_message :
      (dest src : ℕ)
      → Ethernet.get_protocol 0 p ≡ ethertype_arp
      → is_plain_arp (Arp.get_header 14 p) ≡ true
      → Arp.get_destination_ip 14 p ≡ some dest
      → Arp.get_source_ip 14 p ≡ some src
      → Admitted t dest src rewrite_arp p q who
      → Passes t n p q who
  ip_packet :
      (dest src : ℕ)
      → Ethernet.get_protocol 0 p ≡ ethertype_ip
      → 14 + Ip.get_next_offset 14 p ≤ n
      → Ip.get_destination 14 p ≡ some dest
      → Ip.get_source 14 p ≡ some src
      → ¬ IsDhcpRequest p
      → Admitted t dest src (Ethernet.set_source 0) p q who
      → Passes t n p q who
  other_frame :
      Ethernet.get_protocol 0 p ≢ ethertype_arp
      → Ethernet.get_protocol 0 p ≢ ethertype_ip
      → q ≡ p
      → who ≡ none
      → Passes t n p q who

module _ (t : Tables) (n : ℕ) (p q : Packet) (who : Option (ℕ × UserInfo)) where
  arp-Passes :
      Ethernet.get_protocol 0 p ≡ ethertype_arp
      → inside_arp t p ≡ forward q who
      → Passes t n p q who
  unfolding inside_arp Ethernet.get_next_offset
  arp-Passes proto h = elim (Bool-cases (is_plain_arp (Arp.get_header 14 p))) [
    | inr plain ↦ ground arith
    | inl plain ↦ elim (Option-cases (Arp.get_destination_ip 14 p)) [
      | inl d ↦ ground arith
      | inr (dest, d) ↦ elim (Option-cases (Arp.get_source_ip 14 p)) [
        | inl s ↦ ground arith
        | inr (src, s) ↦
            arp_message dest src proto plain d s
              (admit_inside-Admitted t dest src rewrite_arp p q who (ground arith))
      ]
    ]
  ]

  dhcp_stays : (dhcp_at : ℕ) → inside_dhcp dhcp_at p ≢ forward q who
  unfolding inside_dhcp own_request
  dhcp_stays dhcp_at h = ground arith

  udp_forward :
      (rest : Verdict)
      → inside_udp (Ip.get_next_offset 14 p) p rest ≡ forward q who
      → (rest ≡ forward q who)
        × ¬ (
            (Udp.get_source (Ip.get_next_offset 14 p) p ≡ some 68)
            × (Udp.get_destination (Ip.get_next_offset 14 p) p ≡ some 67))
  unfolding inside_udp
  udp_forward rest h = (
    ground (arith, dhcp_stays (Udp.get_next_offset (Ip.get_next_offset 14 p))),
    λ ports.
        ground
          (arith, ports.0, ports.1, dhcp_stays (Udp.get_next_offset (Ip.get_next_offset 14 p))),
  )

  ip-Passes :
      Ethernet.get_protocol 0 p ≡ ethertype_ip
      → inside_ip t n p ≡ forward q who
      → Passes t n p q who
  unfolding inside_ip Ethernet.get_next_offset
  ip-Passes proto h = elim (Bool-cases (ltb n (14 + Ip.get_next_offset 14 p))) [
    | inl short ↦ ground arith
    | inr long ↦ elim (Option-cases (Ip.get_destination 14 p)) [
      | inl d ↦ ground arith
      | inr (dest, d) ↦ elim (Option-cases (Ip.get_source 14 p)) [
        | inl s ↦ ground arith
        | inr (src, s) ↦ elim (Bool-cases (Ip.get_protocol 14 p == 17)) [
          | inr tcp ↦
              ip_packet dest src proto (ground arith) d s (λ dhcp. ground (arith, dhcp.0))
                (admit_inside-Admitted t dest src (Ethernet.set_source 0) p q who (ground arith))
          | inl udp ↦
              let passed =
                udp_forward (admit_inside t dest src (Ethernet.set_source 0) p) (ground arith) in
              ip_packet dest src proto (ground arith) d s (λ dhcp. passed.1 (dhcp.1, dhcp.2))
                (admit_inside-Admitted t dest src (Ethernet.set_source 0) p q who passed.0)
        ]
      ]
    ]
  ]

-- Whatever leaves for the outside: an ARP message or an IP packet only if it goes to no static address
-- and does not come, unless from its registered user's own hardware address, from one; and never a
-- DHCP request. A user's frame bears the hardware address of the static address, and is otherwise
-- unchanged, as is every other frame.
pub inside_verdict-Passes :
    (t : Tables) (n : ℕ) (p q : Packet) (who : Option (ℕ × UserInfo))
    → inside_verdict t n p ≡ forward q who
    → Passes t n p q who
unfolding inside_verdict
inside_verdict-Passes t n p q who h =
    elim (Bool-cases (Ethernet.get_protocol 0 p == ethertype_arp)) [
      | inl a ↦ arp-Passes t n p q who (ground arith) (ground arith)
      | inr a ↦ elim (Bool-cases (Ethernet.get_protocol 0 p == ethertype_ip)) [
        | inl i ↦ ip-Passes t n p q who (ground arith) (ground arith)
        | inr i ↦ other_frame (λ e. ground arith) (λ e. ground arith) (ground arith) (ground arith)
      ]
    ]
