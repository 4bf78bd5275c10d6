-- ===== src/Gateway/Inside/Exactly.antt =====
-- Gateway::serve, frames from inside: exactly which frames leave for the outside, and exactly which
-- become DHCP requests.
use gateway_socket.Base.{
  ℕ, ◌+◌, ◌≤◌, ◌≡◌, ◌↔◌, refl, sym, ap, subst, ◌∙◌, if◌then◌else◌, inl, inr, Option, some, List,
  Bool, pos, true, false, Bool-cases, ◌==◌, ltb, ◌&&◌, bytes_eq_refl, arith,
}
use gateway_socket.Packet.{Packet}
use gateway_socket.Packet.Laws.{Holds}
use gateway_socket.Ethernet
use gateway_socket.Ethernet.{ethertype_ip, ethertype_arp}
use gateway_socket.Arp
use gateway_socket.Ip
use gateway_socket.Udp
use gateway_socket.Dhcp
use gateway_socket.Requests.{UserInfo, DhcpRequest}
use gateway_socket.Gateway.Tables.{Tables}
use gateway_socket.Gateway.Buffer.{get_next_offset-le, read-Known}
use gateway_socket.Gateway.Outside.Total.{ports-Known}
use gateway_socket.Gateway.Inside.{
  forward, offer, forward_user, admit_inside, rewrite_arp, is_plain_arp, inside_arp, inside_dhcp,
  own_request, inside_udp, inside_ip, inside_verdict,
}
use gateway_socket.Gateway.Inside.Admit.{Admitted}
use gateway_socket.Gateway.Inside.Offers.{IsOffered, inside_verdict-IsOffered}
use gateway_socket.Gateway.Inside.Passes.{
  IsDhcpRequest, Passes, arp_message, ip_packet, other_frame, inside_verdict-Passes,
}

Admitted-forward :
    (t : Tables) (dest src : ℕ) (rewrite : List ℕ → Packet → Packet) (p q : Packet)
    (who : Option (ℕ × UserInfo))
    → Admitted t dest src rewrite p q who
    → admit_inside t dest src rewrite p ≡ forward q who
unfolding admit_inside forward_user
Admitted-forward t dest src rewrite p q who a = elim a.origin [
  | inl (s, u, same, nobody) ↦ rw (admit_inside, a.leaves, u, s, same, nobody) refl
  | inr (user, mac, u, s, own, changed, somebody) ↦
      rw
        (
          admit_inside,
          forward_user,
          a.leaves,
          u,
          own,
          bytes_eq_refl user.user_mac,
          s,
          changed,
          somebody,
        )
        refl
]

module _ (t : Tables) (n : ℕ) (p q : Packet) (who : Option (ℕ × UserInfo)) (h : Holds n p) where
  arp-forward :
      (dest src : ℕ)
      → is_plain_arp (Arp.get_header 14 p) ≡ true
      → Arp.get_destination_ip 14 p ≡ some dest
      → Arp.get_source_ip 14 p ≡ some src
      → Admitted t dest src rewrite_arp p q who
      → inside_arp t p ≡ forward q who
  unfolding inside_arp Ethernet.get_next_offset
  arp-forward dest src plain d s a =
      rw (inside_arp, plain, d, s) (Admitted-forward t dest src rewrite_arp p q who a)

  ip-forward :
      (dest src : ℕ)
      → 14 + Ip.get_next_offset 14 p ≤ n
      → Ip.get_destination 14 p ≡ some dest
      → Ip.get_source 14 p ≡ some src
      → ¬ IsDhcpRequest p
      → Admitted t dest src (Ethernet.set_source 0) p q who
      → inside_ip t n p ≡ forward q who
  unfolding inside_ip inside_udp Ethernet.get_next_offset
  ip-forward dest src room d s other a =
      let admitted = Admitted-forward t dest src (Ethernet.set_source 0) p q who a in
      let long : ltb n (14 + Ip.get_next_offset 14 p) ≡ false = ground arith in
      let ((from, known_from), (to, known_to)) =
        ports-Known h (Ip.get_next_offset 14 p) (omega arith) in
      elim (Bool-cases (Ip.get_protocol 14 p == 17)) [
        | inr tcp ↦ rw (inside_ip, long, d, s, tcp) admitted
        | inl udp ↦ elim (Bool-cases (from == 68 && to == 67)) [
          | inr apart ↦
              rw (inside_ip, long, d, s, udp, inside_udp, known_from, known_to, apart) admitted
          | inl asks ↦ absurd (
              other (
                ground arith,
                known_from ∙ ap some (ground arith),
                known_to ∙ ap some (ground arith),
              ))
        ]
      ]

  Passes-forward : Passes t n p q who → inside_verdict t n p ≡ forward q who
  unfolding inside_verdict
  Passes-forward (arp_message dest src e plain d s a) =
      rw (inside_verdict, e) (arp-forward dest src plain d s a)
  Passes-forward (ip_packet dest src e room d s other a) =
      rw (inside_verdict, e) (ip-forward dest src room d s other a)
  Passes-forward (other_frame x y same nobody) =
      let not_arp : (Ethernet.get_protocol 0 p == ethertype_arp) ≡ false = ground (arith, x) in
      let not_ip : (Ethernet.get_protocol 0 p == ethertype_ip) ≡ false = ground (arith, y) in
      rw (inside_verdict, not_arp, not_ip, same, nobody) refl

  -- A frame that was read into a buffer leaves for the outside, as the packet `q`, exactly if: it is a
  -- well-formed ARP message, or an IP packet that reaches at least 14 bytes past its header and is no
  -- DHCP request, that goes to no static address and comes either from an address that is neither
  -- static nor a user's, and then it is unchanged, or from the static address of a user and from this
  -- user's hardware address, and then it bears the hardware address of the static address and is
  -- otherwise unchanged; or it is of another protocol, and then it is unchanged.
  pub inside_verdict-Passes_iff : (inside_verdict t n p ≡ forward q who) ↔ Passes t n p q who
  inside_verdict-Passes_iff = (inside_verdict-Passes t n p q who, Passes-forward)

module _ (t : Tables) (n : ℕ) (p : Packet) (r : DhcpRequest) (h : Holds n p) where
  offered-room : inside_ip t n p ≡ offer r → 14 + Ip.get_next_offset 14 p ≤ n
  unfolding inside_ip Ethernet.get_next_offset
  offered-room e = elim (Bool-cases (ltb n (14 + Ip.get_next_offset 14 p))) [
    | inl short ↦ ground arith
    | inr long ↦ ground arith
  ]

  own_request-offered :
      IsOffered p r → own_request (Ip.get_next_offset 14 p + 8) p r.is_discover ≡ offer r
  unfolding own_request
  own_request-offered o =
      rw (own_request, o.client, o.transaction, o.own, bytes_eq_refl r.mac, sym o.mtu) refl

  known_type :
      (is_discover : Bool)
      → r.is_discover ≡ is_discover
      → IsOffered p r
      → Dhcp.get_message_type (Ip.get_next_offset 14 p + 8) p ≡ pos (if is_discover then 1 else 3)
  known_type is_discover e o =
      subst (λ b. Dhcp.get_message_type (Ip.get_next_offset 14 p + 8) p ≡ pos (if b then 1 else 3))
        e o.kind

  inside_dhcp-offered :
      (is_discover : Bool)
      → r.is_discover ≡ is_discover
      → IsOffered p r
      → inside_dhcp (Ip.get_next_offset 14 p + 8) p ≡ offer r
  unfolding inside_dhcp
  inside_dhcp-offered true e o =
      rw (inside_dhcp, o.opcode, known_type true e o)
        (subst (λ b. own_request (Ip.get_next_offset 14 p + 8) p b ≡ offer r) e
          (own_request-offered o))
  inside_dhcp-offered false e o =
      rw (inside_dhcp, o.opcode, known_type false e o)
        (subst (λ b. own_request (Ip.get_next_offset 14 p + 8) p b ≡ offer r) e
          (own_request-offered o))

  ip-offered : 14 + Ip.get_next_offset 14 p ≤ n → IsOffered p r → inside_ip t n p ≡ offer r
  unfolding inside_ip inside_udp Ethernet.get_next_offset Udp.get_next_offset Ip.get_destination
      Ip.get_source
  ip-offered room o =
      let far : 34 ≤ Ip.get_next_offset 14 p = get_next_offset-le 14 p in
      let long : ltb n (14 + Ip.get_next_offset 14 p) ≡ false = ground arith in
      let (d, known_d) = read-Known h 30 34 (omega arith) (omega arith) in
      let (s, known_s) = read-Known h 26 30 (omega arith) (omega arith) in
      rw (inside_ip, long, known_d, known_s, o.datagram.0, inside_udp, o.datagram.1, o.datagram.2)
        (inside_dhcp-offered r.is_discover refl o)

  -- A frame that was read into a buffer becomes the DHCP request `r` exactly if it is a client's
  -- request of a known type, in an IP packet that is not too short, for the hardware address that it
  -- came from, which is that of `r`, as are the transaction and the type.
  pub inside_verdict-IsOffered_iff : (inside_verdict t n p ≡ offer r) ↔ (
      (Ethernet.get_protocol 0 p ≡ ethertype_ip)
      × (14 + Ip.get_next_offset 14 p ≤ n)
      × IsOffered p r)
  unfolding inside_verdict
  inside_verdict-IsOffered_iff = (
    λ e.
        let (ip, o) = inside_verdict-IsOffered t n p r e in
        (ip, offered-room (rw (inside_verdict, ip) at e), o),
    λ (ip, room, o). rw (inside_verdict, ip) (ip-offered room o),
  )
