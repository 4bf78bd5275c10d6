-- ===== src/Gateway/Outside/Exactly.antt =====
-- Gateway::serve, frames from outside: exactly which of them enter.
use gateway_socket.Base.{
  ℕ, ◌+◌, ◌≤◌, ◌≡◌, refl, ap, ◌∙◌, ◌⊎◌, inl, inr, none, some, List, true, false, Bool-cases, find,
  arith, ◌==◌, ltb, ◌&&◌, ◌||◌,
}
use gateway_socket.Packet.{Packet}
use gateway_socket.Packet.Laws.{Holds}
use gateway_socket.Ethernet
use gateway_socket.Ethernet.{ethertype_ip, ethertype_arp}
use gateway_socket.Arp
use gateway_socket.Ip
use gateway_socket.Gateway.Tables.{Tables}
use gateway_socket.Gateway.Buffer.{get_next_offset-le}
use gateway_socket.Gateway.Icmp.{◌>>=◌}
use gateway_socket.Gateway.Inside.{is_plain_arp}
use gateway_socket.Gateway.Outside.{
  outside_arp, outside_dhcp, not_dhcp_reply, outside_ip, outside_verdict,
}
use gateway_socket.Gateway.Outside.Admit.{
  Delivers, to_user, to_nobody, to_other, rewrite_destination_arp,
}
use gateway_socket.Gateway.Outside.Passes.{
  IsBetween, Enters, arp_message, ip_packet, other_frame, outside_verdict-Enters,
}
use gateway_socket.Gateway.Outside.Total.{
  ports-Known, set_destination-Holds, set_destination-next_offset,
}
use gateway_socket.Gateway.Outside.Alike.{AreAlike, Delivers-admit_arp, Delivers-admit_ip}
use gateway_socket.Gateway.Outside.Behind.{IsBetween-behind}

outside_dhcp-enters :
    (dest src : ℕ) (t : Tables) {n : ℕ} {q : Packet}
    → Holds n q
    → Ip.get_next_offset 14 q + 4 ≤ n
    → ¬ IsBetween 67 68 q
    → ¬ ((src ≡ 0) × (dest ≡ 0xFFFF_FFFF) × IsBetween 68 67 q)
    → outside_dhcp 14 dest src t q ≡ some (t, some q)
unfolding outside_dhcp
outside_dhcp-enters dest src t {q = q} h room reply request =
    let ((from, known_from), (to, known_to)) = ports-Known h (Ip.get_next_offset 14 q) room in
    elim (Bool-cases (Ip.get_protocol 14 q == 17 && (src == 0 && dest == 0xFFFF_FFFF))) [
      | inr other ↦ rw (outside_dhcp, other) refl
      | inl asks ↦
          let udp : Ip.get_protocol 14 q ≡ 17 = ground arith in
          elim (Bool-cases ((from == 68 && to == 67) || (from == 67 && to == 68))) [
            | inr apart ↦ rw (outside_dhcp, asks, known_from, ◌>>=◌, known_to, apart) refl
            | inl dhcp ↦ elim (Bool-cases (from == 68)) [
              | inl client ↦ absurd (
                  request (
                    ground arith,
                    ground arith,
                    (udp, known_from ∙ ap some (ground arith), known_to ∙ ap some (ground arith)),
                  ))
              | inr server ↦ absurd (
                  reply
                    (udp, known_from ∙ ap some (ground arith), known_to ∙ ap some (ground arith)))
            ]
          ]
    ]

-- What an IP packet that enters may look like.
Delivers-shape :
    (t : Tables) (dest src : ℕ) (p : Packet) (t' : Tables) (q : Packet)
    → Delivers false t dest src (Ethernet.set_destination 0) p t' q
    → (q ≡ p) ⊎ ((mac : List ℕ) × (q ≡ Ethernet.set_destination 0 mac p))
Delivers-shape t dest src p t' q (to_user static_mac mac user s u m at' changed same) =
    inr (user.user_mac, changed)
Delivers-shape t dest src p t' q (to_nobody arp u changed same) = cc
Delivers-shape t dest src p t' q (to_other s changed f) = inl changed

module _ (t : Tables) (n : ℕ) (p : Packet) (t' : Tables) (q : Packet) (h : Holds n p) where
  abbrev Entered : Type 0
  Entered = (t'' : Tables) × (outside_verdict t n p ≡ some (t'', some q)) × AreAlike t' t''

  last-enters :
      (dest src : ℕ) (t'' : Tables)
      → 14 + Ip.get_next_offset 14 p ≤ n
      → ¬ IsBetween 67 68 p
      → ¬ ((src ≡ 0) × (dest ≡ 0xFFFF_FFFF) × IsBetween 68 67 q)
      → (q ≡ p) ⊎ ((mac : List ℕ) × (q ≡ Ethernet.set_destination 0 mac p))
      → outside_dhcp 14 dest src t'' q ≡ some (t'', some q)
  last-enters dest src t'' room reply request (inl same) =
      rw same (outside_dhcp-enters dest src t'' h (omega (arith, room)) reply (rw same at request))
  last-enters dest src t'' room reply request (inr (mac, changed)) =
      let far : 34 ≤ Ip.get_next_offset 14 p = get_next_offset-le 14 p in
      let kept : Ip.get_next_offset 14 (Ethernet.set_destination 0 mac p)
          ≡ Ip.get_next_offset 14 p =
        set_destination-next_offset mac h (omega arith) in
      rw changed (
        outside_dhcp-enters dest src t'' (set_destination-Holds mac h (omega arith))
          (omega (arith, kept, room))
          (λ b. reply (IsBetween-behind mac h (omega arith) 67 68 (omega arith) b))
          (rw changed at request))

  ip-enters :
      (dest src : ℕ)
      → 14 + Ip.get_next_offset 14 p ≤ n
      → Ip.get_destination 14 p ≡ some dest
      → Ip.get_source 14 p ≡ some src
      → ¬ IsBetween 67 68 p
      → ¬ ((src ≡ 0) × (dest ≡ 0xFFFF_FFFF) × IsBetween 68 67 q)
      → find src t.static_ip_map ≡ none
      → Delivers false t dest src (Ethernet.set_destination 0) p t' q
      → (t'' : Tables) × (outside_ip t n p ≡ some (t'', some q)) × AreAlike t' t''
  unfolding outside_ip not_dhcp_reply Ethernet.get_next_offset
  ip-enters dest src room d s reply request foreign passed =
      let (t'', e, alike) =
        Delivers-admit_ip t dest src p t' q foreign (λ t1 q1. outside_dhcp 14 dest src t1 q1)
          passed in
      let through =
        e ∙ last-enters dest src t'' room reply request (Delivers-shape t dest src p t' q passed) in
      let long : ltb n (14 + Ip.get_next_offset 14 p) ≡ false = ground arith in
      let ((from, known_from), (to, known_to)) =
        ports-Known h (Ip.get_next_offset 14 p) (omega arith) in
      (
        t'',
        elim (Bool-cases (Ip.get_protocol 14 p == 17)) [
          | inr tcp ↦ rw (outside_ip, long, tcp, d, ◌>>=◌, s) through
          | inl udp ↦ elim (Bool-cases (from == 67 && to == 68)) [
            | inr apart ↦
                rw (outside_ip, long, udp, not_dhcp_reply, known_from, ◌>>=◌, known_to, apart, d, s)
                  through
            | inl dhcp ↦ absurd (
                reply (
                  ground arith,
                  known_from ∙ ap some (ground arith),
                  known_to ∙ ap some (ground arith),
                ))
          ]
        ],
        alike,
      )

  arp-enters :
      (dest src : ℕ)
      → is_plain_arp (Arp.get_header 14 p) ≡ true
      → Arp.get_destination_ip 14 p ≡ some dest
      → Arp.get_source_ip 14 p ≡ some src
      → find src t.static_ip_map ≡ none
      → Delivers true t dest src rewrite_destination_arp p t' q
      → (t'' : Tables) × (outside_arp t p ≡ some (t'', some q)) × AreAlike t' t''
  unfolding outside_arp Ethernet.get_next_offset
  arp-enters dest src plain d s foreign passed =
      let (t'', e, alike) = Delivers-admit_arp t dest src p t' q foreign passed in
      (t'', rw (outside_arp, plain, d, ◌>>=◌, s) e, alike)

  Enters-entered : Enters t n p t' q → Entered
  unfolding outside_verdict
  Enters-entered (arp_message dest src e plain d s foreign passed) =
      let (t'', entered, alike) = arp-enters dest src plain d s foreign passed in
      (t'', rw (outside_verdict, e) entered, alike)
  Enters-entered (ip_packet dest src e room d s reply request foreign passed) =
      let (t'', entered, alike) = ip-enters dest src room d s reply request foreign passed in
      (t'', rw (outside_verdict, e) entered, alike)
  Enters-entered (other_frame x y changed same) =
      let not_arp : (Ethernet.get_protocol 0 p == ethertype_arp) ≡ false = ground (arith, x) in
      let not_ip : (Ethernet.get_protocol 0 p == ethertype_ip) ≡ false = ground (arith, y) in
      (t, rw (outside_verdict, not_arp, not_ip, changed) refl, rw same (refl, λ ip. refl))

  -- A frame that was read into a buffer enters, as the packet `q`, exactly if: it is a well-formed ARP
  -- message, or an IP packet that reaches at least 14 bytes past its header, is no DHCP reply and,
  -- from the unset address to all, no DHCP request; it claims no static address to come from; and it
  -- goes to no static address, or to that of a user, was sent to the hardware address of the static
  -- address (ARP: or to all) and now bears the user's, or is of ARP and goes to an address that no
  -- user has; or it is of another protocol. Otherwise it is unchanged. The tables are then, for every
  -- lookup, as they were, less the user of a destination that is not static.
  pub outside_verdict-Enters_iff :
      (outside_verdict t n p ≡ some (t', some q) → Enters t n p t' q)
      × (Enters t n p t' q
          → (t'' : Tables) × (outside_verdict t n p ≡ some (t'', some q)) × AreAlike t' t'')
  outside_verdict-Enters_iff = (outside_verdict-Enters t n p t' q, Enters-entered)
