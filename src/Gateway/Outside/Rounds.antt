-- ===== src/Gateway/Outside/Rounds.antt =====
-- Gateway::serve, its second loop: every round comes to its end, and leaves the state fit for the next.
use gateway_socket.Base.{
  ℕ, ◌≤◌, ◌≡◌, ◌≢◌, ◌⊎◌, refl, inl, inr, Option, none, some, List, Bool, Bool-cases, Option-cases,
  find, find-erase, arith, ltb, pos, length,
}
use gateway_socket.Packet.{Packet, set_length}
use gateway_socket.Ethernet
use gateway_socket.Ethernet.{ethertype_ip, ethertype_arp}
use gateway_socket.Arp
use gateway_socket.Ip
use gateway_socket.Gateway.Tables.{Tables, received}
use gateway_socket.Gateway.Buffer.{
  IsBuffer, IsBacked, received-Holds, received-IsBuffer, write-IsBuffer,
}
use gateway_socket.Gateway.Inside.{is_plain_arp, Round}
use gateway_socket.Gateway.Inside.Rounds.{IsFit, icmp_mtu-Known}
use gateway_socket.Gateway.Outside.{
  Passage, forget, deliver_arp, admit_arp, outside_arp, outside_dhcp, deliver_ip, admit_ip,
  not_dhcp_reply, outside_ip, outside_verdict, finish_outside, on_outside,
}
use gateway_socket.Gateway.Outside.Admit.{
  Delivers, to_user, to_nobody, to_other, rewrite_destination_arp,
}
use gateway_socket.Gateway.Outside.Passes.{
  IsBetween, Enters, arp_message, ip_packet, other_frame, outside_verdict-Enters,
}
use gateway_socket.Gateway.Outside.Total.{outside_verdict-ne-none}

-- A frame leaves the tables as they are, or one user is forgotten.
abbrev pub IsKept : Tables → Tables → Type 0
IsKept t t' = (t' ≡ t) ⊎ ((dest : ℕ) × (t' ≡ forget dest t))

outside_dhcp-same :
    (dest src : ℕ) (t1 t' : Tables) (q1 : Packet) (o : Option Packet)
    → outside_dhcp 14 dest src t1 q1 ≡ some (t', o)
    → t' ≡ t1
unfolding outside_dhcp
outside_dhcp-same dest src t1 t' q1 o h = ground arith

module _ (t : Tables) (p : Packet) (t' : Tables) (o : Option Packet) where
  admit_arp-IsKept : (dest src : ℕ) → admit_arp t dest src p ≡ some (t', o) → IsKept t t'
  unfolding admit_arp deliver_arp
  admit_arp-IsKept dest src h = elim (Option-cases (find src t.static_ip_map)) [
    | inr (m, s) ↦ inl (ground arith)
    | inl s ↦ elim (Option-cases (find dest t.static_ip_map)) [
      | inr (static_mac, d) ↦ inl (ground arith)
      | inl d ↦ elim (Option-cases (find dest t.user_map)) [
        | inl u ↦ inl (ground arith)
        | inr (user, u) ↦ inr (dest, ground arith)
      ]
    ]
  ]

  admit_ip-IsKept :
      (dest src : ℕ)
      → admit_ip t dest src (λ t1 q1. outside_dhcp 14 dest src t1 q1) p ≡ some (t', o)
      → IsKept t t'
  unfolding admit_ip deliver_ip
  admit_ip-IsKept dest src h = elim (Option-cases (find src t.static_ip_map)) [
    | inr (m, s) ↦ inl (ground arith)
    | inl s ↦ elim (Option-cases (find dest t.static_ip_map)) [
      | inr (static_mac, d) ↦ inl (elim (Option-cases (find dest t.user_map)) [
        | inl u ↦ ground arith
        | inr (user, u) ↦
            ground (
              arith,
              outside_dhcp-same dest src t t' (Ethernet.set_destination 0 user.user_mac p) o,
            )
      ])
      | inl d ↦ elim (Option-cases (find dest t.user_map)) [
        | inl u ↦ inl (outside_dhcp-same dest src t t' p o (ground arith))
        | inr (user, u) ↦
            inr (dest, outside_dhcp-same dest src (forget dest t) t' p o (ground arith))
      ]
    ]
  ]

  outside_arp-IsKept : outside_arp t p ≡ some (t', o) → IsKept t t'
  unfolding outside_arp Ethernet.get_next_offset
  outside_arp-IsKept h = elim (Bool-cases (is_plain_arp (Arp.get_header 14 p))) [
    | inr plain ↦ inl (ground arith)
    | inl plain ↦ elim (Option-cases (Arp.get_destination_ip 14 p)) [
      | inl d ↦ ground arith
      | inr (dest, d) ↦ elim (Option-cases (Arp.get_source_ip 14 p)) [
        | inl s ↦ ground arith
        | inr (src, s) ↦ admit_arp-IsKept dest src (ground arith)
      ]
    ]
  ]

  outside_ip-IsKept : (n : ℕ) → outside_ip t n p ≡ some (t', o) → IsKept t t'
  unfolding outside_ip not_dhcp_reply Ethernet.get_next_offset
  outside_ip-IsKept n h = elim (Option-cases (Ip.get_destination 14 p)) [
    | inl d ↦ inl (ground arith)
    | inr (dest, d) ↦ elim (Option-cases (Ip.get_source 14 p)) [
      | inl s ↦ inl (ground arith)
      | inr (src, s) ↦ ground (arith, admit_ip-IsKept dest src)
    ]
  ]

  pub outside_verdict-IsKept : (n : ℕ) → outside_verdict t n p ≡ some (t', o) → IsKept t t'
  unfolding outside_verdict
  outside_verdict-IsKept n h = ground (arith, outside_arp-IsKept, outside_ip-IsKept n)

set_destination-IsBuffer :
    (mac : List ℕ) (p : Packet) → IsBuffer p → IsBuffer (Ethernet.set_destination 0 mac p)
unfolding Ethernet.set_destination
set_destination-IsBuffer mac p b = write-IsBuffer _ _ mac p refl b

rewrite_arp-IsBuffer :
    (mac : List ℕ) (p : Packet) → IsBuffer p → IsBuffer (rewrite_destination_arp mac p)
unfolding Arp.set_destination_mac Ethernet.get_next_offset
rewrite_arp-IsBuffer mac p b = set_destination-IsBuffer mac _ (write-IsBuffer _ _ mac p refl b)

delivers-IsBuffer :
    (arp : Bool) (t t' : Tables) (dest src : ℕ) (rewrite : List ℕ → Packet → Packet) (p q : Packet)
    → IsBuffer p
    → ((mac : List ℕ) → IsBuffer (rewrite mac p))
    → Delivers arp t dest src rewrite p t' q
    → IsBuffer q
delivers-IsBuffer arp t t' dest src rewrite p q b keeps (to_user sm mac user s u m at' same kept) =
    rw same (keeps user.user_mac)
delivers-IsBuffer arp t t' dest src rewrite p q b keeps (to_nobody a u same kept) = rw same b
delivers-IsBuffer arp t t' dest src rewrite p q b keeps (to_other s same forgets) = rw same b

passes-IsBuffer :
    (t t' : Tables) (n : ℕ) (p q : Packet) → IsBuffer p → Enters t n p t' q → IsBuffer q
passes-IsBuffer t t' n p q b (arp_message dest src e plain d s foreign passed) =
    delivers-IsBuffer _ t t' dest src _ p q b (λ mac. rewrite_arp-IsBuffer mac p b) passed
passes-IsBuffer t t' n p q b (ip_packet dest src e room d s reply request foreign passed) =
    delivers-IsBuffer _ t t' dest src _ p q b (λ mac. set_destination-IsBuffer mac p b) passed
passes-IsBuffer t t' n p q b (other_frame x y same kept) = rw same b

kept-IsBacked : (t t' : Tables) → IsBacked t → IsKept t t' → IsBacked t'
kept-IsBacked t t' backed (inl same) = rw same backed
kept-IsBacked t t' backed (inr (dest, same)) =
    rw same (λ ip user e. backed ip user (ground (arith, find-erase dest ip t.user_map)))

finish_outside-IsFit :
    (t : Tables) (p : Packet) (v : Passage)
    → IsBuffer p
    → IsBacked t
    → v ≢ none
    → ((t' : Tables) (o : Option Packet) → v ≡ some (t', o) → IsKept t t')
    → ((t' : Tables) (q : Packet) → v ≡ some (t', some q) → IsBuffer q)
    → (r : Round) × (finish_outside p v ≡ some r) × IsFit r
unfolding finish_outside
finish_outside-IsFit t p none b backed ok kept fit = absurd (ok refl)
finish_outside-IsFit t p (some (t', none)) b backed ok kept fit =
    (_, refl, record { buffer = b; backed = kept-IsBacked t t' backed (kept t' none refl) })
finish_outside-IsFit t p (some (t', some q)) b backed ok kept fit = (
  _,
  refl,
  record { buffer = fit t' q refl; backed = kept-IsBacked t t' backed (kept t' (some q) refl) },
)

-- The frame is no IP packet with a datagram from port 67 to port 68, whatever the buffer held behind it.
abbrev pub IsQuiet : List ℕ → Type 0
IsQuiet frame =
    (buffer : Packet)
    → IsBuffer buffer
    → Ethernet.get_protocol 0 (set_length (pos (length frame)) (received frame buffer))
      ≡ ethertype_ip
    → ¬ IsBetween 67 68 (set_length (pos (length frame)) (received frame buffer))

-- A round of the second loop ends without undefined behaviour, whatever the buffer and the memory of the
-- answer held, if every user's address is static, a frame of ARP is as long as an ARP message, and the
-- frame is no IP packet with a datagram from port 67 to port 68; the next round finds the buffer whole and
-- every user's address static.
pub on_outside-IsFit :
    (block : List ℕ) (t : Tables) (buffer : Packet) (frame : List ℕ)
    → IsBuffer buffer
    → length block ≡ 70
    → IsBacked t
    → (Ethernet.get_protocol 0 (set_length (pos (length frame)) (received frame buffer))
          ≡ ethertype_arp
        → 42 ≤ length frame)
    → IsQuiet frame
    → (r : Round) × (on_outside block t buffer frame ≡ some r) × IsFit r
unfolding on_outside set_length
on_outside-IsFit block t buffer frame b sized backed whole_arp quiet =
    elim (Bool-cases (ltb 1514 (length frame))) [
      | inl long ↦ rw long (
          let (frames, sent) =
            icmp_mtu-Known block 1500 (received-Holds frame buffer 1514 b (omega arith)) sized in
          rw sent
            (_, refl, record { buffer = received-IsBuffer frame buffer _ b; backed = backed }))
      | inr fits ↦ rw fits (
          let h = received-Holds frame buffer (length frame) b (ground arith) in
          let whole = received-IsBuffer frame buffer (pos (length frame)) b in
          finish_outside-IsFit t _ _ whole backed
            (outside_verdict-ne-none t h whole_arp (quiet buffer b))
            (λ t' o e. outside_verdict-IsKept t _ t' o (length frame) e)
            (λ t' q e.
              passes-IsBuffer t t' (length frame) _ q whole
                (outside_verdict-Enters t (length frame) _ t' q e)))
    ]
