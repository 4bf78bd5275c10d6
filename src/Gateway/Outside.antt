-- ===== src/Gateway/Outside.antt =====
-- Gateway::serve (gateway-socket/gateway.cpp), its second loop: a frame from the outside device.
pub mod Admit
pub mod Passes
pub mod Total
pub mod Rounds
pub mod Alike
pub mod Behind
pub mod Exactly
mod Tests
use gateway_socket.Base.{
  ℕ, ◌+◌, ◌-◌, Option, none, some, List, [], ◌∷◌, ◌++◌, pos, not, Bool, true, false, ◌&&◌, ◌||◌,
  if◌then◌else◌, ◌==◌, ltb, length, find, erase, bytes_eq,
}
use mathlib.Core.List.{map}
use mathlib.Core.Option
use gateway_socket.Packet.{Packet, set_length}
use gateway_socket.Ethernet
use gateway_socket.Ethernet.{ether_header_size, ethertype_ip, ethertype_arp}
use gateway_socket.Arp
use gateway_socket.Ip
use gateway_socket.Udp
use gateway_socket.Checksum.{ipproto_udp}
use gateway_socket.Requests.{UserInfo}
use gateway_socket.Gateway.Tables.{
  Tables, Effect, send_inside, send_outside, in_use, received, my_mtu, my_packet_len,
}
use gateway_socket.Gateway.Icmp.{icmp_mtu, ◌>>=◌}
use gateway_socket.Gateway.Inside.{is_plain_arp, Round}

-- The tables after a frame, and the frame if it passes. `none` around it is undefined behaviour.
abbrev pub Passage : Type 0
Passage = Option (Tables × Option Packet)

abbrev pub broadcast : List ℕ
broadcast = 255 ∷ 255 ∷ 255 ∷ 255 ∷ 255 ∷ 255 ∷ []

-- The user of an address that is not static any more is forgotten.
abbrev pub forget : ℕ → Tables → Tables
forget ip t = record t { user_map = erase ip t.user_map }

-- ARP to a static address: both copies of the destination's hardware address become the user's.
deliver_arp : Tables → List ℕ → UserInfo → Packet → List ℕ → Passage
deliver_arp t static_mac user p dest_mac =
    if not (bytes_eq static_mac dest_mac) && not (bytes_eq broadcast dest_mac)
    then some (t, none)
    else some (
      t,
      some (
          Ethernet.set_destination 0 user.user_mac
            (Arp.set_destination_mac (Ethernet.get_next_offset 0) user.user_mac p)),
    )

pub admit_arp : Tables → ℕ → ℕ → Packet → Passage
unfolding deliver_arp
admit_arp t dest_ip src_ip p = elim (find src_ip t.static_ip_map) [
  | some _ ↦ some (t, none)
  | none ↦ elim (find dest_ip t.static_ip_map) [
    | some static_mac ↦ elim (find dest_ip t.user_map) [
      | some user ↦ do
        dest_mac ← Ethernet.get_destination 0 p
        deliver_arp t static_mac user p dest_mac
      | none ↦ some (t, some p)
    ]
    | none ↦ elim (find dest_ip t.user_map) [
      | some user ↦ some (forget dest_ip t, some p)
      | none ↦ some (t, some p)
    ]
  ]
]

unfoldable pub outside_arp : Tables → Packet → Passage
unfolding is_plain_arp admit_arp
outside_arp t p = if not (is_plain_arp (Arp.get_header arp_at p)) then some (t, none) else do
  dest_ip ← Arp.get_destination_ip arp_at p
  src_ip ← Arp.get_source_ip arp_at p
  admit_arp t dest_ip src_ip p
  where
    arp_at : ℕ
    arp_at = Ethernet.get_next_offset 0

-- The last test of an IP packet: DHCP between the unset and the broadcast address.
outside_dhcp : ℕ → ℕ → ℕ → Tables → Packet → Passage
outside_dhcp ip_at dest_ip src_ip t p =
    if Ip.get_protocol ip_at p == ipproto_udp && (src_ip == 0 && dest_ip == 0xFFFF_FFFF)
    then ports
    else some (t, some p)
  where
    udp_at : ℕ
    udp_at = Ip.get_next_offset ip_at p

    ports : Passage
    ports = do
      source ← Udp.get_source udp_at p
      destination ← Udp.get_destination udp_at p
      some (
        t,
        (if (source == 68 && destination == 67) || (source == 67 && destination == 68)
            then none
            else some p),
      )

-- IP to a static address: the destination's hardware address becomes the user's. No broadcast.
deliver_ip : Tables → List ℕ → UserInfo → (Packet → Passage) → Packet → List ℕ → Passage
deliver_ip t static_mac user last p dest_mac =
    if not (bytes_eq static_mac dest_mac)
    then some (t, none)
    else last (Ethernet.set_destination 0 user.user_mac p)

pub admit_ip : Tables → ℕ → ℕ → (Tables → Packet → Passage) → Packet → Passage
unfolding deliver_ip
admit_ip t dest_ip src_ip last p = elim (find src_ip t.static_ip_map) [
  | some _ ↦ some (t, none)
  | none ↦ elim (find dest_ip t.static_ip_map) [
    | some static_mac ↦ elim (find dest_ip t.user_map) [
      | some user ↦ do
        dest_mac ← Ethernet.get_destination 0 p
        deliver_ip t static_mac user (last t) p dest_mac
      | none ↦ some (t, none)
    ]
    | none ↦ elim (find dest_ip t.user_map) [
      | some user ↦ last (forget dest_ip t) p
      | none ↦ last t p
    ]
  ]
]

-- A datagram from port 67 to port 68 is another DHCP server's. It is to be dropped, but the `printf`
-- before the `continue` lacks the argument of its `%d`, which is undefined behaviour.
not_dhcp_reply : ℕ → Packet → Passage → Tables → Passage
not_dhcp_reply udp_at p rest t = do
  source ← Udp.get_source udp_at p
  destination ← Udp.get_destination udp_at p
  if source == 67 && destination == 68 then none else rest

unfoldable pub outside_ip : Tables → ℕ → Packet → Passage
unfolding admit_ip outside_dhcp not_dhcp_reply
outside_ip t read_len p =
    if ltb read_len (ip_at + udp_at)
    then some (t, none)
    else if Ip.get_protocol ip_at p == ipproto_udp
    then not_dhcp_reply udp_at p rest t
    else rest
  where
    ip_at : ℕ
    ip_at = Ethernet.get_next_offset 0

    udp_at : ℕ
    udp_at = Ip.get_next_offset ip_at p

    rest : Passage
    rest = do
      dest_ip ← Ip.get_destination ip_at p
      src_ip ← Ip.get_source ip_at p
      admit_ip t dest_ip src_ip (λ t' q. outside_dhcp ip_at dest_ip src_ip t' q) p

unfoldable pub outside_verdict : Tables → ℕ → Packet → Passage
outside_verdict t read_len p =
    if Ethernet.get_protocol 0 p == ethertype_arp
    then outside_arp t p
    else if Ethernet.get_protocol 0 p == ethertype_ip
    then outside_ip t read_len p
    else some (t, some p)

unfoldable pub finish_outside : Packet → Passage → Option Round
finish_outside p none = none
finish_outside p (some (t, none)) = some (record { tables = t; buffer = p; effects = [] })
finish_outside p (some (t, some q)) =
    some (record { tables = t; buffer = q; effects = send_inside (in_use q) ∷ [] })

-- One round of the loop that read `frame` into the buffer.
unfoldable pub on_outside : List ℕ → Tables → Packet → List ℕ → Option Round
on_outside block t buffer frame =
    if ltb my_packet_len read_len
    then Option.map too_long (icmp_mtu block my_mtu cut)
    else finish_outside whole (outside_verdict t read_len whole)
  where
    read_len : ℕ
    read_len = length frame

    cut : Packet
    cut = set_length (pos my_packet_len) (received frame buffer)

    whole : Packet
    whole = set_length (pos read_len) (received frame buffer)

    too_long : List (List ℕ) → Round
    too_long frames = record { tables = t; buffer = cut; effects = map send_outside frames }
