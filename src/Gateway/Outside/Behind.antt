-- ===== src/Gateway/Outside/Behind.antt =====
-- Gateway::serve, frames from outside: what a new destination hardware address leaves as it was.
use gateway_socket.Base.{
  ℕ, ◌+◌, ◌-◌, ◌≤◌, ◌≡◌, refl, sym, ap, ◌∙◌, some, List, arith, pos, splice, take, length-take_le,
  slice-splice_after, get_or-drop, drop-splice,
}
use mathlib.Core.Option
use gateway_socket.Packet.{Packet, read_byte_array, write_byte_array}
use gateway_socket.Packet.Laws.{
  Holds, write_byte_array-Holds, outside_inside, read_byte_inside, read_inside,
}
use gateway_socket.Ethernet
use gateway_socket.Ethernet.{ethertype_ip, ethertype_arp}
use gateway_socket.Ip
use gateway_socket.Udp
use gateway_socket.Gateway.Buffer.{get_next_offset-le}
use gateway_socket.Gateway.Outside.Passes.{IsBetween}
use gateway_socket.Gateway.Outside.Total.{set_destination-next_offset}

-- A new destination hardware address changes nothing behind the first six bytes.
module _ {n : ℕ} {p : Packet} (mac : List ℕ) (h : Holds n p) (room : 24 ≤ n) where
  read-behind :
      (i j : ℕ)
      → 6 ≤ i
      → i ≤ j
      → j ≤ n
      → read_byte_array (pos i) (pos j) (Ethernet.set_destination 0 mac p)
        ≡ read_byte_array (pos i) (pos j) p
  unfolding Ethernet.set_destination write_byte_array
  read-behind i j far up le =
      read_inside (write_byte_array-Holds (pos 0) (pos 6) mac refl h) i j up le
      ∙ ap some (
          rw (write_byte_array, outside_inside h 0 6 (omega arith))
            (slice-splice_after 0 i (j - i) (take 6 mac) p.in_memory
              (omega (arith, length-take_le 6 mac))))
      ∙ sym (read_inside h i j up le)

  protocol-behind : Ip.get_protocol 14 (Ethernet.set_destination 0 mac p) ≡ Ip.get_protocol 14 p
  unfolding Ip.get_protocol Ethernet.set_destination write_byte_array
  protocol-behind =
      rw
        (
          Ip.get_protocol,
          read_byte_inside (write_byte_array-Holds (pos 0) (pos 6) mac refl h) 23 (omega arith),
          read_byte_inside h 23 (omega arith),
          write_byte_array,
          outside_inside h 0 6 (omega arith),
          get_or-drop 23 (splice 0 (take 6 mac) p.in_memory),
          get_or-drop 23 p.in_memory,
          drop-splice 0 23 (take 6 mac) p.in_memory (omega (arith, length-take_le 6 mac)),
        )
        refl

  pub IsBetween-behind :
      (from to : ℕ)
      → Ip.get_next_offset 14 p + 4 ≤ n
      → IsBetween from to (Ethernet.set_destination 0 mac p)
      → IsBetween from to p
  unfolding Udp.get_source Udp.get_destination
  IsBetween-behind from to ports (udp, s, d) =
      let same = set_destination-next_offset mac h (omega arith) in
      let far = get_next_offset-le 14 p in
      (
        sym protocol-behind ∙ udp,
        ap (Option.map _) (
              sym (
                read-behind (Ip.get_next_offset 14 p + 0) (Ip.get_next_offset 14 p + 2)
                  (omega arith) (omega arith) (omega arith)))
            ∙ rw same at s,
        ap (Option.map _) (
              sym (
                read-behind (Ip.get_next_offset 14 p + 2) (Ip.get_next_offset 14 p + 4)
                  (omega arith) (omega arith) (omega arith)))
            ∙ rw same at d,
      )
