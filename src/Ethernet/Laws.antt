-- ===== src/Ethernet/Laws.antt =====
-- class Ethernet: a whole header, written the way both senders of the program write it.
use gateway_socket.Base.{
  ℕ, ◌≤◌, ◌≡◌, refl, ap, ◌∙◌, List, [], ◌∷◌, ◌++◌, append_assoc, pos, arith, length, length-append,
  htons, store16, splice_adjacent_rev,
}
use gateway_socket.Packet.{Packet, write_byte_array}
use gateway_socket.Packet.Laws.{Holds, write_inside, write_at, write_at-Holds, append_array}
use gateway_socket.Ethernet.{ethertype_ip, set_source, set_destination, set_protocol}

abbrev pub ether_header : List ℕ → List ℕ → List ℕ
ether_header src dst = dst ++ (src ++ (0x08 ∷ 0x00 ∷ []))

module _ {n : ℕ} {p : Packet} (h : Holds n p) (src dst : List ℕ) (src_size : length src ≡ 6)
    (dst_size : length dst ≡ 6) where
  pub length-ether_header : length (ether_header src dst) ≡ 14
  length-ether_header = omega (
    arith,
    length-append dst (src ++ (0x08 ∷ 0x00 ∷ [])),
    length-append src (0x08 ∷ 0x00 ∷ []),
    src_size,
    dst_size,
  )

  pub write_header_lem :
      14 ≤ n
      → set_protocol 0 ethertype_ip (set_destination 0 dst (set_source 0 src p))
        ≡ write_at 0 (ether_header src dst) p
  unfolding set_source set_destination set_protocol htons store16
  write_header_lem le =
      ap (λ q. store_type (write_byte_array (pos 0) (pos 6) dst q))
        (write_inside h 6 12 src (omega arith) (omega arith) src_size)
      ∙ ap store_type (
          write_inside (write_at-Holds h 6 src) 0 6 dst (omega arith) (omega arith) dst_size
          ∙ ap (λ m. record p { in_memory = m })
              (splice_adjacent_rev 0 6 dst src p.in_memory (omega (arith, dst_size))))
      ∙ append_array h 0 (dst ++ src) 12 14 (0x08 ∷ 0x00 ∷ []) (0x08 ∷ 0x00 ∷ [])
          (omega (arith, length-append dst src, src_size, dst_size)) (omega arith) le refl
      ∙ ap (λ ws. write_at 0 ws p) (append_assoc dst src (0x08 ∷ 0x00 ∷ []))
    where
      store_type : Packet → Packet
      store_type = write_byte_array (pos 12) (pos 14) (0x08 ∷ 0x00 ∷ [])
