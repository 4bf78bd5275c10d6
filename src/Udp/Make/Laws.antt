-- ===== src/Udp/Make/Laws.antt =====
-- UDP::makePacket: it writes the frame of the datagram, with the checksums as the code computes them.
use gateway_socket.Base.{
  ℕ, ◌+◌, ◌≤◌, ◌≡◌, refl, ap, ◌∙◌, sym, ltb, true, false, ◌^◌, some, List, [], ◌∷◌, ◌++◌,
  append_assoc, pos, u16, htons, store16, store32, load32, load32-store32, length, length-grown,
  slice, AllBytes, AllBytes-append, arith, splice, slice-splice_part, slice-splice_tail,
  splice_nested, splice_middle,
}
use gateway_socket.Packet.{Packet, write_byte_array}
use gateway_socket.Packet.Laws.{Holds, write_at, write_at-Holds, read_inside, write_inside}
use gateway_socket.Ethernet
use gateway_socket.Ip
use gateway_socket.Udp
use gateway_socket.Checksum.{sum_words}
use gateway_socket.Udp.Make.{◌>>=◌, make_packet, pseudo_header, datagram_sum}
use gateway_socket.Udp.Make.Sum.{datagram_sum-sum_words}
use gateway_socket.Udp.Make.Frame.{
  Datagram, IsDatagram, frame, ether_part, ip_part, ip_front, udp_front, ip_addresses, udp_pseudo,
  ip_checksum, udp_checksum, unsummed_udp, be16, store16-length, write_ip_lem, write_udp_lem,
  length-ether_part,
}

AllBytes-be16 : (x : ℕ) → AllBytes (be16 x)
AllBytes-be16 x = omega arith

AllBytes-store32 : (x : ℕ) → AllBytes (store32 x)
unfolding store32
AllBytes-store32 x = omega arith

pub AllBytes-unsummed_udp : (d : Datagram) → AllBytes d.payload → AllBytes (unsummed_udp d)
AllBytes-unsummed_udp d b =
    AllBytes-append (udp_front d) (0 ∷ 0 ∷ d.payload) (omega arith) (omega arith, (omega arith, b))

module _ {n : ℕ} {p : Packet} (h : Holds n p) (d : Datagram) (v : IsDatagram d)
    (room : 42 + length d.payload ≤ n) (extra : List ℕ) where
  headers : List ℕ
  headers = ether_part d ++ ip_part d

  length-headers : length headers ≡ 34
  unfolding headers store16 store32
  length-headers = length-grown (ether_part d) (ip_part d) (length-ether_part h d v)

  in_block : n ≤ length p.in_memory
  in_block = rw h.block h.fits

  with_ip-Holds : Holds n (write_at 0 headers p)
  with_ip-Holds = write_at-Holds h 0 headers

  before_source : List ℕ
  before_source = ether_part d ++ (ip_front d ++ ip_checksum d)

  get_source_lem : Ip.get_source 14 (write_at 0 headers p) ≡ some d.ip_src
  unfolding Ip.get_source headers before_source store16 store32
  get_source_lem =
      rw (read_inside with_ip-Holds 26 30 (omega arith) (omega arith))
        (ap some (ap load32 stored ∙ load32-store32 d.ip_src v.src_ip))
    where
      stored : slice 26 4 (splice 0 headers p.in_memory) ≡ store32 d.ip_src
      stored =
          ap (λ ws. slice 26 4 (splice 0 ws p.in_memory))
            (sym (append_assoc (ether_part d) (ip_front d ++ ip_checksum d) (ip_addresses d)))
          ∙ slice-splice_part 0 26 4 before_source (store32 d.ip_src) (store32 d.ip_dst) p.in_memory
              (omega (
                arith,
                length-grown (ether_part d) (ip_front d ++ ip_checksum d) (length-ether_part h d v),
              ))
              refl (omega (arith, in_block))

  get_destination_lem : Ip.get_destination 14 (write_at 0 headers p) ≡ some d.ip_dst
  unfolding Ip.get_destination headers store16 store32
  get_destination_lem =
      rw (read_inside with_ip-Holds 30 34 (omega arith) (omega arith))
        (ap some (ap load32 stored ∙ load32-store32 d.ip_dst v.dst_ip))
    where
      pre : List ℕ
      pre = ether_part d ++ (ip_front d ++ (ip_checksum d ++ store32 d.ip_src))

      stored : slice 30 4 (splice 0 headers p.in_memory) ≡ store32 d.ip_dst
      stored =
          ap (λ ws. slice 30 4 (splice 0 ws p.in_memory))
            (sym (
              append_assoc (ether_part d) (ip_front d ++ (ip_checksum d ++ store32 d.ip_src))
                (store32 d.ip_dst)))
          ∙ slice-splice_tail 0 30 4 pre (store32 d.ip_dst) p.in_memory
              (omega (
                arith,
                length-grown (ether_part d) (ip_front d ++ (ip_checksum d ++ store32 d.ip_src))
                    (length-ether_part h d v),
              ))
              refl (omega (arith, in_block))

  written : List ℕ
  written = headers ++ unsummed_udp d

  with_udp-Holds : Holds n (write_at 0 written p)
  with_udp-Holds = write_at-Holds h 0 written

  datagram_sum_lem :
      (sum : ℕ)
      → datagram_sum (42 + length d.payload) 34 (42 + length d.payload) sum 0 (write_at 0 written p)
        ≡ sum_words sum (unsummed_udp d)
  unfolding written
  datagram_sum_lem sum =
      datagram_sum-sum_words with_udp-Holds (unsummed_udp d) (42 + length d.payload) 34
        (42 + length d.payload) sum 0 (omega arith) room
        (slice-splice_tail 0 34 (length (unsummed_udp d)) headers (unsummed_udp d) p.in_memory
          (omega (arith, length-headers)) refl (omega (arith, in_block)))
        (AllBytes-unsummed_udp d v.bytes) (omega arith)

  pseudo_header_lem :
      pseudo_header d.ip_src d.ip_dst (htons (u16 (8 + length d.payload))) ≡ udp_pseudo d
  unfolding pseudo_header
  pseudo_header_lem =
      ap (λ bs. store32 d.ip_src ++ (store32 d.ip_dst ++ (0 ∷ 17 ∷ bs)))
        (store16-length (8 + length d.payload))

  store_checksum_lem :
      write_byte_array (pos 40) (pos 42) (udp_checksum d) (write_at 0 written p)
      ≡ write_at 0 (frame d) p
  unfolding written frame headers store16
  store_checksum_lem =
      write_inside with_udp-Holds 40 42 (udp_checksum d) (omega arith) (omega arith) refl
      ∙ ap (λ m. record p { in_memory = m })
          (splice_nested 0 40 40 written (udp_checksum d) p.in_memory refl
              (omega (arith, length-grown headers (unsummed_udp d) length-headers))
            ∙ ap (λ ws. splice 0 ws p.in_memory) replaced)
    where
      replaced : splice 40 (udp_checksum d) written ≡ frame d
      replaced =
          ap (splice 40 (udp_checksum d))
            (sym (append_assoc headers (udp_front d) (0 ∷ 0 ∷ d.payload)))
          ∙ splice_middle 40 (headers ++ udp_front d) (0 ∷ 0 ∷ []) (udp_checksum d) d.payload
              (length-grown headers (udp_front d) length-headers) refl
          ∙ simp append_assoc

  pub make_packet-written :
      make_packet p d.ether_src d.ether_dst d.ip_src d.ip_dst d.p_src d.p_dst
        (d.payload ++ extra)
        (length d.payload)
      ≡ some (write_at 0 (frame d) p, pos (42 + length d.payload))
  unfolding make_packet Ethernet.get_next_offset Udp.get_next_offset headers written
  make_packet-written =
      let is_int : ltb (42 + length d.payload) (2 ^ 31) ≡ true = ground (arith, v.short) in
      let fits : ltb p.capacity (42 + length d.payload) ≡ false = ground (arith, h.fits) in
      rw
        (
          is_int,
          fits,
          write_ip_lem h d v (omega arith),
          get_source_lem,
          ◌>>=◌,
          get_destination_lem,
          pseudo_header_lem,
          write_udp_lem h d v room extra,
          datagram_sum_lem (sum_words 0 (udp_pseudo d)),
          store_checksum_lem,
        )
        refl
