-- ===== src/Udp/Make/Frame.antt =====
-- UDP::makePacket: the bytes of the frame that it writes, after the formats of RFC 894, 791 and 768 but
-- with the checksums as the code computes them.
use gateway_socket.Base.{
  ℕ, ◌+◌, ◌-◌, ◌/◌, ◌%◌, ◌^◌, ◌≤◌, ◌<◌, ◌≡◌, refl, ap, ap₂, ◌∙◌, List, [], ◌∷◌, ◌++◌, append_assoc,
  pos, u16, htons, store16, store32, length, take-append, length-grown, AllBytes, arith,
  store16-htons,
}
use gateway_socket.Packet.{Packet, write_byte_array}
use gateway_socket.Packet.Laws.{Holds, write_at, append_array, append_byte}
use gateway_socket.Udp
use gateway_socket.Ethernet.Laws.{write_header_lem, length-ether_header}
use gateway_socket.Checksum.{store_ip, sum_words, fold_sum, one_compl}
use gateway_socket.Udp.Make.{write_ethernet, write_udp, unsummed_header, summed_header}

-- A 16-bit number in network order.
abbrev pub be16 : ℕ → List ℕ
be16 x = x / 256 % 256 ∷ x % 256 ∷ []

-- What a datagram says.
pub record Datagram : Type 0 where
  pub ether_src : List ℕ
  pub ether_dst : List ℕ
  pub ip_src : ℕ
  pub ip_dst : ℕ
  pub p_src : ℕ
  pub p_dst : ℕ
  pub payload : List ℕ

pub record IsDatagram (d : Datagram) : Type 0 where
  pub src_size : length d.ether_src ≡ 6
  pub dst_size : length d.ether_dst ≡ 6
  pub src_ip : d.ip_src < 2 ^ 32
  pub dst_ip : d.ip_dst < 2 ^ 32
  pub bytes : AllBytes d.payload
  pub short : length d.payload < 65536 - 28

-- The IPv4 header up to its checksum, and behind it.
abbrev pub ip_front : Datagram → List ℕ
ip_front d = 0x45 ∷ 0 ∷ (be16 (28 + length d.payload) ++ (0 ∷ 0 ∷ 0x40 ∷ 0 ∷ 64 ∷ 17 ∷ []))

abbrev pub ip_addresses : Datagram → List ℕ
ip_addresses d = store32 d.ip_src ++ store32 d.ip_dst

-- The UDP header up to its checksum.
abbrev pub udp_front : Datagram → List ℕ
udp_front d = be16 d.p_src ++ (be16 d.p_dst ++ be16 (8 + length d.payload))

-- The pseudo header that the UDP checksum also covers.
abbrev pub udp_pseudo : Datagram → List ℕ
udp_pseudo d = store32 d.ip_src ++ (store32 d.ip_dst ++ (0 ∷ 17 ∷ be16 (8 + length d.payload)))

abbrev pub ip_checksum : Datagram → List ℕ
ip_checksum d = store16 (one_compl (ip_front d ++ (0 ∷ 0 ∷ ip_addresses d)))

abbrev pub udp_checksum : Datagram → List ℕ
udp_checksum d =
    store16 (fold_sum (sum_words (sum_words 0 (udp_pseudo d)) (udp_front d ++ (0 ∷ 0 ∷ d.payload))))

abbrev pub ether_part : Datagram → List ℕ
ether_part d = d.ether_dst ++ (d.ether_src ++ (0x08 ∷ 0x00 ∷ []))

abbrev pub ip_part : Datagram → List ℕ
ip_part d = ip_front d ++ (ip_checksum d ++ ip_addresses d)

abbrev pub udp_part : Datagram → List ℕ
udp_part d = udp_front d ++ (udp_checksum d ++ d.payload)

-- The datagram while its checksum is computed.
abbrev pub unsummed_udp : Datagram → List ℕ
unsummed_udp d = udp_front d ++ (0 ∷ 0 ∷ d.payload)

unfoldable pub frame : Datagram → List ℕ
frame d = ether_part d ++ (ip_part d ++ udp_part d)

-- The length field of a header, stored through `htons`.
pub store16-length : (x : ℕ) → store16 (htons (u16 x)) ≡ be16 x
unfolding store16 htons
store16-length x = ground arith

unsummed_bytes :
    (d : Datagram)
    → store_ip (unsummed_header d.ip_src d.ip_dst (length d.payload))
      ≡ ip_front d ++ (0 ∷ 0 ∷ ip_addresses d)
unfolding unsummed_header htons store16
unsummed_bytes d =
    ap (λ bs. 0x45 ∷ 0 ∷ (bs ++ (0 ∷ 0 ∷ 0x40 ∷ 0 ∷ 64 ∷ 17 ∷ 0 ∷ 0 ∷ ip_addresses d)))
      (store16-length (28 + length d.payload))

-- The header's bytes as the code stores them.
store_ip-summed_header :
    (d : Datagram) → store_ip (summed_header d.ip_src d.ip_dst (length d.payload)) ≡ ip_part d
unfolding summed_header unsummed_header one_compl htons store16
store_ip-summed_header d =
    ap
      (λ bs.
        0x45
        ∷ 0
        ∷ (bs
            ++ (0
                ∷ 0
                ∷ 0x40
                ∷ 0
                ∷ 64
                ∷ 17
                ∷ (store16
                      (one_compl (store_ip (unsummed_header d.ip_src d.ip_dst (length d.payload))))
                    ++ ip_addresses d))))
      (store16-length (28 + length d.payload))
    ∙ ap (λ bs. ip_front d ++ (store16 (one_compl bs) ++ ip_addresses d)) (unsummed_bytes d)

module _ {n : ℕ} {p : Packet} (h : Holds n p) (d : Datagram) (v : IsDatagram d) where
  write_ethernet_lem :
      14 ≤ n → write_ethernet d.ether_src d.ether_dst p ≡ write_at 0 (ether_part d) p
  unfolding write_ethernet
  write_ethernet_lem = write_header_lem h d.ether_src d.ether_dst v.src_size v.dst_size

  pub length-ether_part : length (ether_part d) ≡ 14
  length-ether_part = length-ether_header h d.ether_src d.ether_dst v.src_size v.dst_size

  length-ip_part : length (ip_part d) ≡ 20
  length-ip_part = unfold store16 store32 in refl

  pub write_ip_lem :
      34 ≤ n
      → write_byte_array
          (pos 14)
          (pos 34)
          (store_ip (summed_header d.ip_src d.ip_dst (length d.payload)))
          (write_ethernet d.ether_src d.ether_dst p)
        ≡ write_at 0 (ether_part d ++ ip_part d) p
  write_ip_lem le =
      ap₂ (write_byte_array (pos 14) (pos 34)) (store_ip-summed_header d)
        (write_ethernet_lem (omega arith))
      ∙ append_array h 0 (ether_part d) 14 34 (ip_part d) (ip_part d)
          (omega (arith, length-ether_part)) (omega arith) le (unfold store16 store32 in refl)

  module _ (room : 42 + length d.payload ≤ n) (extra : List ℕ) where
    pub write_udp_lem :
        write_udp 34 d.p_src d.p_dst
          (d.payload ++ extra)
          (length d.payload)
          (write_at 0 (ether_part d ++ ip_part d) p)
        ≡ write_at 0 ((ether_part d ++ ip_part d) ++ unsummed_udp d) p
    unfolding write_udp Udp.set_source Udp.set_destination Udp.get_next_offset store16 store32
    write_udp_lem =
        rw
          (
            append_array h 0 w0 34 36 (store16 (htons d.p_src)) (be16 d.p_src) (omega (arith, l0))
                (omega arith) (omega arith) (store16-htons d.p_src),
            append_array h 0 w1 36 38 (store16 (htons d.p_dst)) (be16 d.p_dst) (omega (arith, l1))
                (omega arith) (omega arith) (store16-htons d.p_dst),
            append_array h 0 w2 38 40 (store32 udp_len) (be16 (8 + length d.payload))
                (omega (arith, l2)) (omega arith) (omega arith)
                (store16-length (8 + length d.payload)),
            append_byte h 0 w3 40 0 (omega (arith, l3)) (omega arith),
            append_byte h 0 w4 41 0 (omega (arith, l4)) (omega arith),
            append_array h 0 w5 42 end (d.payload ++ extra) d.payload (omega (arith, l5))
                (omega arith) room
                (take-append (42 + length d.payload - 42) d.payload extra (omega arith)),
          )
          (ap (λ ws. write_at 0 ws p) (simp append_assoc))
      where
        end : ℕ
        end = 42 + length d.payload

        udp_len : ℕ
        udp_len = htons (u16 (8 + length d.payload))

        w0 : List ℕ
        w0 = ether_part d ++ ip_part d

        l0 : length w0 ≡ 34
        l0 = length-grown (ether_part d) (ip_part d) length-ether_part

        w1 : List ℕ
        w1 = w0 ++ be16 d.p_src

        l1 : length w1 ≡ 36
        l1 = length-grown w0 (be16 d.p_src) l0

        w2 : List ℕ
        w2 = w1 ++ be16 d.p_dst

        l2 : length w2 ≡ 38
        l2 = length-grown w1 (be16 d.p_dst) l1

        w3 : List ℕ
        w3 = w2 ++ be16 (8 + length d.payload)

        l3 : length w3 ≡ 40
        l3 = length-grown w2 (be16 (8 + length d.payload)) l2

        w4 : List ℕ
        w4 = w3 ++ 0 ∷ []

        l4 : length w4 ≡ 41
        l4 = length-grown w3 (0 ∷ []) l3

        w5 : List ℕ
        w5 = w4 ++ 0 ∷ []

        l5 : length w5 ≡ 42
        l5 = length-grown w4 (0 ∷ []) l4
