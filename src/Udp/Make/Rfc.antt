-- ===== src/Udp/Make/Rfc.antt =====
-- UDP::makePacket: the frame of RFC 894, 791 and 768, with the checksums of RFC 1071 instead of those
-- that the code computes.
use gateway_socket.Base.{
  ℕ, ◌+◌, ◌-◌, ◌*◌, ◌%◌, ◌^◌, ◌≤◌, ◌<◌, ◌≡◌, ap, ap₂, ◌∙◌, some, List, ◌∷◌, ◌++◌, pos, arith,
  length, ◌==◌, if◌then◌else◌, store16, store32, htons, AllBytes,
}
use gateway_socket.Packet.{Packet}
use gateway_socket.Packet.Laws.{Holds, write_at}
use gateway_socket.Checksum.{fold_sum, one_compl}
use gateway_socket.Checksum.Laws.{word_sum, word_sum-le, sum_words-word_sum}
use gateway_socket.Udp.Make.{make_packet}
use gateway_socket.Udp.Make.Frame.{
  Datagram, IsDatagram, be16, frame, ether_part, ip_front, ip_addresses, udp_front, udp_pseudo,
  unsummed_udp, ip_checksum, udp_checksum,
}
use gateway_socket.Udp.Make.Laws.{make_packet-written}
use gateway_socket.Udp.Make.Checks.{covered, covered_lem, covered-lt, summed}

-- RFC 1071: the 16-bit one's complement sum of words with a given plain sum, and its complement.
abbrev pub ones_sum : ℕ → ℕ
ones_sum total = if total == 0 then 0 else (total - 1) % 65535 + 1

abbrev pub complement : ℕ → ℕ
complement total = 65535 - ones_sum total

-- Of the header with 0 in the place of the checksum.
abbrev pub rfc_ip_checksum : Datagram → List ℕ
rfc_ip_checksum d = be16 (complement (word_sum (ip_front d ++ (0 ∷ 0 ∷ ip_addresses d))))

-- Of the pseudo header and the datagram; RFC 768 would send 0 as all ones.
abbrev pub rfc_udp_checksum : Datagram → List ℕ
rfc_udp_checksum d = be16 (complement (word_sum (udp_pseudo d) + word_sum (unsummed_udp d)))

unfoldable pub rfc_frame : Datagram → List ℕ
rfc_frame d =
    ether_part d
    ++ ((ip_front d ++ (rfc_ip_checksum d ++ ip_addresses d))
        ++ (udp_front d ++ (rfc_udp_checksum d ++ d.payload)))

fold_sum-complement :
    (sum : ℕ) → sum < 2 ^ 32 - 65536 → store16 (fold_sum sum) ≡ be16 (complement sum)
unfolding fold_sum store16 htons
fold_sum-complement sum h = ground arith

ip_checksum_lem : (d : Datagram) → ip_checksum d ≡ rfc_ip_checksum d
unfolding one_compl
ip_checksum_lem d =
    ap (λ (s : ℕ). store16 (fold_sum s))
      (let same : 0 + word_sum header ≡ word_sum header = omega arith in
        sum_words-word_sum 0 header bytes (omega (arith, below)) ∙ same)
    ∙ fold_sum-complement (word_sum header) (omega (arith, below))
  where
    header : List ℕ
    header = ip_front d ++ (0 ∷ 0 ∷ ip_addresses d)

    bytes : AllBytes header
    bytes = unfold store32 in omega arith

    below : word_sum header ≤ 32768 * 21
    below = unfold store32 in word_sum-le header bytes

udp_checksum_lem : (d : Datagram) → IsDatagram d → udp_checksum d ≡ rfc_udp_checksum d
udp_checksum_lem d v =
    ap (λ (s : ℕ). store16 (fold_sum s)) (summed d v)
    ∙ fold_sum-complement (covered d) (covered-lt d v)
    ∙ ap (λ (s : ℕ). be16 (complement s)) (covered_lem d)

frame-rfc_frame : (d : Datagram) → IsDatagram d → frame d ≡ rfc_frame d
unfolding frame rfc_frame
frame-rfc_frame d v =
    ap₂
      (λ (a b : List ℕ).
        ether_part d
        ++ ((ip_front d ++ (a ++ ip_addresses d)) ++ (udp_front d ++ (b ++ d.payload))))
      (ip_checksum_lem d) (udp_checksum_lem d v)

module _ {n : ℕ} {p : Packet} (h : Holds n p) (d : Datagram) (v : IsDatagram d)
    (room : 42 + length d.payload ≤ n) (extra : List ℕ) where
  -- Of a datagram with hardware addresses of six bytes, 32-bit addresses and a payload of less
  -- than 65508 bytes, and with room for its frame in the bytes in use, `makePacket` returns the
  -- frame's length, and the packet differs from what it was in holding the frame from its start:
  -- nothing behind the frame is touched, and of the data nothing behind the payload is read. The
  -- frame has the formats of RFC 894, 791 and 768 and both checksums after RFC 1071, except that a
  -- UDP checksum that comes out as 0 stays 0, where RFC 768 sends all ones.
  pub make_packet-rfc_frame :
      make_packet p d.ether_src d.ether_dst d.ip_src d.ip_dst d.p_src d.p_dst
        (d.payload ++ extra)
        (length d.payload)
      ≡ some (write_at 0 (rfc_frame d) p, pos (42 + length d.payload))
  make_packet-rfc_frame =
      make_packet-written h d v room extra
      ∙ ap (λ (bytes : List ℕ). some (write_at 0 bytes p, pos (42 + length d.payload)))
          (frame-rfc_frame d v)
