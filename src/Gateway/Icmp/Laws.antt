-- ===== src/Gateway/Icmp/Laws.antt =====
-- Gateway::icmp_mtu: the frame that it sends.
use gateway_socket.Base.{
  ℕ, ◌-◌, ◌≤◌, ◌≡◌, refl, ap, ◌∙◌, some, List, [], ◌∷◌, ◌++◌, append_assoc, Bool, true, false,
  Bool-cases, inl, inr, pos, leb, leb_int, ◌==◌, if◌then◌else◌, arith, length, length-grown,
  take-length, slice, length-slice, htons, store16, store32, load32, slice-splice_self, AllBytes,
  ◌&&◌,
}
use gateway_socket.Packet
use gateway_socket.Packet.{Packet, get_length, read_byte_array, write_byte_array, set_length}
use gateway_socket.Packet.Laws.{Holds, read_inside, write_at, append_array}
use gateway_socket.Ethernet
use gateway_socket.Ethernet.{ethertype_ip}
use gateway_socket.Ethernet.Laws.{ether_header, length-ether_header, write_header_lem}
use gateway_socket.Ip
use gateway_socket.Checksum.{IpHeader, store_ip, one_compl}
use gateway_socket.Checksum.Laws.{Verifies, one_compl-Verifies}
use gateway_socket.Gateway.Tables.{in_use}
use gateway_socket.Gateway.Icmp.{too_big, reply_ip, too_big_reply, icmp_mtu, ◌>>=◌}

-- The addresses and the quoted part of the frame that was too long, whose bytes are `m`.
abbrev pub quoted : List ℕ → List ℕ
quoted m = slice 14 28 m

abbrev pub ip_reply : List ℕ → IpHeader
ip_reply m =
    let unsummed = reply_ip (load32 (slice 30 4 m)) (load32 (slice 26 4 m)) 0 in
    record unsummed { ip_sum = one_compl (store_ip unsummed) }

abbrev pub icmp_part : List ℕ → ℕ → List ℕ
icmp_part m mtu = too_big (one_compl (too_big 0 mtu (quoted m))) mtu (quoted m)

-- The reply goes back to where the frame came from.
abbrev pub reply_frame : List ℕ → ℕ → List ℕ
reply_frame m mtu =
    (slice 6 6 m ++ (slice 0 6 m ++ (0x08 ∷ 0x00 ∷ [])))
    ++ (store_ip (ip_reply m) ++ icmp_part m mtu)

-- The new packet of icmp_mtu.
abbrev new_packet : List ℕ → Packet
new_packet block = record { written_byte = pos 70; capacity = 70; in_memory = block }

module _ {n : ℕ} {p : Packet} (h : Holds n p) (enough : 42 ≤ n) (block : List ℕ)
    (sized : length block ≡ 70) (mtu : ℕ) where
  memory : 42 ≤ length p.in_memory
  memory = rw h.block (omega (arith, h.fits))

  new-Holds : Holds 70 (new_packet block)
  new-Holds = record { in_use = refl; fits = omega arith; block = sized }

  source_size : length (slice 0 6 p.in_memory) ≡ 6
  source_size = length-slice 0 6 p.in_memory (omega (arith, memory))

  destination_size : length (slice 6 6 p.in_memory) ≡ 6
  destination_size = length-slice 6 6 p.in_memory (omega (arith, memory))

  headers : List ℕ
  headers = ether_header (slice 0 6 p.in_memory) (slice 6 6 p.in_memory)

  length-headers : length headers ≡ 14
  unfolding headers
  length-headers =
      length-ether_header new-Holds (slice 0 6 p.in_memory) (slice 6 6 p.in_memory) source_size
        destination_size

  quoted_size : length (quoted p.in_memory) ≡ 28
  quoted_size = length-slice 14 28 p.in_memory (omega (arith, memory))

  with_ip : List ℕ
  with_ip = headers ++ store_ip (ip_reply p.in_memory)

  length-with_ip : length with_ip ≡ 34
  unfolding with_ip store16 store32 reply_ip
  length-with_ip = length-grown headers (store_ip (ip_reply p.in_memory)) length-headers

  length-icmp_part : length (icmp_part p.in_memory mtu) ≡ 36
  unfolding store16
  length-icmp_part = omega (arith, quoted_size)

  regrouped : with_ip ++ icmp_part p.in_memory mtu ≡ reply_frame p.in_memory mtu
  unfolding with_ip headers
  regrouped = append_assoc headers (store_ip (ip_reply p.in_memory)) (icmp_part p.in_memory mtu)

  -- The whole block of the new packet is written, so nothing of what `malloc` left is sent.
  sent :
      in_use (write_at 0 (with_ip ++ icmp_part p.in_memory mtu) (new_packet block))
      ≡ reply_frame p.in_memory mtu
  sent =
      slice-splice_self 0 70 (with_ip ++ icmp_part p.in_memory mtu) block
        (omega (
          arith,
          length-grown with_ip (icmp_part p.in_memory mtu) length-with_ip,
          length-icmp_part,
        ))
        (omega (arith, sized))
      ∙ regrouped

  too_big_reply-reply_frame : too_big_reply block mtu p ≡ some (reply_frame p.in_memory mtu)
  unfolding too_big_reply Packet.make set_length Ethernet.get_source Ethernet.get_destination
      Ip.get_source Ip.get_destination headers with_ip reply_ip
  too_big_reply-reply_frame =
      rw
        (
          read_inside h 14 42 (omega arith) enough,
          ◌>>=◌,
          read_inside h 0 6 (omega arith) (omega arith),
          read_inside h 6 12 (omega arith) (omega arith),
          read_inside h 30 34 (omega arith) (omega arith),
          read_inside h 26 30 (omega arith) (omega arith),
          write_header_lem new-Holds (slice 0 6 p.in_memory) (slice 6 6 p.in_memory) source_size
              destination_size (omega arith),
          append_array new-Holds 0 headers 14 34 (store_ip (ip_reply p.in_memory))
              (store_ip (ip_reply p.in_memory)) (omega (arith, length-headers)) (omega arith)
              (omega arith) (unfold store16 store32 in refl),
          append_array new-Holds 0 with_ip 34 70 (icmp_part p.in_memory mtu)
              (icmp_part p.in_memory mtu) (omega (arith, length-with_ip)) (omega arith)
              (omega arith)
              (take-length 36 (icmp_part p.in_memory mtu) (omega (arith, length-icmp_part))),
        )
        (ap some sent)

-- An IPv4 frame without options, with eight bytes behind its header.
abbrev pub is_quotable : ℕ → Packet → Bool
is_quotable n p =
    leb 42 n && (Ethernet.get_protocol 0 p == ethertype_ip) && (Ip.get_next_offset 14 p - 14 == 20)

-- With a new packet of 70 bytes, an IPv4 frame without options and with eight bytes behind its
-- header is answered by one frame, to where it came from; no other frame is answered. What the
-- new packet's memory held is not in the answer.
pub icmp_mtu-reply_frame :
    {n : ℕ} {p : Packet} (block : List ℕ) (mtu : ℕ)
    → Holds n p
    → length block ≡ 70
    → icmp_mtu block mtu p ≡ some (if is_quotable n p then reply_frame p.in_memory mtu ∷ [] else [])
unfolding icmp_mtu
icmp_mtu-reply_frame {n} {p} block mtu h sized = elim (Bool-cases (leb 42 n)) [
  | inr few ↦
      let short : leb_int (pos 42) p.written_byte ≡ false = rw h.in_use few in rw (short, few) refl
  | inl many ↦
      let enough : leb_int (pos 42) p.written_byte ≡ true = rw h.in_use many in
      rw (enough, many)
        (elim (Bool-cases (Ethernet.get_protocol 0 p == ethertype_ip)) [
          | inr e ↦ rw e refl
          | inl e ↦ rw e (elim (Bool-cases (Ip.get_next_offset 14 p - 14 == 20)) [
            | inr k ↦ rw k refl
            | inl k ↦ rw k (
                ap (λ answer. answer >>= λ f. some (f ∷ []))
                  (too_big_reply-reply_frame h (ground arith) block sized mtu))
          ])
        ])
]

-- A receiver accepts both checksums of the answer, of its IPv4 header and of its ICMP message, if
-- the quoted part of the frame is 28 bytes.
pub reply_frame-Verifies :
    (m : List ℕ) (mtu : ℕ)
    → AllBytes (quoted m)
    → length (quoted m) ≡ 28
    → Verifies (store_ip (ip_reply m)) × Verifies (icmp_part m mtu)
unfolding reply_ip store16 htons store32
reply_frame-Verifies m mtu bytes size = (
  one_compl-Verifies (69 ∷ 0 ∷ 0 ∷ 56 ∷ 0 ∷ 0 ∷ 64 ∷ 0 ∷ 64 ∷ 1 ∷ [])
      (store32 (load32 (slice 30 4 m)) ++ store32 (load32 (slice 26 4 m))) tt (omega arith)
      (omega arith) (omega arith) (omega arith),
  one_compl-Verifies (3 ∷ 4 ∷ []) (0 ∷ 0 ∷ (store16 (htons mtu) ++ quoted m)) tt (omega arith)
      (omega arith, (omega arith, (omega arith, (omega arith, bytes)))) (omega (arith, size))
      (omega arith),
)
