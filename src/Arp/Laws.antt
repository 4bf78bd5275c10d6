-- ===== src/Arp/Laws.antt =====
-- class ARP: a whole message, after RFC 826, and what is read back from it.
use gateway_socket.Base.{
  ℕ, ◌+◌, ◌*◌, ◌/◌, ◌%◌, ◌^◌, ◌≤◌, ◌<◌, ◌≡◌, refl, sym, ap, ◌∙◌, some, List, [], ◌∷◌, ◌++◌,
  append_assoc, append-nil, pos, arith, length, length-grown, take-length, store16, store32, load16,
  load32, load32-store32, length-store32, htons, ntohs, slice, slice-splice_part,
}
use mathlib.Core.Option
use gateway_socket.Packet.{Packet, read_byte_array}
use gateway_socket.Packet.Laws.{
  Holds, write_inside, write_at, write_at-Holds, append_array, read_inside,
}
use gateway_socket.Arp.{
  ArpHeader, store_header, load_header, to_host, set_header, get_header, get_source_mac,
  get_destination_mac, set_source_mac, set_destination_mac, get_source_ip, get_destination_ip,
  set_source_ip, set_destination_ip,
}

-- The first eight bytes, with the high byte of each 16-bit field first.
abbrev pub header_bytes : ArpHeader → List ℕ
header_bytes h =
    h.ar_hrd / 256 % 256
    ∷ h.ar_hrd % 256
    ∷ h.ar_pro / 256 % 256
    ∷ h.ar_pro % 256
    ∷ h.ar_hln
    ∷ h.ar_pln
    ∷ h.ar_op / 256 % 256
    ∷ h.ar_op % 256
    ∷ []

-- An address is the word as it lies in memory.
pub record Message : Type 0 where
  pub header : ArpHeader
  pub source_mac : List ℕ
  pub source_ip : ℕ
  pub destination_mac : List ℕ
  pub destination_ip : ℕ

pub record IsMessage (m : Message) : Type 0 where
  pub source_size : length m.source_mac ≡ 6
  pub destination_size : length m.destination_mac ≡ 6
  pub source_word : m.source_ip < 2 ^ 32
  pub destination_word : m.destination_ip < 2 ^ 32
  pub hrd : m.header.ar_hrd < 65536
  pub pro : m.header.ar_pro < 65536
  pub op : m.header.ar_op < 65536

abbrev pub message_bytes : Message → List ℕ
message_bytes m =
    header_bytes m.header
    ++ (m.source_mac ++ (store32 m.source_ip ++ (m.destination_mac ++ store32 m.destination_ip)))

-- The setters in the order of the fields.
abbrev pub set_message : ℕ → Message → Packet → Packet
set_message offset m p = set_destination_ip offset m.destination_ip (
    set_destination_mac offset m.destination_mac (
      set_source_ip offset m.source_ip
        (set_source_mac offset m.source_mac (set_header offset m.header p))))

header_stored :
    (h : ArpHeader)
    → store_header
        (record h { ar_hrd = htons h.ar_hrd; ar_pro = htons h.ar_pro; ar_op = htons h.ar_op })
      ≡ header_bytes h
unfolding store16 htons
header_stored h = ground arith

back :
    (x : ℕ)
    → x < 65536
    → (x / 256 % 256 + 256 * (x % 256)) % 256 * 256 + (x / 256 % 256 + 256 * (x % 256)) / 256 % 256
      ≡ x
back x lt = omega (arith, lt)

header_loaded :
    (h : ArpHeader)
    → h.ar_hrd < 65536
    → h.ar_pro < 65536
    → h.ar_op < 65536
    → to_host (load_header (header_bytes h)) ≡ h
unfolding load16 ntohs
header_loaded h a b c = rw (back h.ar_hrd a, back h.ar_pro b, back h.ar_op c) refl

module _ {n : ℕ} {p : Packet} (h : Holds n p) (offset : ℕ) (m : Message) (v : IsMessage m)
    (room : offset + 28 ≤ n) where
  abbrev w1 : List ℕ
  w1 = header_bytes m.header ++ m.source_mac

  l1 : length w1 ≡ 14
  l1 = omega (arith, length-grown {k = 8} (header_bytes m.header) m.source_mac refl, v.source_size)

  abbrev w2 : List ℕ
  w2 = w1 ++ store32 m.source_ip

  l2 : length w2 ≡ 18
  l2 = omega (arith, length-grown w1 (store32 m.source_ip) l1, length-store32 m.source_ip)

  abbrev w3 : List ℕ
  w3 = w2 ++ m.destination_mac

  l3 : length w3 ≡ 24
  l3 = omega (arith, length-grown w2 m.destination_mac l2, v.destination_size)

  set_message-message_bytes : set_message offset m p ≡ write_at offset (message_bytes m) p
  unfolding set_header set_source_mac set_source_ip set_destination_mac set_destination_ip
  set_message-message_bytes =
      rw
        (
          header_stored m.header,
          write_inside h offset (offset + 8) (header_bytes m.header) (omega arith)
              (omega (arith, room)) (omega arith),
          append_array h offset (header_bytes m.header) (offset + 8) (offset + 8 + 6) m.source_mac
              m.source_mac (omega arith) (omega arith) (omega (arith, room))
              (take-length _ m.source_mac (omega (arith, v.source_size))),
          append_array h offset w1 (offset + 14) (offset + 14 + 4) (store32 m.source_ip)
              (store32 m.source_ip) (omega (arith, l1)) (omega arith) (omega (arith, room))
              (take-length _ (store32 m.source_ip) (omega (arith, length-store32 m.source_ip))),
          append_array h offset w2 (offset + 18) (offset + 18 + 6) m.destination_mac
              m.destination_mac (omega (arith, l2)) (omega arith) (omega (arith, room))
              (take-length _ m.destination_mac (omega (arith, v.destination_size))),
          append_array h offset w3 (offset + 24) (offset + 24 + 4) (store32 m.destination_ip)
              (store32 m.destination_ip) (omega (arith, l3)) (omega arith) (omega (arith, room))
              (take-length _ (store32 m.destination_ip)
                (omega (arith, length-store32 m.destination_ip))),
        )
        (ap (λ ws. write_at offset ws p) (simp append_assoc))

  block_size : offset + 28 ≤ length p.in_memory
  block_size = rw h.block (omega (arith, room, h.fits))

  abbrev written : Packet
  written = write_at offset (message_bytes m) p

  read_part :
      (from to k : ℕ) (pre bs post : List ℕ)
      → message_bytes m ≡ pre ++ (bs ++ post)
      → offset + length pre ≡ from
      → length bs ≡ k
      → from + k ≡ to
      → to ≤ offset + 28
      → read_byte_array (pos from) (pos to) written ≡ some bs
  read_part from to k pre bs post e le size end inside =
      read_inside (write_at-Holds h offset (message_bytes m)) from to (omega arith)
        (omega (arith, inside, room))
      ∙ ap (λ (d : ℕ). some (slice from d (write_at offset (message_bytes m) p).in_memory))
          (omega (arith, end))
      ∙ ap (λ ws. some (slice from k (write_at offset ws p).in_memory)) e
      ∙ ap some (
          slice-splice_part offset from k pre bs post p.in_memory le size
            (omega (arith, end, inside, block_size)))

  -- The setters of a message whose addresses and fields have their sizes write, at an offset with
  -- room for it, the 28 bytes of RFC 826 and nothing else, and the getters read back each field.
  pub set_message-getters :
      let q = set_message offset m p in
      (q ≡ write_at offset (message_bytes m) p)
      × (get_header offset q ≡ m.header)
      × (get_source_mac offset q ≡ some m.source_mac)
      × (get_source_ip offset q ≡ some m.source_ip)
      × (get_destination_mac offset q ≡ some m.destination_mac)
      × (get_destination_ip offset q ≡ some m.destination_ip)
  unfolding get_header get_source_mac get_source_ip get_destination_mac get_destination_ip
  set_message-getters = rw set_message-message_bytes (
    refl,
    rw
        (
          get_header,
          read_part offset (offset + 8) 8 [] (header_bytes m.header) _ refl (omega arith) refl
              (omega arith) (omega arith),
        )
        (header_loaded m.header v.hrd v.pro v.op),
    read_part (offset + 8) (offset + 8 + 6) 6 (header_bytes m.header) m.source_mac _ refl
        (omega arith) v.source_size (omega arith) (omega arith),
    ap (Option.map load32) (
          read_part (offset + 14) (offset + 14 + 4) 4 w1 (store32 m.source_ip)
            (m.destination_mac ++ store32 m.destination_ip)
            (sym (append_assoc (header_bytes m.header) m.source_mac _)) (omega (arith, l1))
            (length-store32 m.source_ip) (omega arith) (omega arith))
        ∙ ap some (load32-store32 m.source_ip v.source_word),
    read_part (offset + 18) (offset + 18 + 6) 6 w2 m.destination_mac (store32 m.destination_ip)
        (simp append_assoc) (omega (arith, l2)) v.destination_size (omega arith) (omega arith),
    ap (Option.map load32) (
          read_part (offset + 24) (offset + 24 + 4) 4 w3 (store32 m.destination_ip) []
            (simp (append_assoc, append-nil)) (omega (arith, l3)) (length-store32 m.destination_ip)
            (omega arith) (omega arith))
        ∙ ap some (load32-store32 m.destination_ip v.destination_word),
  )
