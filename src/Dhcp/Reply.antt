-- ===== src/Dhcp/Reply.antt =====
-- DHCP::writeResponse: the bytes of the reply.
pub mod Writers
use gateway_socket.Base.{
  ℕ, zero, suc, ◌+◌, ◌-◌, ◌*◌, ◌%◌, ◌≤◌, ◌<◌, ◌≡◌, refl, ap, ap₂, ◌∙◌, sym, subst, Bool, true,
  false, if◌then◌else◌, List, [], ◌∷◌, ◌++◌, append_assoc, append-nil, store16, store32, length,
  length-append, length-grown, length-store32, length-replicate, replicate, take-length, arith,
  splice-nil,
}
use gateway_socket.Packet.{Packet}
use gateway_socket.Packet.Laws.{Holds, write_at, write_at-Holds, append_array, append_byte}
use gateway_socket.Dhcp.{
  Cursor, Writer, ◌>>◌, put_byte, put_array, zero_from, zeros, advance, put_dns, Response,
  write_start, write_rest, write_response,
}
use gateway_socket.Dhcp.Reply.Writers.{
  at, Emits, ◌>>>◌, unwritten, byte, array, zeros_unmoved, zeros-advance, dns_bytes,
  length-dns_bytes, dns_array,
}

-- RFC 2131: operation, hardware type and length, hops; transaction; seconds, flags and the client's
-- address; the address offered; the server's address.
abbrev pub reply_start : Response → List ℕ
reply_start r =
    2
    ∷ 1
    ∷ 6
    ∷ 0
    ∷ (store32 r.transaction_id ++ (replicate 8 0 ++ (store32 r.client_in_addr ++ replicate 4 0)))

write_start_lem :
    (n : ℕ) (p : Packet) (offset : ℕ) (r : Response)
    → Holds n p
    → offset + 24 ≤ n
    → write_start r (at p offset) ≡ at (write_at offset (reply_start r) p) (offset + 20)
unfolding write_start store32
write_start_lem n p offset r h le =
    ap (λ q. write_start r (at q offset)) (sym (unwritten offset p))
    ∙ ap (zeros 4) (up_to.emits n p offset [] offset h (omega arith) (omega arith))
    ∙ zeros_unmoved 4 n p offset front (offset + 20) h (omega arith) (omega arith)
  where
    front : List ℕ
    front =
        2 ∷ 1 ∷ 6 ∷ 0 ∷ (store32 r.transaction_id ++ (replicate 8 0 ++ store32 r.client_in_addr))

    up_to :
        Emits
          (λ c. put_array 4 (store32 r.client_in_addr) (
            advance 8 (
              zeros 8 (
                put_array 4
                  (store32 r.transaction_id)
                  (put_byte 0 (put_byte 6 (put_byte 1 (put_byte 2 c))))))))
          front
    up_to =
        zeros-advance 8
          (byte 2 >>> byte 1 >>> byte 6 >>> byte 0 >>> array 4 (store32 r.transaction_id) refl)
        >>> array 4 (store32 r.client_in_addr) refl

abbrev pub reply_type : Response → ℕ
reply_type r = if r.discover then 2 else 5

-- RFC 2132: an option is its code, the length of its value, and the value.
abbrev pub option : ℕ → List ℕ → List ℕ
option code value = code ∷ length value ∷ value

-- The client's hardware address, the server's name and the boot file, the magic cookie, and the
-- options, in the program's order.
abbrev pub reply_rest : Response → List ℕ
reply_rest r =
    r.client_ether_addr
    ++ (replicate 10 0
        ++ (replicate 192 0
            ++ (99 ∷ 130 ∷ 83 ∷ 99 ∷ []
                ++ (option 53 (reply_type r ∷ [])
                    ++ (option 54 (store32 r.server_identifier)
                        ++ (option 51 (store32 r.lease_time)
                            ++ (option 1 (store32 r.subnet_mask)
                                ++ (option 3 (store32 r.router)
                                    ++ (option 26 (store16 r.mtu)
                                        ++ (option 6 (dns_bytes r.dns_vector) ++ 255 ∷ []))))))))))

type_byte : (b : Bool) → Emits (put_byte (if b then 2 else 5)) ((if b then 2 else 5) ∷ [])
type_byte true = byte 2
type_byte false = byte 5

dns_count : (dns : List ℕ) → length dns < 64 → length dns * 4 % 256 ≡ length (dns_bytes dns)
dns_count dns h = omega (arith, length-dns_bytes dns)

write_rest-Emits :
    (r : Response)
    → length r.client_ether_addr ≡ 6
    → length r.dns_vector < 64
    → Emits (write_rest r) (reply_rest r)
unfolding write_rest store32 store16
write_rest-Emits r mac few =
    subst (Emits (write_rest r)) (simp (append_assoc, dns_count r.dns_vector few)) (
      zeros-advance 192 (zeros-advance 10 (array 6 r.client_ether_addr mac))
      >>> byte 99
      >>> byte 130
      >>> byte 83
      >>> byte 99
      >>> byte 53
      >>> byte 1
      >>> type_byte r.discover
      >>> byte 54
      >>> byte 4
      >>> array 4 (store32 r.server_identifier) refl
      >>> byte 51
      >>> byte 4
      >>> array 4 (store32 r.lease_time) refl
      >>> byte 1
      >>> byte 4
      >>> array 4 (store32 r.subnet_mask) refl
      >>> byte 3
      >>> byte 4
      >>> array 4 (store32 r.router) refl
      >>> byte 26
      >>> byte 2
      >>> array 2 (store16 r.mtu) refl
      >>> byte 6
      >>> byte (length r.dns_vector * 4)
      >>> dns_array r.dns_vector
      >>> byte 255)

pub length-reply_rest :
    (r : Response)
    → length r.client_ether_addr ≡ 6
    → length (reply_rest r) ≡ 246 + 4 * length r.dns_vector
unfolding store32 store16
length-reply_rest r mac = omega (
  arith,
  length-grown r.client_ether_addr _ mac,
  length-append (dns_bytes r.dns_vector) (255 ∷ []),
  length-dns_bytes r.dns_vector,
)

-- The reply to a client whose address has six bytes, with at most 63 name servers and room for it:
-- the 24 bytes up to the server's address and the bytes from the client's hardware address on are
-- written, with the lease time in the byte order of the host, and the length is 274 bytes and four for
-- each name server.
pub write_response-reply :
    (n : ℕ) (p : Packet) (offset : ℕ) (r : Response)
    → Holds n p
    → length r.client_ether_addr ≡ 6
    → length r.dns_vector < 64
    → offset + 274 + 4 * length r.dns_vector ≤ n
    → write_response p offset r ≡ (
      write_at (offset + 28) (reply_rest r) (write_at offset (reply_start r) p),
      274 + 4 * length r.dns_vector,
    )
unfolding write_response advance
write_response-reply n p offset r h mac few room =
    ap (λ (c : Cursor). (c.packet, c.current_offset - offset)) ended
    ∙ ap (λ (k : ℕ). (written, k)) (omega (arith, sized))
  where
    start : Packet
    start = write_at offset (reply_start r) p

    start-Holds : Holds n start
    start-Holds = write_at-Holds h offset (reply_start r)

    written : Packet
    written = write_at (offset + 28) (reply_rest r) start

    sized : length (reply_rest r) ≡ 246 + 4 * length r.dns_vector
    sized = length-reply_rest r mac

    rest : Emits (write_rest r) (reply_rest r)
    rest = write_rest-Emits r mac few

    ended :
        (write_start r >> advance 8 >> write_rest r) (at p offset)
        ≡ at written (offset + 28 + length (reply_rest r))
    ended =
        ap (λ c. write_rest r (advance 8 c)) (write_start_lem n p offset r h (omega arith))
        ∙ ap₂ (λ q (k : ℕ). write_rest r (at q k)) (sym (unwritten (offset + 28) start))
            (omega arith)
        ∙ rest.emits n start (offset + 28) [] (offset + 28) start-Holds (omega arith)
            (omega (arith, sized))
