-- ===== src/Dhcp/Laws.antt =====
-- class DHCP: what a reader of the gateway's reply finds in it, and the bytes that it leaves alone.
use gateway_socket.Base.{
  ℕ, ◌+◌, ◌*◌, ◌^◌, ◌≤◌, ◌<◌, ◌≡◌, refl, sym, ap, ◌∙◌, if◌then◌else◌, some, List, [], ◌∷◌, ◌++◌,
  append_assoc, pos, store16, store32, load32, load32-store32, length, length-grown, replicate,
  arith, slice, slice-splice_part, slice-splice_before, slice-splice_after, length-splice,
  slice_one,
}
use gateway_socket.Packet.{Packet, read_byte_array}
use gateway_socket.Packet.Laws.{Holds, write_at, write_at-Holds, read_inside, read_byte_inside}
use gateway_socket.Dhcp.{
  Response, write_response, get_opcode, get_transaction_id, get_client_mac, get_message_type,
}
use mathlib.Core.Option
use gateway_socket.Dhcp.Reply.{reply_start, reply_rest, reply_type, option, write_response-reply}
use gateway_socket.Dhcp.Reply.Writers.{dns_bytes}

-- The reply behind the message type.
abbrev after_type : Response → List ℕ
after_type r =
    option 54 (store32 r.server_identifier)
    ++ (option 51 (store32 r.lease_time)
        ++ (option 1 (store32 r.subnet_mask)
            ++ (option 3 (store32 r.router)
                ++ (option 26 (store16 r.mtu) ++ (option 6 (dns_bytes r.dns_vector) ++ 255 ∷ [])))))

abbrev before_type : Response → List ℕ
before_type r =
    r.client_ether_addr ++ (replicate 10 0 ++ (replicate 192 0 ++ 99 ∷ 130 ∷ 83 ∷ 99 ∷ 53 ∷ 1 ∷ []))

split_rest : (r : Response) → reply_rest r ≡ before_type r ++ (reply_type r ∷ [] ++ after_type r)
split_rest r = simp append_assoc

read_slice :
    {n : ℕ} {p : Packet}
    → Holds n p
    → (i j k : ℕ) → i + k ≡ j
    → j ≤ n
    → read_byte_array (pos i) (pos j) p ≡ some (slice i k p.in_memory)
read_slice {p = p} h i j k e le =
    read_inside h i j (omega arith) le ∙ ap (λ (d : ℕ). some (slice i d p.in_memory)) (omega arith)

module _ (n : ℕ) (p : Packet) (offset : ℕ) (r : Response) (h : Holds n p)
    (mac : length r.client_ether_addr ≡ 6) (few : length r.dns_vector < 64)
    (room : offset + 274 + 4 * length r.dns_vector ≤ n) where
  start : Packet
  start = write_at offset (reply_start r) p

  written : Packet
  unfolding start
  written = write_at (offset + 28) (reply_rest r) start

  written-Holds : Holds n written
  unfolding written start
  written-Holds =
      write_at-Holds (write_at-Holds h offset (reply_start r)) (offset + 28) (reply_rest r)

  block_size : n ≤ length p.in_memory
  block_size = rw h.block h.fits

  start_size : n ≤ length start.in_memory
  unfolding start
  start_size = rw (length-splice offset (reply_start r) p.in_memory, h.block) h.fits

  transaction_bytes : slice (offset + 4) 4 written.in_memory ≡ store32 r.transaction_id
  unfolding written start store32
  transaction_bytes =
      slice-splice_before (offset + 28) (offset + 4) 4 (reply_rest r) start.in_memory (omega arith)
      ∙ slice-splice_part offset (offset + 4) 4 (2 ∷ 1 ∷ 6 ∷ 0 ∷ []) (store32 r.transaction_id)
          (replicate 8 0 ++ (store32 r.client_in_addr ++ replicate 4 0)) p.in_memory refl refl
          (omega (arith, block_size))

  client_bytes : slice (offset + 28) 6 written.in_memory ≡ r.client_ether_addr
  unfolding written
  client_bytes =
      slice-splice_part (offset + 28) (offset + 28) 6 [] r.client_ether_addr _ start.in_memory
        (omega arith) mac (omega (arith, start_size))

  type_bytes : slice (offset + 242) 1 written.in_memory ≡ reply_type r ∷ []
  unfolding written
  type_bytes = rw (split_rest r) (
      slice-splice_part (offset + 28) (offset + 242) 1 (before_type r) (reply_type r ∷ [])
        (after_type r) start.in_memory
        (omega (
          arith,
          length-grown r.client_ether_addr
              (replicate 10 0 ++ (replicate 192 0 ++ 99 ∷ 130 ∷ 83 ∷ 99 ∷ 53 ∷ 1 ∷ [])) mac,
        ))
        refl (omega (arith, start_size)))

  opcode_bytes : slice offset 1 written.in_memory ≡ 2 ∷ []
  unfolding written start store32
  opcode_bytes =
      slice-splice_before (offset + 28) offset 1 (reply_rest r) start.in_memory (omega arith)
      ∙ slice-splice_part offset offset 1 [] (2 ∷ []) _ p.in_memory (omega arith) refl
          (omega (arith, block_size))

  -- Between the server's address and the client's hardware address.
  gap_bytes : slice (offset + 24) 4 written.in_memory ≡ slice (offset + 24) 4 p.in_memory
  unfolding written start store32
  gap_bytes =
      slice-splice_before (offset + 28) (offset + 24) 4 (reply_rest r) start.in_memory (omega arith)
      ∙ slice-splice_after offset (offset + 24) 4 (reply_start r) p.in_memory (omega arith)

  written_lem : (write_response p offset r).0 ≡ written
  unfolding written start
  written_lem = ap (λ (q, k). q) (write_response-reply n p offset r h mac few room)

-- What the class's own getters read from a reply that was written with room for it, to a client whose
-- address has six bytes and with at most 63 name servers: operation 2, the transaction, the client, and
-- the type, an offer (2) for a discovery and an acknowledgement (5) for a request.
pub write_response-getters :
    (n : ℕ) (p : Packet) (offset : ℕ) (r : Response)
    → Holds n p
    → length r.client_ether_addr ≡ 6
    → length r.dns_vector < 64
    → offset + 274 + 4 * length r.dns_vector ≤ n
    → r.transaction_id < 2 ^ 32
    → let q = (write_response p offset r).0 in
      (get_opcode offset q ≡ pos 2)
      × (get_transaction_id offset q ≡ some r.transaction_id)
      × (get_client_mac offset q ≡ some r.client_ether_addr)
      × (get_message_type offset q ≡ pos (if r.discover then 2 else 5))
unfolding get_opcode get_transaction_id get_client_mac get_message_type
write_response-getters n p offset r h mac few room word =
    let kept = written-Holds n p offset r h mac few room in
    rw (written_lem n p offset r h mac few room) (
      read_byte_inside kept offset (omega arith)
          ∙ ap pos (slice_one offset 2 _ (opcode_bytes n p offset r h mac few room)),
      ap (Option.map load32) (
            read_slice kept (offset + 4) (offset + 8) 4 (omega arith) (omega arith)
            ∙ ap some (transaction_bytes n p offset r h mac few room))
          ∙ ap some (load32-store32 r.transaction_id word),
      read_slice kept (offset + 28) (offset + 34) 6 (omega arith) (omega arith)
          ∙ ap some (client_bytes n p offset r h mac few room),
      read_byte_inside kept (offset + 242) (omega arith)
          ∙ ap pos
              (slice_one (offset + 242) (reply_type r) _ (type_bytes n p offset r h mac few room)),
    )

-- A reply written with room for it, to a client whose address has six bytes and with at most 63
-- name servers: the four bytes of the relay agent's address are not written, and are those that
-- the packet held.
pub write_response-relay :
    (n : ℕ) (p : Packet) (offset : ℕ) (r : Response)
    → Holds n p
    → length r.client_ether_addr ≡ 6
    → length r.dns_vector < 64
    → offset + 274 + 4 * length r.dns_vector ≤ n
    → read_byte_array (pos (offset + 24)) (pos (offset + 28)) (write_response p offset r).0
      ≡ read_byte_array (pos (offset + 24)) (pos (offset + 28)) p
write_response-relay n p offset r h mac few room =
    let kept = written-Holds n p offset r h mac few room in
    rw (written_lem n p offset r h mac few room) (
      read_slice kept (offset + 24) (offset + 28) 4 (omega arith) (omega arith)
      ∙ ap some (gap_bytes n p offset r h mac few room)
      ∙ sym (read_slice h (offset + 24) (offset + 28) 4 (omega arith) (omega arith)))
