-- ===== src/Dhcp.antt =====
-- class DHCP (gateway-socket/dhcp.hh, dhcp.cpp): the DHCP message at `offset` in a packet, and the
-- reply that the gateway writes.
pub mod Reply
pub mod Laws
pub mod Message
use gateway_socket.Base.{
  ℕ, zero, suc, ◌+◌, ◌-◌, ◌*◌, ◌/◌, ◌%◌, Bool, true, false, if◌then◌else◌, Option, none, some, List,
  [], ◌∷◌, ◌++◌, ℤ, pos, negsuc, store16, store32, load32, length,
}
use mathlib.Core.Option
use gateway_socket.Packet.{Packet, read_byte_array, write_byte_array, read_byte, write_byte}

-- A `char` in C; the program compares it with 1 only, so the sign of a byte above 127 is left out.
unfoldable pub get_opcode : ℕ → Packet → ℤ
get_opcode offset p = read_byte (pos offset) p

unfoldable pub get_transaction_id : ℕ → Packet → Option ℕ
get_transaction_id offset p =
    Option.map load32 (read_byte_array (pos (offset + 4)) (pos (offset + 8)) p)

unfoldable pub get_client_mac : ℕ → Packet → Option (List ℕ)
get_client_mac offset p = read_byte_array (pos (offset + 28)) (pos (offset + 34)) p

-- The value of the first option, which is taken for the message type.
unfoldable pub get_message_type : ℕ → Packet → ℤ
get_message_type offset p = read_byte (pos (offset + 242)) p

-- The packet and `current_offset` of writeResponse.
pub record Cursor : Type 0 where
  pub packet : Packet
  pub current_offset : ℕ

abbrev pub Writer : Type 0
Writer = Cursor → Cursor

infixl 5 ◌>>◌
abbrev pub ◌>>◌ : Writer → Writer → Writer
◌>>◌ w v c = v (w c)

-- `packet->writeByte(current_offset++, b)`
pub put_byte : ℕ → Writer
put_byte b c = record {
  packet = write_byte (pos c.current_offset) b c.packet;
  current_offset = c.current_offset + 1;
}

-- `packet->writeByteArray(current_offset, current_offset+k, &x); current_offset += k;`
pub put_array : ℕ → List ℕ → Writer
put_array k bytes c = record {
  packet = write_byte_array (pos c.current_offset) (pos (c.current_offset + k)) bytes c.packet;
  current_offset = c.current_offset + k;
}

-- `for(int i=from; i<from+k; i++) packet->writeByte(i, 0);`
pub zero_from : ℕ → ℕ → Packet → Packet
zero_from zero i p = p
zero_from (suc k) i p = zero_from k (i + 1) (write_byte (pos i) 0 p)

pub zeros : ℕ → Writer
zeros k c = record c { packet = zero_from k c.current_offset c.packet }

pub advance : ℕ → Writer
advance k c = record c { current_offset = c.current_offset + k }

-- The loop over `dns_vector`.
pub put_dns : List ℕ → Writer
unfolding put_array
put_dns [] c = c
put_dns (dns ∷ rest) c = put_dns rest (put_array 4 (store32 dns) c)

pub record Response : Type 0 where
  pub discover : Bool
  pub mtu : ℕ
  pub transaction_id : ℕ
  pub client_in_addr : ℕ
  pub client_ether_addr : List ℕ
  pub server_identifier : ℕ
  pub subnet_mask : ℕ
  pub router : ℕ
  pub dns_vector : List ℕ
  pub lease_time : ℕ

-- Up to the server's address, which is zeroed.
pub write_start : Response → Writer
unfolding put_byte put_array zeros advance
write_start r =
    put_byte 2
    >> put_byte 1
    >> put_byte 6
    >> put_byte 0
    >> put_array 4 (store32 r.transaction_id)
    >> zeros 8
    >> advance 8
    >> put_array 4 (store32 r.client_in_addr)
    >> zeros 4

-- From the client's hardware address on.
pub write_rest : Response → Writer
unfolding put_byte put_array zeros advance put_dns
write_rest r =
    put_array 6 r.client_ether_addr
    >> zeros 10
    >> advance 10
    >> zeros (64 + 128)
    >> advance (64 + 128)
    >> put_byte 99
    >> put_byte 130
    >> put_byte 83
    >> put_byte 99
    >> put_byte 53
    >> put_byte 1
    >> put_byte (if r.discover then 2 else 5)
    >> put_byte 54
    >> put_byte 4
    >> put_array 4 (store32 r.server_identifier)
    >> put_byte 51
    >> put_byte 4
    >> put_array 4 (store32 r.lease_time)
    >> put_byte 1
    >> put_byte 4
    >> put_array 4 (store32 r.subnet_mask)
    >> put_byte 3
    >> put_byte 4
    >> put_array 4 (store32 r.router)
    >> put_byte 26
    >> put_byte 2
    >> put_array 2 (store16 r.mtu)
    >> put_byte 6
    >> put_byte (length r.dns_vector * 4)
    >> put_dns r.dns_vector
    >> put_byte 255

unfoldable pub write_response : Packet → ℕ → Response → Packet × ℕ
write_response p offset r =
    let start : Cursor = record { packet = p; current_offset = offset } in
    let end = (write_start r >> advance 8 >> write_rest r) start in
    (end.packet, end.current_offset - offset)
