-- ===== src/Packet.antt =====
-- class Packet (gateway-socket/packet.hh, packet.cpp): a buffer from `malloc` and the number of its
-- bytes that are in use. Its indices are C `int`s.
pub mod Laws
use Prim.Native.Nat.{bit_and}
use gateway_socket.Base.{
  ℕ, ◌+◌, ◌-◌, ◌*◌, ◌/◌, ◌%◌, ◌^◌, Bool, ◌||◌, not, ltb, leb, if◌then◌else◌, Option, none, some,
  List, [], ◌∷◌, ℤ, pos, negsuc, is_negative, leb_int, to_ℕ, take, get_or, slice, splice,
}

pub record Packet : Type 0 where
  pub written_byte : ℤ
  pub capacity : ℕ
  pub in_memory : List ℕ

-- The constructor. `block` is what `malloc(capacity)` returns; without memory the program exits.
unfoldable pub make : (block : Option (List ℕ)) → ℕ → Option Packet
make none capacity = none
make (some block) capacity =
    some (record { written_byte = pos 0; capacity = capacity; in_memory = block })

unfoldable pub set_length : ℤ → Packet → Packet
set_length n p = record p { written_byte = n }

-- `memcpy` from a caller's buffer that holds the bytes `bytes`; -1 if they do not fit.
pub set_data : List ℕ → ℕ → Packet → Packet × ℤ
set_data bytes n p =
    if ltb p.capacity n
    then (p, negsuc 0)
    else (record p { written_byte = pos n; in_memory = splice 0 (take n bytes) p.in_memory }, pos n)

-- `none` is the exit on an index out of bound.
pub read_bit : ℤ → Packet → Option Bool
read_bit index p =
    if is_negative index || leb_int (pos (p.capacity * 8)) index
    then none
    else some (ltb 0 (bit_and target probe))
  where
    target : ℕ
    target = get_or p.in_memory (to_ℕ index / 8) 0

    probe : ℕ
    probe = 2 ^ (7 - to_ℕ index % 8)

-- Both array functions do nothing unless the range lies in the bytes in use.
abbrev pub outside : ℤ → ℤ → Packet → Bool
outside from to p = is_negative from || not (leb_int to p.written_byte)

-- A range that ends before it starts is a copy of negative size: undefined behaviour.
abbrev pub reversed : ℤ → ℤ → Bool
reversed from to = not (leb_int from to)

-- `none`: the caller's buffer keeps what it held, or holds what nobody knows.
unfoldable pub read_byte_array : ℤ → ℤ → Packet → Option (List ℕ)
read_byte_array from to p =
    if outside from to p
    then none
    else if reversed from to
    then none
    else some (slice (to_ℕ from) (to_ℕ to - to_ℕ from) p.in_memory)

-- Behind undefined behaviour the packet has no block any more, so that nothing holds of it.
unfoldable pub write_byte_array : ℤ → ℤ → List ℕ → Packet → Packet
write_byte_array from to buffer p =
    if outside from to p
    then p
    else if reversed from to
    then record p { in_memory = [] }
    else record p { in_memory = splice (to_ℕ from) (take (to_ℕ to - to_ℕ from) buffer) p.in_memory }

-- Both byte functions do nothing unless the index is one of a byte in use.
abbrev pub beyond : ℤ → Packet → Bool
beyond index p = is_negative index || leb_int p.written_byte index

unfoldable pub read_byte : ℤ → Packet → ℤ
read_byte index p = if beyond index p then negsuc 0 else pos (get_or p.in_memory (to_ℕ index) 0)

unfoldable pub write_byte : ℤ → ℕ → Packet → Packet
write_byte index byte p =
    if beyond index p
    then p
    else record p { in_memory = splice (to_ℕ index) (byte % 256 ∷ []) p.in_memory }

abbrev pub get_length : Packet → ℤ
get_length p = p.written_byte

abbrev pub get_capacity : Packet → ℕ
get_capacity p = p.capacity
