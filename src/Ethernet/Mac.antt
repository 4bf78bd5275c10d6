-- ===== src/Ethernet/Mac.antt =====
-- Ethernet::printMAC and Ethernet::readMAC (gateway-socket/ethernet.cpp). A text is the list of its
-- character codes, with no 0 among them.
pub mod Laws
use mathlib.Core.Option
use Prim.Native.Nat.{bit_or}
use gateway_socket.Base.{
  ℕ, zero, suc, ◌+◌, ◌-◌, ◌*◌, ◌/◌, ◌%◌, ◌≤◌, ◌<◌, ◌≡◌, refl, ap, ◌∙◌, sym, Bool, true, false, ◌&&◌,
  leb, ltb, ◌==◌, ==_iff, if◌then◌else◌, Option, none, some, Option-cases, List, [], ◌∷◌, ◌++◌,
  arith, length, take, inl, inr,
}

-- `none` is the result -1.
unfoldable pub hex_to_byte : ℕ → Option ℕ
hex_to_byte hex =
    if leb b'a' hex && leb hex b'f'
    then some (hex + 10 - b'a')
    else if leb b'A' hex && leb hex b'F'
    then some (hex + 10 - b'A')
    else if leb b'0' hex && leb hex b'9'
    then some (hex - b'0')
    else none

-- The loop of `readMAC`: the text left, the bytes of the address left, `go_next`, and `*start`.
-- `none`: the text ends before the address is full, and the loop runs on behind its end.
unfoldable pub read_loop : List ℕ → ℕ → Bool → ℕ → Option (List ℕ)
read_loop buf zero go_next start = some []
read_loop [] (suc left) go_next start = none
read_loop (c ∷ buf) (suc left) false start = elim (hex_to_byte c) [
  | none ↦ read_loop buf (suc left) false start
  | some ret ↦ read_loop buf (suc left) true (bit_or start (ret * 16 % 256))
]
read_loop (c ∷ buf) (suc left) true start = elim (hex_to_byte c) [
  | none ↦ read_loop buf (suc left) true start
  | some ret ↦ Option.map (◌∷◌ (bit_or start ret)) (read_loop buf left false 0)
]

unfoldable pub read_mac : List ℕ → Option (List ℕ)
read_mac buf = read_loop buf 6 false 0

-- A digit as "%X" prints it.
pub hex_digit : ℕ → ℕ
hex_digit d = if ltb d 10 then b'0' + d else b'A' + (d - 10)

-- "%02X" of each byte, with colons between them.
pub print_octets : List ℕ → List ℕ
unfolding hex_digit
print_octets [] = []
print_octets (x ∷ []) = hex_digit (x / 16) ∷ hex_digit (x % 16) ∷ []
print_octets (x ∷ y ∷ xs) = hex_digit (x / 16) ∷ hex_digit (x % 16) ∷ b':' ∷ print_octets (y ∷ xs)

-- `snprintf` writes at most `len - 1` characters.
unfoldable pub print_mac : List ℕ → ℕ → List ℕ
unfolding print_octets
print_mac addr len = take (len - 1) (print_octets addr)
