-- ===== src/Gateway/Buffer.antt =====
-- Gateway::serve: the packet buffers of the loops, and that what the loops read lies in them.
use gateway_socket.Base.{
  false, ℕ, ◌+◌, ◌≤◌, ◌<◌, ◌≡◌, refl, sym, ◌∙◌, inl, inr, Option, some, List, true, Bool-cases, pos,
  ℤ, zero, suc, [], ◌∷◌, ap, splice, get_or, arith, length, length-splice, eq_int, leb, find,
}
use gateway_socket.Packet.{
  Packet, read_byte_array, write_byte_array, read_byte, set_length, outside, reversed,
}
use gateway_socket.Packet.Laws.{read_byte_inside, Holds, read_inside, beyond_past}
use gateway_socket.Requests.{UserInfo}
use gateway_socket.Ip
use gateway_socket.Gateway.Tables.{Tables, received}

-- `Packet inPacket(MY_PACKET_LEN)`, with any bytes in use.
pub record IsBuffer (p : Packet) : Type 0 where
  pub capacity : p.capacity ≡ 1514
  pub block : length p.in_memory ≡ 1514

pub received-Holds :
    (frame : List ℕ) (p : Packet) (n : ℕ)
    → IsBuffer p
    → n ≤ 1514
    → Holds n (set_length (pos n) (received frame p))
unfolding set_length
received-Holds frame p n b le = record {
  in_use = refl;
  fits = rw b.capacity le;
  block = length-splice 0 frame p.in_memory ∙ b.block ∙ sym b.capacity;
}

get_or-received :
    (i : ℕ) (frame m : List ℕ)
    → i < length frame
    → i < length m
    → get_or (splice 0 frame m) i 0 ≡ get_or frame i 0
unfolding splice
get_or-received i [] m lt fits = absurd (omega arith)
get_or-received i (b ∷ frame) [] lt fits = absurd (omega arith)
get_or-received zero (b ∷ frame) (x ∷ m) lt fits = refl
get_or-received (suc i) (b ∷ frame) (x ∷ m) lt fits =
    get_or-received i frame m (omega arith) (omega arith)

-- A byte of the frame that was read.
pub read_byte-received :
    (frame : List ℕ) (p : Packet) (i : ℕ)
    → IsBuffer p
    → length frame ≤ 1514
    → i < length frame
    → read_byte (pos i) (set_length (pos (length frame)) (received frame p))
      ≡ pos (get_or frame i 0)
unfolding set_length
read_byte-received frame p i b le lt =
    read_byte_inside (received-Holds frame p (length frame) b le) i lt
    ∙ ap pos (get_or-received i frame p.in_memory lt (omega (arith, b.block)))

pub received-IsBuffer :
    (frame : List ℕ) (p : Packet) (z : ℤ) → IsBuffer p → IsBuffer (set_length z (received frame p))
unfolding set_length
received-IsBuffer frame p z b = record {
  capacity = b.capacity;
  block = length-splice 0 frame p.in_memory ∙ b.block;
}

pub write-IsBuffer :
    (from to : ℤ) (bs : List ℕ) (p : Packet)
    → reversed from to ≡ false
    → IsBuffer p
    → IsBuffer (write_byte_array from to bs p)
unfolding write_byte_array
write-IsBuffer from to bs p straight_range b = elim (Bool-cases (outside from to p)) [
  | inl e ↦ rw e b
  | inr e ↦
      rw (e, straight_range)
        (record { capacity = b.capacity; block = length-splice _ _ p.in_memory ∙ b.block })
]

-- Every user's address is a static address: the program takes that for granted.
abbrev pub IsBacked : Tables → Type 0
IsBacked t =
    (ip : ℕ) (user : UserInfo)
    → find ip t.user_map ≡ some user
    → (mac : List ℕ) × (find ip t.static_ip_map ≡ some mac)

abbrev pub Known {ℓ} : {A : Type ℓ} → Option A → Type ℓ
Known {A = A} o = (a : A) × (o ≡ some a)

module _ {n : ℕ} {p : Packet} (h : Holds n p) where
  pub read-Known : (i j : ℕ) → i ≤ j → j ≤ n → Known (read_byte_array (pos i) (pos j) p)
  read-Known i j up le = (_, read_inside h i j up le)

  -- A byte that is equal to a constant is one in use.
  pub read_byte-lt : (i k : ℕ) → eq_int (read_byte (pos i) p) k ≡ true → i < n
  unfolding read_byte
  read_byte-lt i k e = elim (Bool-cases (leb n i)) [
    | inr inside ↦ ground arith
    | inl past ↦ ground (arith, beyond_past h i)
  ]

-- The payload of an IPv4 packet is at least 20 bytes behind the start of the header.
pub get_next_offset-le : (offset : ℕ) (p : Packet) → offset + 20 ≤ Ip.get_next_offset offset p
unfolding Ip.get_next_offset
get_next_offset-le offset p = ground arith
