-- ===== src/Packet/Laws.antt =====
-- class Packet: reads and writes within the bytes in use, and outside of them.
use gateway_socket.Base.{
  ℕ, ◌+◌, ◌-◌, ◌%◌, ◌++◌, ◌∷◌, [], ltb, if◌then◌else◌, ap, take, get_or, splice_adjacent, ◌≤◌, ◌<◌,
  ◌≡◌, refl, ◌∙◌, true, false, inl, inr, Bool-cases, ℤ, none, some, List, pos, arith, length, slice,
  splice, take-length, length-splice,
}
use gateway_socket.Packet.{
  Packet, set_data, read_byte_array, write_byte_array, write_byte, read_byte, outside, beyond,
  reversed,
}

-- The packet has `n` bytes in use, and they lie in its block of memory.
pub record Holds (n : ℕ) (p : Packet) : Type 0 where
  pub in_use : p.written_byte ≡ pos n
  pub fits : n ≤ p.capacity
  pub block : length p.in_memory ≡ p.capacity

abbrev pub write_at : ℕ → List ℕ → Packet → Packet
write_at i bs p = record p { in_memory = splice i bs p.in_memory }

module _ {n : ℕ} {p : Packet} (h : Holds n p) where
  pub outside_inside : (i j : ℕ) → j ≤ n → outside (pos i) (pos j) p ≡ false
  outside_inside i j le = rw h.in_use (ground arith)

  pub straight : (i j : ℕ) → i ≤ j → reversed (pos i) (pos j) ≡ false
  straight i j le = ground arith

  pub outside_beyond : (i j : ℕ) → n < j → outside (pos i) (pos j) p ≡ true
  outside_beyond i j lt = rw h.in_use (ground arith)

  pub beyond_inside : (i : ℕ) → i < n → beyond (pos i) p ≡ false
  beyond_inside i lt = rw h.in_use (ground arith)

  pub beyond_past : (i : ℕ) → n ≤ i → beyond (pos i) p ≡ true
  beyond_past i le = rw h.in_use (ground arith)

  pub read_byte_inside : (i : ℕ) → i < n → read_byte (pos i) p ≡ pos (get_or p.in_memory i 0)
  unfolding read_byte
  read_byte_inside i lt = rw (beyond_inside i lt) refl

  pub read_inside :
      (i j : ℕ)
      → i ≤ j
      → j ≤ n
      → read_byte_array (pos i) (pos j) p ≡ some (slice i (j - i) p.in_memory)
  unfolding read_byte_array
  read_inside i j up le = rw (outside_inside i j le, straight i j up) refl

  pub read_beyond : (i j : ℕ) → n < j → read_byte_array (pos i) (pos j) p ≡ none
  unfolding read_byte_array
  read_beyond i j lt = rw (outside_beyond i j lt) refl

  pub write_inside :
      (i j : ℕ) (bs : List ℕ)
      → i ≤ j
      → j ≤ n
      → length bs ≡ j - i
      → write_byte_array (pos i) (pos j) bs p ≡ write_at i bs p
  unfolding write_byte_array
  write_inside i j bs up le e =
      rw (outside_inside i j le, straight i j up, take-length (j - i) bs (omega arith)) refl

  pub write_beyond : (i j : ℕ) (bs : List ℕ) → n < j → write_byte_array (pos i) (pos j) bs p ≡ p
  unfolding write_byte_array
  write_beyond i j bs lt = rw (outside_beyond i j lt) refl

  pub write_at-Holds : (i : ℕ) (bs : List ℕ) → Holds n (write_at i bs p)
  write_at-Holds i bs = record {
    in_use = h.in_use;
    fits = h.fits;
    block = length-splice i bs p.in_memory ∙ h.block;
  }

-- Writing on behind what was written from `base`: two writes are one.
module _ {n : ℕ} {p : Packet} (h : Holds n p) (base : ℕ) (ws : List ℕ) where
  pub append_array :
      (i j : ℕ) (buffer bs : List ℕ)
      → base + length ws ≡ i
      → i ≤ j
      → j ≤ n
      → take (j - i) buffer ≡ bs
      → write_byte_array (pos i) (pos j) buffer (write_at base ws p) ≡ write_at base (ws ++ bs) p
  unfolding write_byte_array
  append_array i j buffer bs e up le t =
      rw (outside_inside (write_at-Holds h base ws) i j le, straight h i j up, t)
        (ap (λ m. record p { in_memory = m }) (splice_adjacent base i ws bs p.in_memory e))

  pub append_byte :
      (i b : ℕ)
      → base + length ws ≡ i
      → i < n
      → write_byte (pos i) b (write_at base ws p) ≡ write_at base (ws ++ b % 256 ∷ []) p
  unfolding write_byte
  append_byte i b e le = rw (beyond_inside (write_at-Holds h base ws) i le) (
      ap (λ m. record p { in_memory = m }) (splice_adjacent base i ws (b % 256 ∷ []) p.in_memory e))

pub write_byte_array-Holds :
    {n : ℕ} {p : Packet} (from to : ℤ) (bs : List ℕ)
    → reversed from to ≡ false
    → Holds n p
    → Holds n (write_byte_array from to bs p)
unfolding write_byte_array
write_byte_array-Holds {p = p} from to bs straight_range h = elim (Bool-cases (outside from to p)) [
  | inl e ↦ rw e h
  | inr e ↦ rw (e, straight_range) (write_at-Holds h _ _)
]

write_byte-Holds :
    {n : ℕ} {p : Packet} (index : ℤ) (b : ℕ) → Holds n p → Holds n (write_byte index b p)
unfolding write_byte
write_byte-Holds {p = p} index b h = elim (Bool-cases (beyond index p)) [
  | inl e ↦ rw e h
  | inr e ↦ rw e (write_at-Holds h _ _)
]

set_data-Holds :
    {n : ℕ} {p : Packet} (bs : List ℕ) (k : ℕ)
    → Holds n p
    → Holds (if ltb p.capacity k then n else k) (set_data bs k p).0
unfolding set_data
set_data-Holds {p = p} bs k h = elim (Bool-cases (ltb p.capacity k)) [
  | inl e ↦ rw e h
  | inr e ↦ rw e (record {
    in_use = refl;
    fits = ground arith;
    block = length-splice 0 _ p.in_memory ∙ h.block;
  })
]
