-- ===== src/Udp/Make/Sum.antt =====
-- UDP::makePacket: the loop over the datagram adds up its words.
use gateway_socket.Base.{
  ℕ, zero, suc, ◌+◌, ◌-◌, ◌≤◌, ◌<◌, ◌≡◌, refl, ap, ◌∙◌, leb, ltb, ◌==◌, true, false, List, [], ◌∷◌,
  u32, ntohs, load16, length, slice, AllBytes, slice_one, slice_two, arith,
}
use gateway_socket.Packet.{Packet, read_byte}
use gateway_socket.Packet.Laws.{Holds, read_inside}
use gateway_socket.Checksum.{sum_words}
use gateway_socket.Udp.Make.{word_at, datagram_sum}

datagram_sum_done :
    (fuel current len sum temp : ℕ) (p : Packet)
    → len ≤ current
    → datagram_sum fuel current len sum temp p ≡ sum
unfolding datagram_sum
datagram_sum_done zero current len sum temp p h = refl
datagram_sum_done (suc fuel) current len sum temp p h =
    let e : ltb current len ≡ false = ground arith in rw e refl

datagram_sum_more :
    (fuel current len sum temp : ℕ) (p : Packet)
    → current < len
    → datagram_sum (suc fuel) current len sum temp p
      ≡ datagram_sum fuel
          (current + 2)
          len
          (u32 (sum + word_at current len temp p))
          (word_at current len temp p)
          p
unfolding datagram_sum
datagram_sum_more fuel current len sum temp p h =
    let e : ltb current len ≡ true = ground arith in rw e refl

module _ {n : ℕ} {p : Packet} (h : Holds n p) where
  word_at_last :
      (current len temp a : ℕ)
      → current + 1 ≡ len
      → len ≤ n
      → a < 256
      → slice current 1 p.in_memory ≡ a ∷ []
      → word_at current len temp p ≡ ntohs (load16 (a ∷ []))
  unfolding word_at read_byte ntohs load16
  word_at_last current len temp a e le byte s =
      let at_end : (current + 1) == len ≡ true = ground arith in
      let keep : leb n current ≡ false = ground arith in
      rw (at_end, h.in_use, keep, slice_one current a p.in_memory s) (omega arith)

  word_at_inner :
      (current len temp a b : ℕ)
      → current + 1 < len
      → len ≤ n
      → slice current 2 p.in_memory ≡ a ∷ b ∷ []
      → word_at current len temp p ≡ ntohs (load16 (a ∷ b ∷ []))
  unfolding word_at
  word_at_inner current len temp a b lt le s =
      let inside : (current + 1) == len ≡ false = ground arith in
      let two : current + 2 - current ≡ 2 = omega arith in
      rw (inside, read_inside h current (current + 2) (omega arith) (omega arith), two, s) refl

  -- The bytes of the packet from `current` to `len` are `bs`.
  pub datagram_sum-sum_words :
      (bs : List ℕ) (fuel current len sum temp : ℕ)
      → current + length bs ≡ len
      → len ≤ n
      → slice current (length bs) p.in_memory ≡ bs
      → AllBytes bs
      → length bs ≤ fuel
      → datagram_sum fuel current len sum temp p ≡ sum_words sum bs
  unfolding sum_words
  datagram_sum-sum_words [] fuel current len sum temp e le s byte f =
      datagram_sum_done fuel current len sum temp p (omega arith)
  datagram_sum-sum_words (a ∷ bs) zero current len sum temp e le s byte f = absurd (omega arith)
  datagram_sum-sum_words (a ∷ []) (suc fuel) current len sum temp e le s byte f =
      datagram_sum_more fuel current len sum temp p (omega arith)
      ∙ datagram_sum_done fuel (current + 2) len _ _ p (omega arith)
      ∙ ap (λ (w : ℕ). u32 (sum + w)) (word_at_last current len temp a (omega arith) le byte.0 s)
  datagram_sum-sum_words (a ∷ b ∷ bs) (suc fuel) current len sum temp e le s byte f =
      let parts = slice_two current (length bs) a b p.in_memory bs s in
      datagram_sum_more fuel current len sum temp p (omega arith)
      ∙ datagram_sum-sum_words bs fuel (current + 2) len _ _ (omega arith) le parts.1 byte.1.1
          (omega arith)
      ∙ ap (λ (w : ℕ). sum_words (u32 (sum + w)) bs)
          (word_at_inner current len temp a b (omega arith) le parts.0)
