-- ===== src/Udp/Make/Checks.antt =====
-- UDP::makePacket: the checksums of its frames.
use gateway_socket.Base.{
  ℕ, ◌+◌, ◌-◌, ◌%◌, ◌^◌, ◌≤◌, ◌<◌, ◌≡◌, refl, sym, ap, ◌∙◌, [], ◌∷◌, ◌++◌, append_assoc, arith,
  length, htons, store16, store32, AllBytes, subst,
}
use gateway_socket.Checksum.{sum_words, fold_sum}
use gateway_socket.Checksum.Laws.{
  Verifies, IsEven, word_sum, word_sum-append, word_sum-le, sum_words-word_sum, one_compl-Verifies,
  fold_sum-Verifies,
}
use gateway_socket.Udp.Make.Frame.{
  Datagram, IsDatagram, ip_part, udp_part, ip_front, udp_front, ip_addresses, udp_pseudo,
  unsummed_udp, udp_checksum,
}
use gateway_socket.Udp.Make.Laws.{AllBytes-unsummed_udp}

-- Of the IPv4 header.
ip_part-Verifies : (d : Datagram) → Verifies (ip_part d)
unfolding store32
ip_part-Verifies d =
    one_compl-Verifies (ip_front d) (ip_addresses d) tt (omega arith) (omega arith) (omega arith)
      (omega arith)

pub pseudo_facts :
    (d : Datagram)
    → IsEven (udp_pseudo d)
      × AllBytes (udp_pseudo d)
      × (length (udp_pseudo d) ≡ 12)
      × (17 ≤ word_sum (udp_pseudo d))
unfolding store32
pseudo_facts d = (tt, omega arith, refl, omega arith)

-- What is summed but for the checksum, in the order of the datagram.
pub covered : Datagram → ℕ
covered d = word_sum (udp_pseudo d ++ udp_front d) + word_sum d.payload

pub covered_lem : (d : Datagram) → covered d ≡ word_sum (udp_pseudo d) + word_sum (unsummed_udp d)
unfolding covered
covered_lem d = omega (
  arith,
  word_sum-append (udp_pseudo d) (udp_front d) (pseudo_facts d).0,
  word_sum-append (udp_front d) (0 ∷ 0 ∷ d.payload) tt,
)

pub covered-lt : (d : Datagram) → IsDatagram d → covered d < 2 ^ 32 - 65536
covered-lt d v = omega (
  arith,
  covered_lem d,
  (pseudo_facts d).2,
  word_sum-le (udp_pseudo d) (pseudo_facts d).1,
  word_sum-le (unsummed_udp d) (AllBytes-unsummed_udp d v.bytes),
  v.short,
)

-- The sum that the code complements.
pub summed :
    (d : Datagram)
    → IsDatagram d
    → sum_words (sum_words 0 (udp_pseudo d)) (unsummed_udp d) ≡ covered d
summed d v =
    ap (λ (s : ℕ). sum_words s (unsummed_udp d))
      (sum_words-word_sum 0 (udp_pseudo d) (pseudo_facts d).1 (omega (arith, bound)))
    ∙ ap (λ (s : ℕ). sum_words s (unsummed_udp d)) zero_sum
    ∙ sum_words-word_sum (word_sum (udp_pseudo d)) (unsummed_udp d)
        (AllBytes-unsummed_udp d v.bytes) (omega (arith, bound))
    ∙ sym (covered_lem d)
  where
    bound : word_sum (udp_pseudo d) + word_sum (unsummed_udp d) < 2 ^ 32
    bound = omega (arith, covered_lem d, covered-lt d v)

    zero_sum : 0 + word_sum (udp_pseudo d) ≡ word_sum (udp_pseudo d)
    zero_sum = omega arith

udp_part-Verifies : (d : Datagram) → IsDatagram d → Verifies (udp_pseudo d ++ udp_part d)
unfolding covered
udp_part-Verifies d v = subst Verifies regrouped (
    fold_sum-Verifies (udp_pseudo d ++ udp_front d) d.payload (covered d) even refl (covered-lt d v)
      (omega (arith, covered_lem d, (pseudo_facts d).3)))
  where
    even : IsEven (udp_pseudo d ++ udp_front d)
    even = unfold store32 in tt

    regrouped :
        (udp_pseudo d ++ udp_front d) ++ (store16 (fold_sum (covered d)) ++ d.payload)
        ≡ udp_pseudo d ++ udp_part d
    regrouped =
        append_assoc (udp_pseudo d) (udp_front d) (store16 (fold_sum (covered d)) ++ d.payload)
        ∙ ap (λ (s : ℕ). udp_pseudo d ++ (udp_front d ++ (store16 (fold_sum s) ++ d.payload)))
            (sym (summed d v))

-- Of the frame of a datagram whose payload is of bytes and shorter than 65508, the IPv4 header
-- passes the receiver's check, and so does the UDP part together with its pseudo header, for a
-- payload of either parity.
pub frame-Verifies :
    (d : Datagram) → IsDatagram d → Verifies (ip_part d) × Verifies (udp_pseudo d ++ udp_part d)
frame-Verifies d v = (ip_part-Verifies d, udp_part-Verifies d v)

-- RFC 768 sends a checksum that comes out as 0 as all ones, because 0 says that there is none.
-- The code sends it as it is: of a datagram whose payload is of bytes and shorter than 65508, and
-- whose words add up to a multiple of 65535, the checksum field is 0.
pub udp_checksum-zero :
    (d : Datagram)
    → IsDatagram d
    → (word_sum (udp_pseudo d) + word_sum (unsummed_udp d)) % 65535 ≡ 0
    → udp_checksum d ≡ 0 ∷ 0 ∷ []
unfolding store16 fold_sum htons
udp_checksum-zero d v m = rw (summed d v) (
    let e : covered d % 65535 ≡ 0 = rw (covered_lem d) m in
    ground (arith, covered-lt d v, covered_lem d, (pseudo_facts d).3))
