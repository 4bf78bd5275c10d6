-- ===== src/Checksum/Laws.antt =====
-- one_compl: what the checksum is good for, the receiver's check of RFC 1071.
use gateway_socket.Base.{
  ℕ, ◌+◌, ◌-◌, ◌*◌, ◌/◌, ◌%◌, ◌^◌, ◌≤◌, ◌<◌, ◌≡◌, refl, sym, List, [], ◌∷◌, ◌++◌, arith, length,
  u32, htons, ntohs, load16, store16, AllBytes, AllBytes-append, subst,
}
use gateway_socket.Checksum.{sum_words, fold_sum, one_compl}

-- The sum of the big-endian words, unbounded; an odd byte at the end is the high half of a word.
abbrev pub word_sum : List ℕ → ℕ
word_sum [] = 0
word_sum (a ∷ []) = a * 256
word_sum (a ∷ b ∷ bs) = a * 256 + b + word_sum bs

-- An even number of bytes.
abbrev pub IsEven : List ℕ → Type 0
IsEven [] = Unit {0}
IsEven (a ∷ []) = ⊥
IsEven (a ∷ b ∷ bs) = IsEven bs

pub sum_words-word_sum :
    (sum : ℕ) (bs : List ℕ)
    → AllBytes bs
    → sum + word_sum bs < 2 ^ 32
    → sum_words sum bs ≡ sum + word_sum bs
unfolding sum_words ntohs load16
sum_words-word_sum sum [] h lt = omega arith
sum_words-word_sum sum (a ∷ []) h lt = ground arith
sum_words-word_sum sum (a ∷ b ∷ bs) h lt =
    let e : u32 (sum + ((a + 256 * b) % 256 * 256 + (a + 256 * b) / 256 % 256))
        ≡ sum + (a * 256 + b) =
      omega arith in
    rw e (omega (arith, sum_words-word_sum (sum + (a * 256 + b)) bs h.1.1 (omega arith)))

pub word_sum-append : (xs ys : List ℕ) → IsEven xs → word_sum (xs ++ ys) ≡ word_sum xs + word_sum ys
word_sum-append [] ys e = omega arith
word_sum-append (a ∷ []) ys e = elim e [ ]
word_sum-append (a ∷ b ∷ xs) ys e = omega (arith, word_sum-append xs ys e)

pub word_sum-le : (bs : List ℕ) → AllBytes bs → word_sum bs ≤ 32768 * (length bs + 1)
word_sum-le [] h = omega arith
word_sum-le (a ∷ []) h = omega arith
word_sum-le (a ∷ b ∷ bs) h = omega (arith, word_sum-le bs h.1.1)

-- RFC 1071, section 1: over the data and the checksum, the 16-bit one's complement sum is all ones.
-- That sum is 65535 exactly when the plain sum is a positive multiple of 65535.
abbrev pub IsAllOnes : ℕ → Type 0
IsAllOnes total = (0 < total) × (total % 65535 ≡ 0)

abbrev pub Verifies : List ℕ → Type 0
Verifies bs = IsAllOnes (word_sum bs)

fold_sum-IsAllOnes :
    (sum : ℕ) → sum < 2 ^ 32 - 65536 → 0 < sum → IsAllOnes (sum + ntohs (fold_sum sum))
unfolding fold_sum ntohs htons
fold_sum-IsAllOnes sum h pos = omega arith

word_sum-store16 : (c : ℕ) (bs : List ℕ) → word_sum (store16 c ++ bs) ≡ ntohs c + word_sum bs
unfolding store16 ntohs
word_sum-store16 c bs = refl

-- The complement of a sum that differs from that of `bs` by no more than the checksum word itself.
pub fold_sum-Verifies :
    (pre post : List ℕ) (sum : ℕ)
    → IsEven pre
    → word_sum pre + word_sum post ≡ sum
    → sum < 2 ^ 32 - 65536
    → 0 < sum
    → Verifies (pre ++ (store16 (fold_sum sum) ++ post))
fold_sum-Verifies pre post sum even e lt pos =
    subst IsAllOnes (sym total) (fold_sum-IsAllOnes sum lt pos)
  where
    total : word_sum (pre ++ (store16 (fold_sum sum) ++ post)) ≡ sum + ntohs (fold_sum sum)
    total = omega (
      arith,
      word_sum-append pre (store16 (fold_sum sum) ++ post) even,
      word_sum-store16 (fold_sum sum) post,
    )

-- A checksum that `one_compl` computes over a block of bytes whose checksum field, at an even
-- position, is still 0 makes the block pass the receiver's check, if the block is shorter than 64
-- KB and is not all zeros.
pub one_compl-Verifies :
    (pre post : List ℕ)
    → IsEven pre
    → AllBytes pre
    → AllBytes post
    → length pre + length post < 65536
    → 0 < word_sum pre + word_sum post
    → Verifies (pre ++ (store16 (one_compl (pre ++ (0 ∷ 0 ∷ post))) ++ post))
unfolding one_compl
one_compl-Verifies pre post even bp bq len pos =
    rw summed (fold_sum-Verifies pre post _ even refl below pos)
  where
    below : word_sum pre + word_sum post < 2 ^ 32 - 65536
    below = omega (arith, word_sum-le pre bp, word_sum-le post bq)

    summed : sum_words 0 (pre ++ (0 ∷ 0 ∷ post)) ≡ word_sum pre + word_sum post
    summed = omega (
      arith,
      sum_words-word_sum 0 (pre ++ (0 ∷ 0 ∷ post))
          (AllBytes-append pre (0 ∷ 0 ∷ post) bp (omega arith, (omega arith, bq))),
      word_sum-append pre (0 ∷ 0 ∷ post) even,
      below,
    )
