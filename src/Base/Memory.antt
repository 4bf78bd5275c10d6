-- ===== src/Base/Memory.antt =====
-- A block of memory as a list of bytes: `memcpy` out of it and into it.
use Prim.Native.Nat.{ℕ, zero, suc, ◌+◌, ◌≤◌}
use mathlib.Core.Path.{◌≡◌, refl, ap, sym, ◌∙◌}
use mathlib.Core.List.{List, [], ◌∷◌, ◌++◌}
use native.Mathlib.Omega.{arith}
use gateway_socket.Base.Lists.{length, take, drop, get_or, length-take, length-drop}
use native.Mathlib.Nat.{zero-add, add-zero, suc-add}

-- The `n` bytes from index `i`.
abbrev pub slice : ℕ → ℕ → List ℕ → List ℕ
slice i n m = take n (drop i m)

pub length-slice : (i n : ℕ) (m : List ℕ) → i + n ≤ length m → length (slice i n m) ≡ n
length-slice i n m h = length-take n (drop i m) (length-drop i n m h)

-- `m` with `bs` copied over it from index `i`. Bytes that fall behind the end are cut off.
unfoldable pub splice : ℕ → List ℕ → List ℕ → List ℕ
splice i bs [] = []
splice zero [] (x ∷ m) = x ∷ m
splice zero (b ∷ bs) (x ∷ m) = b ∷ splice zero bs m
splice (suc i) bs (x ∷ m) = x ∷ splice i bs m

pub length-splice : (i : ℕ) (bs m : List ℕ) → length (splice i bs m) ≡ length m
unfolding splice
length-splice i bs [] = refl
length-splice zero [] (x ∷ m) = refl
length-splice zero (b ∷ bs) (x ∷ m) = ap suc (length-splice zero bs m)
length-splice (suc i) bs (x ∷ m) = ap suc (length-splice i bs m)

pub splice-nil : (i : ℕ) (m : List ℕ) → splice i [] m ≡ m
unfolding splice
splice-nil i [] = refl
splice-nil zero (x ∷ m) = refl
splice-nil (suc i) (x ∷ m) = ap (◌∷◌ x) (splice-nil i m)

-- What was written is read back.
pub slice-splice_self :
    (i n : ℕ) (bs m : List ℕ) → length bs ≡ n → i + n ≤ length m → slice i n (splice i bs m) ≡ bs
unfolding splice
slice-splice_self zero zero [] m e h = refl
slice-splice_self zero zero (b ∷ bs) m e h = absurd (omega arith)
slice-splice_self zero (suc n) [] m e h = absurd (omega arith)
slice-splice_self zero (suc n) (b ∷ bs) [] e h = absurd (omega arith)
slice-splice_self zero (suc n) (b ∷ bs) (x ∷ m) e h =
    ap (◌∷◌ b) (slice-splice_self zero n bs m (omega arith) (omega arith))
slice-splice_self (suc i) zero [] [] e h = refl
slice-splice_self (suc i) zero (b ∷ bs) m e h = absurd (omega arith)
slice-splice_self (suc i) (suc n) bs [] e h = absurd (omega arith)
slice-splice_self (suc i) n bs (x ∷ m) e h = slice-splice_self i n bs m e (omega arith)

-- Bytes before and behind it stay.
pub slice-splice_before :
    (i j n : ℕ) (bs m : List ℕ) → j + n ≤ i → slice j n (splice i bs m) ≡ slice j n m
unfolding splice
slice-splice_before i j n bs [] h = refl
slice-splice_before zero zero zero bs (x ∷ m) h = refl
slice-splice_before zero zero (suc n) bs (x ∷ m) h = absurd (omega arith)
slice-splice_before zero (suc j) n bs (x ∷ m) h = absurd (omega arith)
slice-splice_before (suc i) zero zero bs (x ∷ m) h = refl
slice-splice_before (suc i) zero (suc n) bs (x ∷ m) h =
    ap (◌∷◌ x) (slice-splice_before i zero n bs m (omega arith))
slice-splice_before (suc i) (suc j) n bs (x ∷ m) h = slice-splice_before i j n bs m (omega arith)

pub drop-splice : (i j : ℕ) (bs m : List ℕ) → i + length bs ≤ j → drop j (splice i bs m) ≡ drop j m
unfolding splice
drop-splice i j bs [] h = refl
drop-splice zero j [] (x ∷ m) h = refl
drop-splice zero zero (b ∷ bs) (x ∷ m) h = absurd (omega arith)
drop-splice zero (suc j) (b ∷ bs) (x ∷ m) h = drop-splice zero j bs m (omega arith)
drop-splice (suc i) zero bs (x ∷ m) h = absurd (omega arith)
drop-splice (suc i) (suc j) bs (x ∷ m) h = drop-splice i j bs m (omega arith)

pub slice-splice_after :
    (i j n : ℕ) (bs m : List ℕ) → i + length bs ≤ j → slice j n (splice i bs m) ≡ slice j n m
slice-splice_after i j n bs m h = ap (take n) (drop-splice i j bs m h)

-- Two writes side by side are one.
pub splice_adjacent :
    (i j : ℕ) (ws bs m : List ℕ)
    → i + length ws ≡ j
    → splice j bs (splice i ws m) ≡ splice i (ws ++ bs) m
unfolding splice
splice_adjacent i j ws bs [] e = refl
splice_adjacent zero zero [] bs (x ∷ m) e = refl
splice_adjacent zero (suc j) [] bs (x ∷ m) e = absurd (omega arith)
splice_adjacent zero zero (a ∷ ws) bs (x ∷ m) e = absurd (omega arith)
splice_adjacent zero (suc j) (a ∷ ws) bs (x ∷ m) e =
    ap (◌∷◌ a) (splice_adjacent zero j ws bs m (omega arith))
splice_adjacent (suc i) zero ws bs (x ∷ m) e = absurd (omega arith)
splice_adjacent (suc i) (suc j) ws bs (x ∷ m) e =
    ap (◌∷◌ x) (splice_adjacent i j ws bs m (omega arith))

-- A write inside what an earlier write covered changes that write.
pub splice_nested :
    (i j k : ℕ) (ws bs m : List ℕ)
    → i + j ≡ k
    → j + length bs ≤ length ws
    → splice k bs (splice i ws m) ≡ splice i (splice j bs ws) m
unfolding splice
splice_nested i j k ws bs [] e h = refl
splice_nested zero zero zero [] [] (x ∷ m) e h = refl
splice_nested zero zero zero [] (b ∷ bs) (x ∷ m) e h = absurd (omega arith)
splice_nested zero zero zero (a ∷ ws) [] (x ∷ m) e h = refl
splice_nested zero zero zero (a ∷ ws) (b ∷ bs) (x ∷ m) e h =
    ap (◌∷◌ b) (splice_nested zero zero zero ws bs m (omega arith) (omega arith))
splice_nested zero zero (suc k) ws bs (x ∷ m) e h = absurd (omega arith)
splice_nested zero (suc j) zero ws bs (x ∷ m) e h = absurd (omega arith)
splice_nested zero (suc j) (suc k) [] bs (x ∷ m) e h = absurd (omega arith)
splice_nested zero (suc j) (suc k) (a ∷ ws) bs (x ∷ m) e h =
    ap (◌∷◌ a) (splice_nested zero j k ws bs m (omega arith) (omega arith))
splice_nested (suc i) j zero ws bs (x ∷ m) e h = absurd (omega arith)
splice_nested (suc i) j (suc k) ws bs (x ∷ m) e h =
    ap (◌∷◌ x) (splice_nested i j k ws bs m (omega arith) h)

-- The same, written in the other order.
pub splice_adjacent_rev :
    (i j : ℕ) (ws bs m : List ℕ)
    → i + length ws ≡ j
    → splice i ws (splice j bs m) ≡ splice i (ws ++ bs) m
unfolding splice
splice_adjacent_rev i j ws bs [] e = refl
splice_adjacent_rev zero zero [] bs (x ∷ m) e = splice-nil 0 (splice 0 bs (x ∷ m))
splice_adjacent_rev zero (suc j) [] bs (x ∷ m) e = absurd (omega arith)
splice_adjacent_rev zero zero (a ∷ ws) bs (x ∷ m) e = absurd (omega arith)
splice_adjacent_rev zero (suc j) (a ∷ ws) bs (x ∷ m) e =
    ap (◌∷◌ a) (splice_adjacent_rev zero j ws bs m (omega arith))
splice_adjacent_rev (suc i) zero ws bs (x ∷ m) e = absurd (omega arith)
splice_adjacent_rev (suc i) (suc j) ws bs (x ∷ m) e =
    ap (◌∷◌ x) (splice_adjacent_rev i j ws bs m (omega arith))

-- A part of a list replaced by one of the same length.
pub splice_middle :
    (k : ℕ) (pre old new post : List ℕ)
    → length pre ≡ k
    → length old ≡ length new
    → splice k new (pre ++ (old ++ post)) ≡ pre ++ (new ++ post)
unfolding splice
splice_middle zero [] [] [] post e l = splice-nil 0 post
splice_middle zero [] [] (b ∷ new) post e l = absurd (omega arith)
splice_middle zero [] (o ∷ old) [] post e l = absurd (omega arith)
splice_middle zero [] (o ∷ old) (b ∷ new) post e l =
    ap (◌∷◌ b) (splice_middle zero [] old new post refl (omega arith))
splice_middle zero (x ∷ pre) old new post e l = absurd (omega arith)
splice_middle (suc k) [] old new post e l = absurd (omega arith)
splice_middle (suc k) (x ∷ pre) old new post e l =
    ap (◌∷◌ x) (splice_middle k pre old new post (omega arith) l)

-- A part of what was written is read back.
pub slice-splice_part :
    (i k n : ℕ) (pre bs post m : List ℕ)
    → i + length pre ≡ k
    → length bs ≡ n
    → k + n ≤ length m
    → slice k n (splice i (pre ++ (bs ++ post)) m) ≡ bs
slice-splice_part i k n pre bs post m e l h =
    ap (slice k n) (sym (splice_adjacent i k pre (bs ++ post) m e))
    ∙ ap (slice k n) (sym (splice_adjacent k (k + n) bs post (splice i pre m) (omega arith)))
    ∙ slice-splice_before (k + n) k n post (splice k bs (splice i pre m)) (omega arith)
    ∙ slice-splice_self k n bs (splice i pre m) l (rw (length-splice i pre m) h)

drop-add : (i j : ℕ) (m : List ℕ) → drop (i + j) m ≡ drop j (drop i m)
drop-add zero j m = rw zero-add refl
drop-add (suc i) zero [] = rw add-zero refl
drop-add (suc i) (suc j) [] = rw suc-add refl
drop-add (suc i) j (x ∷ m) = rw suc-add (drop-add i j m)

pub get_or-drop : (i : ℕ) (m : List ℕ) → get_or m i 0 ≡ get_or (drop i m) 0 0
get_or-drop zero m = refl
get_or-drop (suc i) [] = refl
get_or-drop (suc i) (x ∷ m) = get_or-drop i m

take_one : (d : List ℕ) (a : ℕ) → take 1 d ≡ a ∷ [] → get_or d 0 0 ≡ a
take_one [] a e = cc
take_one (x ∷ d) a e = cc

take_two :
    (k a b : ℕ) (d bs : List ℕ)
    → take (suc (suc k)) d ≡ a ∷ b ∷ bs
    → (take 2 d ≡ a ∷ b ∷ []) × (take k (drop 2 d) ≡ bs)
take_two k a b [] bs e = cc
take_two k a b (x ∷ []) bs e = cc
take_two k a b (x ∷ y ∷ d) bs e = (cc, cc)

-- A slice taken apart from its front.
pub slice_one : (i a : ℕ) (m : List ℕ) → slice i 1 m ≡ a ∷ [] → get_or m i 0 ≡ a
slice_one i a m e = get_or-drop i m ∙ take_one (drop i m) a e

pub slice_two :
    (i k a b : ℕ) (m bs : List ℕ)
    → slice i (suc (suc k)) m ≡ a ∷ b ∷ bs
    → (slice i 2 m ≡ a ∷ b ∷ []) × (slice (i + 2) k m ≡ bs)
slice_two i k a b m bs e =
    let halves = take_two k a b (drop i m) bs e in
    (halves.0, ap (take k) (drop-add i 2 m) ∙ halves.1)

pub slice-splice_tail :
    (i k n : ℕ) (pre bs m : List ℕ)
    → i + length pre ≡ k
    → length bs ≡ n
    → k + n ≤ length m
    → slice k n (splice i (pre ++ bs) m) ≡ bs
slice-splice_tail i k n pre bs m e l h =
    ap (slice k n) (sym (splice_adjacent i k pre bs m e))
    ∙ slice-splice_self k n bs (splice i pre m) l (rw (length-splice i pre m) h)

-- To copy bytes onto themselves changes nothing.
pub splice-slice : (i n : ℕ) (m : List ℕ) → splice i (slice i n m) m ≡ m
unfolding splice
splice-slice i n [] = refl
splice-slice zero zero (x ∷ m) = refl
splice-slice zero (suc n) (x ∷ m) = ap (◌∷◌ x) (splice-slice zero n m)
splice-slice (suc i) n (x ∷ m) = ap (◌∷◌ x) (splice-slice i n m)
