-- ===== src/Ethernet/Mac/Laws.antt =====
-- Ethernet::printMAC and Ethernet::readMAC: what `readMAC` reads, and that it reads back what
-- `printMAC` prints.
use mathlib.Core.Option
use Prim.Native.Nat.{bit_or}
use gateway_socket.Base.{
  ℕ, zero, suc, ◌+◌, ◌-◌, ◌*◌, ◌/◌, ◌%◌, ◌≤◌, ◌<◌, ◌≡◌, refl, ap, ap₂, ◌∙◌, Bool, true, false, ◌==◌,
  if◌then◌else◌, sym, Bool-cases, ==_iff, Option, none, some, Option-cases, List, [], ◌∷◌, ◌++◌,
  arith, length, take-length, AllBytes, inl, inr,
}
use gateway_socket.Ethernet.Mac.{
  hex_to_byte, read_loop, read_mac, hex_digit, print_octets, print_mac,
}

-- The hexadecimal digits of a text, in order.
abbrev pub hex_digits : List ℕ → List ℕ
hex_digits [] = []
hex_digits (c ∷ buf) = elim (hex_to_byte c) [ none ↦ hex_digits buf | some d ↦ d ∷ hex_digits buf ]

-- The first `n` pairs of digits as bytes.
abbrev pub pair_up : ℕ → List ℕ → Option (List ℕ)
pair_up zero ds = some []
pair_up (suc n) [] = none
pair_up (suc n) (hi ∷ []) = none
pair_up (suc n) (hi ∷ lo ∷ ds) = Option.map (◌∷◌ (hi * 16 + lo)) (pair_up n ds)

-- After the first digit of a pair.
abbrev pair_up_from : ℕ → ℕ → List ℕ → Option (List ℕ)
pair_up_from n hi [] = none
pair_up_from n hi (lo ∷ ds) = Option.map (◌∷◌ (hi * 16 + lo)) (pair_up n ds)

module _ (test : ℕ → Bool) where
  -- The test at `count` numbers from `start` on.
  holds_from : (count start : ℕ) → Bool
  holds_from zero start = true
  holds_from (suc count) start =
      let rest = holds_from count (start + 1) in if test start then rest else false

  holds_from-test :
      (count start x : ℕ)
      → holds_from count start ≡ true
      → start ≤ x
      → x < start + count
      → test x ≡ true
  unfolding holds_from
  holds_from-test zero start x h low high = absurd (omega arith)
  holds_from-test (suc count) start x h low high = elim (Bool-cases (start == x)) [
    | inl here ↦ let same : start ≡ x = ground arith in rw (sym same) (ground arith)
    | inr later ↦ ground (arith, holds_from-test count (start + 1) x)
  ]

hex_to_byte-lt : (c d : ℕ) → hex_to_byte c ≡ some d → d < 16
unfolding hex_to_byte
hex_to_byte-lt c d h = ground arith

nibbles_table : holds_from (λ x. bit_or (bit_or 0 (x / 16 * 16 % 256)) (x % 16) == x) 256 0 ≡ true
unfolding holds_from
nibbles_table = refl

nibbles : (hi lo : ℕ) → hi < 16 → lo < 16 → bit_or (bit_or 0 (hi * 16 % 256)) lo ≡ hi * 16 + lo
nibbles hi lo h l =
    let e : (hi * 16 + lo) / 16 ≡ hi = omega arith in
    let r : (hi * 16 + lo) % 16 ≡ lo = omega arith in rw e at (rw r at whole)
  where
    whole : bit_or (bit_or 0 ((hi * 16 + lo) / 16 * 16 % 256)) ((hi * 16 + lo) % 16) ≡ hi * 16 + lo
    whole =
        (==_iff _ _).0
          (holds_from-test _ 256 0 (hi * 16 + lo) nibbles_table (omega arith) (omega arith))

-- The loop in either of its two phases.
abbrev FirstPhase : List ℕ → Type 0
FirstPhase buf = (n : ℕ) → read_loop buf n false 0 ≡ pair_up n (hex_digits buf)

abbrev SecondPhase : List ℕ → Type 0
SecondPhase buf =
    (n hi : ℕ)
    → hi < 16
    → read_loop buf (suc n) true (bit_or 0 (hi * 16 % 256)) ≡ pair_up_from n hi (hex_digits buf)

pair_up_second : (n hi : ℕ) (ds : List ℕ) → pair_up_from n hi ds ≡ pair_up (suc n) (hi ∷ ds)
pair_up_second n hi [] = refl
pair_up_second n hi (lo ∷ ds) = refl

read_loop_first : (c : ℕ) (buf : List ℕ) → FirstPhase buf → SecondPhase buf → FirstPhase (c ∷ buf)
unfolding read_loop
read_loop_first c buf first second zero = refl
read_loop_first c buf first second (suc n) = elim (Option-cases (hex_to_byte c)) [
  | inl e ↦ rw (e, read_loop, hex_digits) (first (suc n))
  | inr (d, e) ↦
      rw (e, read_loop, hex_digits)
        (second n d (hex_to_byte-lt c d e) ∙ pair_up_second n d (hex_digits buf))
]

read_loop_second : (c : ℕ) (buf : List ℕ) → FirstPhase buf → SecondPhase buf → SecondPhase (c ∷ buf)
unfolding read_loop
read_loop_second c buf first second n hi h = elim (Option-cases (hex_to_byte c)) [
  | inl e ↦ rw (e, read_loop, hex_digits) (second n hi h)
  | inr (d, e) ↦
      rw (e, read_loop, hex_digits)
        (ap₂ (λ (a : ℕ) r. Option.map (◌∷◌ a) r) (nibbles hi d h (hex_to_byte-lt c d e)) (first n))
]

read_loop_end : FirstPhase []
unfolding read_loop
read_loop_end zero = refl
read_loop_end (suc n) = refl

read_loop_phases : (buf : List ℕ) → FirstPhase buf × SecondPhase buf
unfolding read_loop
read_loop_phases [] = (read_loop_end, λ n hi h. refl)
read_loop_phases (c ∷ buf) =
    let ih = read_loop_phases buf in
    (read_loop_first c buf ih.0 ih.1, read_loop_second c buf ih.0 ih.1)

-- `readMAC` takes the first twelve hexadecimal digits of the text, two to a byte, whatever stands
-- between them; with fewer digits it reads on behind the end of the text.
pub read_mac-hex_digits : (buf : List ℕ) → read_mac buf ≡ pair_up 6 (hex_digits buf)
unfolding read_mac
read_mac-hex_digits buf = (read_loop_phases buf).0 6

digits_table :
    holds_from (λ d. elim (hex_to_byte (hex_digit d)) [ none ↦ false | some e ↦ e == d ]) 16 0
    ≡ true
unfolding holds_from hex_to_byte hex_digit
digits_table = refl

hex_to_byte-hex_digit : (d : ℕ) → d < 16 → hex_to_byte (hex_digit d) ≡ some d
hex_to_byte-hex_digit d h = ground (arith, holds_from-test _ 16 0 d digits_table (omega arith))

hex_digits-hex_digit :
    (d : ℕ) (buf : List ℕ) → d < 16 → hex_digits (hex_digit d ∷ buf) ≡ d ∷ hex_digits buf
hex_digits-hex_digit d buf h = rw (hex_to_byte-hex_digit d h, hex_digits) refl

hex_digits-octet :
    (x : ℕ) (buf : List ℕ)
    → x < 256
    → hex_digits (hex_digit (x / 16) ∷ hex_digit (x % 16) ∷ buf) ≡ x / 16 ∷ x % 16 ∷ hex_digits buf
hex_digits-octet x buf h =
    hex_digits-hex_digit (x / 16) (hex_digit (x % 16) ∷ buf) (omega arith)
    ∙ ap (◌∷◌ (x / 16)) (hex_digits-hex_digit (x % 16) buf (omega arith))

hex_digits-colon : (buf : List ℕ) → hex_digits (b':' ∷ buf) ≡ hex_digits buf
unfolding hex_to_byte
hex_digits-colon buf = refl

length-print_octets : (mac : List ℕ) → length mac ≡ 6 → length (print_octets mac) ≡ 17
unfolding print_octets
length-print_octets [] e = absurd (omega arith)
length-print_octets (a ∷ []) e = absurd (omega arith)
length-print_octets (a ∷ b ∷ []) e = absurd (omega arith)
length-print_octets (a ∷ b ∷ c ∷ []) e = absurd (omega arith)
length-print_octets (a ∷ b ∷ c ∷ d ∷ []) e = absurd (omega arith)
length-print_octets (a ∷ b ∷ c ∷ d ∷ f ∷ []) e = absurd (omega arith)
length-print_octets (a ∷ b ∷ c ∷ d ∷ f ∷ g ∷ []) e = refl
length-print_octets (a ∷ b ∷ c ∷ d ∷ f ∷ g ∷ i ∷ mac) e = absurd (omega arith)

-- One step for each byte: its two digits, and then the rest.
pair_up-octet :
    (n x : ℕ) (buf tail : List ℕ)
    → x < 256
    → pair_up n (hex_digits buf) ≡ some tail
    → pair_up (suc n) (hex_digits (hex_digit (x / 16) ∷ hex_digit (x % 16) ∷ buf)) ≡ some (x ∷ tail)
pair_up-octet n x buf tail h e =
    ap (pair_up (suc n)) (hex_digits-octet x buf h)
    ∙ ap₂ (λ (a : ℕ) r. Option.map (◌∷◌ a) r) (omega arith) e

pair_up-print_octets :
    (mac rest : List ℕ) (n : ℕ)
    → length mac ≡ n
    → AllBytes mac
    → pair_up n (hex_digits (print_octets mac ++ rest)) ≡ some mac
unfolding print_octets
pair_up-print_octets [] rest zero e h = refl
pair_up-print_octets [] rest (suc n) e h = absurd (omega arith)
pair_up-print_octets (x ∷ []) rest zero e h = absurd (omega arith)
pair_up-print_octets (x ∷ []) rest (suc zero) e h = pair_up-octet 0 x rest [] h.0 refl
pair_up-print_octets (x ∷ []) rest (suc (suc n)) e h = absurd (omega arith)
pair_up-print_octets (x ∷ y ∷ xs) rest zero e h = absurd (omega arith)
pair_up-print_octets (x ∷ y ∷ xs) rest (suc n) e h =
    pair_up-octet n x (b':' ∷ (print_octets (y ∷ xs) ++ rest)) (y ∷ xs) h.0 (
      ap (pair_up n) (hex_digits-colon (print_octets (y ∷ xs) ++ rest))
      ∙ pair_up-print_octets (y ∷ xs) rest n (omega arith) h.1)

-- For an address of six bytes, `readMAC` reads back what `printMAC` prints into a buffer of at
-- least 18 characters, whatever stands behind it.
pub read_mac-print_mac :
    (mac rest : List ℕ) (len : ℕ)
    → length mac ≡ 6
    → AllBytes mac
    → 18 ≤ len
    → read_mac (print_mac mac len ++ rest) ≡ some mac
unfolding print_mac
read_mac-print_mac mac rest len e h l =
    rw (take-length (len - 1) (print_octets mac) (rw (length-print_octets mac e) (omega arith)))
      (read_mac-hex_digits _ ∙ pair_up-print_octets mac rest 6 e h)
