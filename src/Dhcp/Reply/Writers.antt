-- ===== src/Dhcp/Reply/Writers.antt =====
-- DHCP::writeResponse: what the writers of its parts write, one behind the other.
use gateway_socket.Base.{
  ℕ, zero, suc, ◌+◌, ◌-◌, ◌*◌, ◌%◌, ◌≤◌, ◌≡◌, refl, ap, ap₂, ◌∙◌, sym, List, [], ◌∷◌, ◌++◌,
  append_assoc, append-nil, store32, length, length-append, length-store32, length-replicate,
  replicate, take-length, arith, splice-nil,
}
use gateway_socket.Packet.{Packet}
use gateway_socket.Packet.Laws.{Holds, write_at, append_array, append_byte}
use gateway_socket.Dhcp.{
  Cursor, Writer, ◌>>◌, put_byte, put_array, zero_from, zeros, advance, put_dns,
}

abbrev pub at : Packet → ℕ → Cursor
at p i = record { packet = p; current_offset = i }

-- The writer writes the bytes `bs` at its position, and moves behind them.
pub record Emits (w : Writer) (bs : List ℕ) : Type 0 where
  pub emits :
      (n : ℕ) (p : Packet) (base : ℕ) (ws : List ℕ) (i : ℕ)
      → Holds n p
      → base + length ws ≡ i
      → i + length bs ≤ n
      → w (at (write_at base ws p) i) ≡ at (write_at base (ws ++ bs) p) (i + length bs)

infixl 5 ◌>>>◌
pub ◌>>>◌ : {w v : Writer} {xs ys : List ℕ} → Emits w xs → Emits v ys → Emits (w >> v) (xs ++ ys)
◌>>>◌ {w} {v} {xs} {ys} hw hv = record {
  emits = λ n p base ws i h e le.
      ap v (hw.emits n p base ws i h e (omega (arith, length-append xs ys)))
      ∙ hv.emits n p base (ws ++ xs) (i + length xs) h (omega (arith, length-append ws xs))
          (omega (arith, length-append xs ys))
      ∙ ap₂ (λ m (k : ℕ). at (write_at base m p) k) (append_assoc ws xs ys)
          (omega (arith, length-append xs ys));
}

pub byte : (b : ℕ) → Emits (put_byte b) (b % 256 ∷ [])
unfolding put_byte
byte b = record {
  emits =
      λ n p base ws i h e le. ap (λ q. at q (i + 1)) (append_byte h base ws i b e (omega arith));
}

pub unwritten : (base : ℕ) (p : Packet) → write_at base [] p ≡ p
unwritten base p = ap (λ m. record p { in_memory = m }) (splice-nil base p.in_memory)

pub array : (k : ℕ) (bs : List ℕ) → length bs ≡ k → Emits (put_array k bs) bs
unfolding put_array
array k bs l = record {
  emits = λ n p base ws i h e le.
      ap₂ at
        (append_array h base ws i (i + k) bs bs e (omega arith) (omega arith)
          (take-length (i + k - i) bs (omega arith)))
        (omega arith);
}

zero_from_lem :
    (k n : ℕ) (p : Packet) (base : ℕ) (ws : List ℕ) (i : ℕ)
    → Holds n p
    → base + length ws ≡ i
    → i + k ≤ n
    → zero_from k i (write_at base ws p) ≡ write_at base (ws ++ replicate k 0) p
unfolding zero_from
zero_from_lem zero n p base ws i h e le = ap (λ m. write_at base m p) (sym (append-nil ws))
zero_from_lem (suc k) n p base ws i h e le =
    ap (zero_from k (i + 1)) (append_byte h base ws i 0 e (omega arith))
    ∙ zero_from_lem k n p base (ws ++ 0 ∷ []) (i + 1) h (omega (arith, length-append ws (0 ∷ [])))
        (omega arith)
    ∙ ap (λ m. write_at base m p) (append_assoc ws (0 ∷ []) (replicate k 0))

length-zeros : (k : ℕ) → length (replicate {A = ℕ} k 0) ≡ k
length-zeros k = length-replicate k _

pub zeros_unmoved :
    (k n : ℕ) (p : Packet) (base : ℕ) (ws : List ℕ) (i : ℕ)
    → Holds n p
    → base + length ws ≡ i
    → i + k ≤ n
    → zeros k (at (write_at base ws p) i) ≡ at (write_at base (ws ++ replicate k 0) p) i
unfolding zeros
zeros_unmoved k n p base ws i h e le = ap (λ q. at q i) (zero_from_lem k n p base ws i h e le)

pub zeros-advance :
    (k : ℕ) {w : Writer} {xs : List ℕ}
    → Emits w xs
    → Emits (w >> zeros k >> advance k) (xs ++ replicate k 0)
unfolding advance
zeros-advance k {w} {xs} hw = record {
  emits = λ n p base ws i h e le.
      ap (λ c. advance k (zeros k c))
        (hw.emits n p base ws i h e (omega (arith, length-append xs (replicate k 0))))
      ∙ ap (advance k) (
          zeros_unmoved k n p base (ws ++ xs) (i + length xs) h (omega (arith, length-append ws xs))
            (omega (arith, length-append xs (replicate k 0), length-zeros k)))
      ∙ ap₂ (λ m (k : ℕ). at (write_at base m p) k) (append_assoc ws xs (replicate k 0))
          (omega (arith, length-append xs (replicate k 0), length-zeros k));
}

abbrev pub dns_bytes : List ℕ → List ℕ
dns_bytes [] = []
dns_bytes (dns ∷ rest) = store32 dns ++ dns_bytes rest

pub length-dns_bytes : (dns : List ℕ) → length (dns_bytes dns) ≡ 4 * length dns
unfolding store32
length-dns_bytes [] = refl
length-dns_bytes (d ∷ rest) = omega (arith, length-dns_bytes rest)

pub dns_array : (dns : List ℕ) → Emits (put_dns dns) (dns_bytes dns)
unfolding put_dns
dns_array [] = record {
  emits = λ n p base ws i h e le.
      ap₂ (λ m (k : ℕ). at (write_at base m p) k) (sym (append-nil ws)) (omega arith);
}
dns_array (d ∷ rest) = record {
  emits = (array 4 (store32 d) (length-store32 d) >>> dns_array rest).emits;
}
