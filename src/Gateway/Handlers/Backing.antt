-- ===== src/Gateway/Handlers/Backing.antt =====
-- The maps of class Gateway: what requests for other keys, and removals, leave of an entry.
use gateway_socket.Base.{
  ℕ, ◌≡◌, refl, inl, inr, Option, none, some, List, [], ◌∷◌, Bool-cases, ◌==◌, arith,
}
use gateway_socket.Gateway.Buffer.{Known}
use gateway_socket.Gateway.Handlers.Laws.{latest, without}

pub latest-Known {ℓ} :
    {V : Type ℓ} (ip : ℕ) (requests : List (ℕ × V)) (old : Option V)
    → Known old
    → Known (latest ip requests old)
latest-Known ip [] old k = k
latest-Known ip ((key, v) ∷ rest) old k = elim (Bool-cases (key == ip)) [
  | inl e ↦ rw e (latest-Known ip rest (some v) (v, refl))
  | inr e ↦ rw e (latest-Known ip rest old k)
]

pub without-none {ℓ} :
    {V : Type ℓ} (ip : ℕ) (requests : List ℕ) → without {V = V} ip requests none ≡ none
without-none ip [] = refl
without-none ip (key ∷ rest) = elim (Bool-cases (key == ip)) [
  | inl e ↦ rw e (without-none ip rest)
  | inr e ↦ rw e (without-none ip rest)
]

pub without-some {ℓ} :
    {V : Type ℓ} (ip : ℕ) (requests : List ℕ) (old : Option V) (v : V)
    → without ip requests old ≡ some v
    → old ≡ some v
without-some ip [] old v h = h
without-some {V = V} ip (key ∷ rest) old v h = elim (Bool-cases (key == ip)) [
  | inl e ↦
      let gone : without ip rest none ≡ some v = rw e at h in
      ground (arith, without-none {V = V} ip rest)
  | inr e ↦ without-some ip rest old v (rw e at h)
]
