-- ===== src/Gateway/Outside/Alike.antt =====
-- Gateway::serve, frames from outside: those with the right addresses are delivered.
use gateway_socket.Base.{
  ℕ, ◌≡◌, refl, sym, ◌∙◌, inl, inr, none, some, true, false, Bool-cases, Option-cases, find,
  find-erase, bytes_eq_refl, arith, ◌==◌,
}
use gateway_socket.Packet.{Packet}
use gateway_socket.Ethernet
use gateway_socket.Ethernet.{ethertype_ip, ethertype_arp}
use gateway_socket.Gateway.Tables.{Tables}
use gateway_socket.Gateway.Icmp.{◌>>=◌}
use gateway_socket.Gateway.Outside.{
  Passage, broadcast, forget, deliver_arp, admit_arp, deliver_ip, admit_ip,
}
use gateway_socket.Gateway.Outside.Admit.{
  Forgets, Delivers, to_user, to_nobody, to_other, rewrite_destination_arp,
}

-- Tables that no lookup tells apart.
abbrev pub AreAlike : Tables → Tables → Type 0
AreAlike t t' =
    (t'.static_ip_map ≡ t.static_ip_map) × ((ip : ℕ) → find ip t'.user_map ≡ find ip t.user_map)

-- The tables behind a frame to an address that is not static.
abbrev forgotten : ℕ → Tables → Tables
forgotten dest t = elim (find dest t.user_map) [ some user ↦ forget dest t | none ↦ t ]

forgotten-AreAlike : (dest : ℕ) (t t' : Tables) → Forgets dest t t' → AreAlike t' (forgotten dest t)
forgotten-AreAlike dest t t' f = elim (Option-cases (find dest t.user_map)) [
  | inl u ↦
      rw (forgotten, u)
        (
          sym f.static_kept,
          λ ip. elim (Bool-cases (dest == ip)) [
            | inr e ↦ rw (f.users ip, e) refl
            | inl e ↦ let same : dest ≡ ip = ground arith in rw (f.users ip, e, sym same) u
          ],
        )
  | inr (user, u) ↦
      rw (forgotten, u) (sym f.static_kept, λ ip. find-erase dest ip t.user_map ∙ sym (f.users ip))
]

module _ (t : Tables) (dest src : ℕ) (p : Packet) (t' : Tables) (q : Packet)
    (foreign : find src t.static_ip_map ≡ none) where
  pub Delivers-admit_arp :
      Delivers true t dest src rewrite_destination_arp p t' q
      → (t'' : Tables) × (admit_arp t dest src p ≡ some (t'', some q)) × AreAlike t' t''
  unfolding admit_arp deliver_arp
  Delivers-admit_arp (to_user static_mac mac user s u m at' changed same) = (
    t,
    elim at' [
      | inl e ↦
          rw (admit_arp, foreign, s, u, m, ◌>>=◌, deliver_arp, e, bytes_eq_refl mac, changed) refl
      | inr (e, k) ↦
          rw
            (admit_arp, foreign, s, u, m, ◌>>=◌, deliver_arp, ← k, bytes_eq_refl broadcast, changed)
            (ground arith)
    ],
    rw same (refl, λ ip. refl),
  )
  Delivers-admit_arp (to_nobody arp u changed same) = (
    t,
    elim (Option-cases (find dest t.static_ip_map)) [
      | inl s ↦ rw (admit_arp, foreign, s, u, changed) refl
      | inr (mac, s) ↦ rw (admit_arp, foreign, s, u, changed) refl
    ],
    rw same (refl, λ ip. refl),
  )
  Delivers-admit_arp (to_other s changed f) = (
    forgotten dest t,
    elim (Option-cases (find dest t.user_map)) [
      | inl u ↦ rw (admit_arp, foreign, s, forgotten, u, changed) refl
      | inr (user, u) ↦ rw (admit_arp, foreign, s, forgotten, u, changed) refl
    ],
    forgotten-AreAlike dest t t' f,
  )

  pub Delivers-admit_ip :
      (last : Tables → Packet → Passage)
      → Delivers false t dest src (Ethernet.set_destination 0) p t' q
      → (t'' : Tables) × (admit_ip t dest src last p ≡ last t'' q) × AreAlike t' t''
  unfolding admit_ip deliver_ip
  Delivers-admit_ip last (to_user static_mac mac user s u m at' changed same) = (
    t,
    elim at' [
      | inl e ↦
          rw (admit_ip, foreign, s, u, m, ◌>>=◌, deliver_ip, e, bytes_eq_refl mac, changed) refl
      | inr (e, k) ↦ cc
    ],
    rw same (refl, λ ip. refl),
  )
  Delivers-admit_ip last (to_nobody arp u changed same) = cc
  Delivers-admit_ip last (to_other s changed f) = (
    forgotten dest t,
    elim (Option-cases (find dest t.user_map)) [
      | inl u ↦ rw (admit_ip, foreign, s, forgotten, u, changed) refl
      | inr (user, u) ↦ rw (admit_ip, foreign, s, forgotten, u, changed) refl
    ],
    forgotten-AreAlike dest t t' f,
  )
