-- ===== src/Gateway/Outside/Admit.antt =====
-- Gateway::serve, frames from outside: which addresses they may have, and which hardware address they get.
use gateway_socket.Base.{
  ℕ, ◌≡◌, ◌⊎◌, refl, sym, inl, inr, none, some, List, Bool, true, false, Bool-cases, Option-cases,
  find, find-erase, bytes_eq, bytes_eq→eq, arith, if◌then◌else◌, ◌==◌,
}
use gateway_socket.Packet.{Packet}
use gateway_socket.Ethernet
use gateway_socket.Ethernet.{ethertype_ip, ethertype_arp}
use gateway_socket.Arp
use gateway_socket.Requests.{UserInfo}
use gateway_socket.Gateway.Tables.{Tables}
use gateway_socket.Gateway.Outside.{
  Passage, broadcast, forget, deliver_arp, admit_arp, deliver_ip, admit_ip,
}

-- The same users, less the one of `ip`.
pub record Forgets (ip : ℕ) (t t' : Tables) : Type 0 where
  pub static_kept : t'.static_ip_map ≡ t.static_ip_map
  pub users : (j : ℕ) → find j t'.user_map ≡ (if ip == j then none else find j t.user_map)

-- The packet `q` enters in place of `p`, which came from the address `src` and goes to `dest`; `arp`
-- says which protocol it is of, `rewrite` puts in the user's hardware address.
pub data Delivers (arp : Bool) (t : Tables) (dest src : ℕ) (rewrite : List ℕ → Packet → Packet)
    (p : Packet) (t' : Tables) (q : Packet) : Type 0 where
  -- To the user of a static address, if it was sent to the hardware address of that address.
  to_user :
      (static_mac mac : List ℕ) (user : UserInfo)
      → find dest t.static_ip_map ≡ some static_mac
      → find dest t.user_map ≡ some user
      → Ethernet.get_destination 0 p ≡ some mac
      → (static_mac ≡ mac) ⊎ ((arp ≡ true) × (broadcast ≡ mac))
      → q ≡ rewrite user.user_mac p
      → t' ≡ t
      → Delivers arp t dest src rewrite p t' q
  -- Only ARP reaches a static address that no user has.
  to_nobody :
      arp ≡ true
      → find dest t.user_map ≡ none
      → q ≡ p
      → t' ≡ t
      → Delivers arp t dest src rewrite p t' q
  to_other :
      find dest t.static_ip_map ≡ none
      → q ≡ p
      → Forgets dest t t'
      → Delivers arp t dest src rewrite p t' q

forget-Forgets : (ip : ℕ) (t : Tables) → Forgets ip t (forget ip t)
forget-Forgets ip t = record { static_kept = refl; users = λ j. find-erase ip j t.user_map }

same-Forgets : (ip : ℕ) (t : Tables) → find ip t.user_map ≡ none → Forgets ip t t
same-Forgets ip t h = record {
  static_kept = refl;
  users = λ j. elim (Bool-cases (ip == j)) [
    | inr e ↦ rw e refl
    | inl e ↦ let same : ip ≡ j = ground arith in rw (e, sym same) h
  ];
}

-- The rewriting of an ARP message: both copies of the destination's hardware address.
abbrev pub rewrite_destination_arp : List ℕ → Packet → Packet
rewrite_destination_arp mac p =
    Ethernet.set_destination 0 mac (Arp.set_destination_mac (Ethernet.get_next_offset 0) mac p)

module _ (t : Tables) (dest src : ℕ) (p : Packet) (t' : Tables) (q : Packet) where
  deliver_arp-Delivers :
      (static_mac : List ℕ) (user : UserInfo) (mac : List ℕ)
      → find dest t.static_ip_map ≡ some static_mac
      → find dest t.user_map ≡ some user
      → Ethernet.get_destination 0 p ≡ some mac
      → deliver_arp t static_mac user p mac ≡ some (t', some q)
      → Delivers true t dest src rewrite_destination_arp p t' q
  unfolding deliver_arp
  deliver_arp-Delivers static_mac user mac s u m h = elim (Bool-cases (bytes_eq static_mac mac)) [
    | inl e ↦
        to_user static_mac mac user s u m (inl (bytes_eq→eq static_mac mac e)) (ground arith)
          (ground arith)
    | inr e ↦ elim (Bool-cases (bytes_eq broadcast mac)) [
      | inl k ↦
          to_user static_mac mac user s u m (inr (refl, bytes_eq→eq broadcast mac k)) (ground arith)
            (ground arith)
      | inr k ↦ ground arith
    ]
  ]

  pub admit_arp-Delivers :
      admit_arp t dest src p ≡ some (t', some q)
      → (find src t.static_ip_map ≡ none) × Delivers true t dest src rewrite_destination_arp p t' q
  unfolding admit_arp
  admit_arp-Delivers h = elim (Option-cases (find src t.static_ip_map)) [
    | inr (m, s) ↦ ground arith
    | inl s ↦ (
      s,
      elim (Option-cases (find dest t.static_ip_map)) [
        | inr (static_mac, d) ↦ elim (Option-cases (find dest t.user_map)) [
          | inl u ↦ to_nobody refl u (ground arith) (ground arith)
          | inr (user, u) ↦ elim (Option-cases (Ethernet.get_destination 0 p)) [
            | inl m ↦ ground arith
            | inr (mac, m) ↦ deliver_arp-Delivers static_mac user mac d u m (ground arith)
          ]
        ]
        | inl d ↦ elim (Option-cases (find dest t.user_map)) [
          | inl u ↦
              let same : t' ≡ t = ground arith in
              to_other d (ground arith) (rw same (same-Forgets dest t u))
          | inr (user, u) ↦
              let same : t' ≡ forget dest t = ground arith in
              to_other d (ground arith) (rw same (forget-Forgets dest t))
        ]
      ],
    )
  ]

  -- `last` sees the packet and the tables that this part made.
  pub admit_ip-Delivers :
      (last : Tables → Packet → Passage)
      → admit_ip t dest src last p ≡ some (t', some q)
      → (find src t.static_ip_map ≡ none)
        × ((t1 : Tables) × (q1 : Packet) × Delivers false t dest src
              (Ethernet.set_destination 0)
              p
              t1
              q1
            × (last t1 q1 ≡ some (t', some q)))
  unfolding admit_ip deliver_ip
  admit_ip-Delivers last h = elim (Option-cases (find src t.static_ip_map)) [
    | inr (m, s) ↦ ground arith
    | inl s ↦ (
      s,
      elim (Option-cases (find dest t.static_ip_map)) [
        | inr (static_mac, d) ↦ elim (Option-cases (find dest t.user_map)) [
          | inl u ↦ ground arith
          | inr (user, u) ↦ elim (Option-cases (Ethernet.get_destination 0 p)) [
            | inl m ↦ ground arith
            | inr (mac, m) ↦ elim (Bool-cases (bytes_eq static_mac mac)) [
              | inr e ↦ ground arith
              | inl e ↦ (
                t,
                _,
                to_user static_mac mac user d u m (inl (bytes_eq→eq static_mac mac e)) refl refl,
                ground arith,
              )
            ]
          ]
        ]
        | inl d ↦ elim (Option-cases (find dest t.user_map)) [
          | inl u ↦ (t, p, to_other d refl (same-Forgets dest t u), ground arith)
          | inr (user, u) ↦ (_, p, to_other d refl (forget-Forgets dest t), ground arith)
        ]
      ],
    )
  ]
