-- ===== src/Gateway/Inside/Admit.antt =====
-- Gateway::serve, frames from inside: whose frames pass, and with which hardware address.
use gateway_socket.Base.{
  ℕ, ◌≡◌, ◌⊎◌, ◌↔◌, bytes_eq_refl, refl, sym, ap, ◌∙◌, inl, inr, Option, none, some, List,
  Bool-cases, Option-cases, find, bytes_eq, bytes_eq→eq, arith,
}
use gateway_socket.Packet.{Packet}
use gateway_socket.Ethernet
use gateway_socket.Requests.{UserInfo}
use gateway_socket.Gateway.Tables.{Tables}
use gateway_socket.Gateway.Inside.{fault, forward, forward_user, admit_inside}

-- The packet `q` leaves for the outside in place of `p`, which came from the address `src` and goes to
-- `dest`; `who` is its user.
pub record Admitted (t : Tables) (dest src : ℕ) (rewrite : List ℕ → Packet → Packet) (p q : Packet)
    (who : Option (ℕ × UserInfo)) : Type 0 where
  -- The destination is no static address.
  pub leaves : find dest t.static_ip_map ≡ none
  -- Either the source is neither static nor a user's, and the frame is as it came; or it is the
  -- static address of a user, the frame came from that user's hardware address, and now bears that
  -- of the static address.
  pub origin :
      ((find src t.static_ip_map ≡ none) × (find src t.user_map ≡ none) × (q ≡ p) × (who ≡ none))
      ⊎ ((user : UserInfo) × (static_mac : List ℕ) × (find src t.user_map ≡ some user)
          × (find src t.static_ip_map ≡ some static_mac)
          × (Ethernet.get_source 0 p ≡ some user.user_mac)
          × (q ≡ rewrite static_mac p)
          × (who ≡ some (src, user)))

module _ (t : Tables) (dest src : ℕ) (rewrite : List ℕ → Packet → Packet) (p : Packet) where
  -- A frame of a user, from any hardware address.
  forward_user-Admitted :
      (user : UserInfo) (mac : List ℕ) (q : Packet) (who : Option (ℕ × UserInfo))
      → find dest t.static_ip_map ≡ none
      → find src t.user_map ≡ some user
      → Ethernet.get_source 0 p ≡ some mac
      → forward_user t src user rewrite p mac ≡ forward q who
      → Admitted t dest src rewrite p q who
  unfolding forward_user
  forward_user-Admitted user mac q who d u m h = elim (Bool-cases (bytes_eq user.user_mac mac)) [
    | inr e ↦ ground arith
    | inl e ↦ elim (Option-cases (find src t.static_ip_map)) [
      | inl s ↦ ground arith
      | inr (static_mac, s) ↦ record {
        leaves = d;
        origin = inr (
          user,
          static_mac,
          u,
          s,
          m ∙ ap some (sym (bytes_eq→eq user.user_mac mac e)),
          ground arith,
          ground arith,
        );
      }
    ]
  ]

  pub admit_inside-Admitted :
      (q : Packet) (who : Option (ℕ × UserInfo))
      → admit_inside t dest src rewrite p ≡ forward q who
      → Admitted t dest src rewrite p q who
  unfolding admit_inside
  admit_inside-Admitted q who h = elim (Option-cases (find dest t.static_ip_map)) [
    | inr (m, d) ↦ ground arith
    | inl d ↦ elim (Option-cases (find src t.user_map)) [
      | inr (user, u) ↦ elim (Option-cases (Ethernet.get_source 0 p)) [
        | inl m ↦ ground arith
        | inr (mac, m) ↦ forward_user-Admitted user mac q who d u m (ground arith)
      ]
      | inl u ↦ elim (Option-cases (find src t.static_ip_map)) [
        | inr (m, s) ↦ ground arith
        | inl s ↦ record { leaves = d; origin = inl (s, u, ground arith, ground arith) }
      ]
    ]
  ]

-- A frame whose source hardware address was read comes to `srcIter->second` at the end of the map
-- exactly if it goes to no static address and comes from the address of a user, which is not
-- static, and from that user's hardware address.
pub admit_inside-fault_iff :
    (t : Tables) (dest src : ℕ) (rewrite : List ℕ → Packet → Packet) (p : Packet) (mac : List ℕ)
    → Ethernet.get_source 0 p ≡ some mac
    → (admit_inside t dest src rewrite p ≡ fault) ↔ (
        (find dest t.static_ip_map ≡ none)
        × (find src t.static_ip_map ≡ none)
        × (user : UserInfo) × (find src t.user_map ≡ some user)
        × (user.user_mac ≡ mac))
unfolding admit_inside forward_user
admit_inside-fault_iff t dest src rewrite p mac m = (
  λ f. elim (Option-cases (find dest t.static_ip_map)) [
    | inr (s, d) ↦ ground arith
    | inl d ↦ elim (Option-cases (find src t.user_map)) [
      | inl u ↦ ground arith
      | inr (user, u) ↦ elim (Bool-cases (bytes_eq user.user_mac mac)) [
        | inr e ↦ ground arith
        | inl e ↦ (d, ground arith, user, u, bytes_eq→eq user.user_mac mac e)
      ]
    ]
  ],
  λ (d, s, user, u, e). rw (admit_inside, forward_user, d, u, m, e, bytes_eq_refl mac, s) refl,
)
