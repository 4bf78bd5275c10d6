-- ===== src/Gateway/Inside/Rounds.antt =====
-- Gateway::serve, its first loop: every round comes to its end, and leaves the state fit for the next.
use gateway_socket.Base.{
  ℕ, ◌+◌, ◌≤◌, ◌≡◌, ◌≢◌, refl, inl, inr, Option, none, some, List, Bool-cases, find, find-assign,
  arith, ◌==◌, ltb, pos, length, u64,
}
use gateway_socket.Packet.{Packet, set_length}
use gateway_socket.Packet.Laws.{Holds}
use gateway_socket.Ethernet
use gateway_socket.Ethernet.{ethertype_arp}
use gateway_socket.Arp
use gateway_socket.Requests.{UserInfo}
use gateway_socket.Gateway.Tables.{Tables, received}
use gateway_socket.Gateway.Buffer.{
  IsBuffer, IsBacked, Known, received-Holds, received-IsBuffer, write-IsBuffer,
}
use gateway_socket.Gateway.Icmp.{icmp_mtu}
use gateway_socket.Gateway.Icmp.Laws.{icmp_mtu-reply_frame}
use gateway_socket.Gateway.Inside.{
  Verdict, fault, drop, offer, forward, rewrite_arp, Round, touch, finish_inside, on_inside,
}
use gateway_socket.Gateway.Inside.Admit.{Admitted}
use gateway_socket.Gateway.Inside.Passes.{
  Passes, arp_message, ip_packet, other_frame, inside_verdict-Passes,
}
use gateway_socket.Gateway.Inside.Total.{inside_verdict-ne-fault}

set_source-IsBuffer :
    (mac : List ℕ) (p : Packet) → IsBuffer p → IsBuffer (Ethernet.set_source 0 mac p)
unfolding Ethernet.set_source
set_source-IsBuffer mac p b = write-IsBuffer _ _ mac p refl b

rewrite_arp-IsBuffer : (mac : List ℕ) (p : Packet) → IsBuffer p → IsBuffer (rewrite_arp mac p)
unfolding rewrite_arp Arp.set_source_mac Ethernet.get_next_offset
rewrite_arp-IsBuffer mac p b = set_source-IsBuffer mac _ (write-IsBuffer _ _ mac p refl b)

-- What the entry of a user, if there is one, says.
abbrev IsUser : Tables → Option (ℕ × UserInfo) → Type 0
IsUser t who =
    (key : ℕ) (user : UserInfo) → who ≡ some (key, user) → find key t.user_map ≡ some user

module _ (t : Tables) (dest src : ℕ) (rewrite : List ℕ → Packet → Packet) (p q : Packet)
    (who : Option (ℕ × UserInfo)) (b : IsBuffer p)
    (keeps : (mac : List ℕ) → IsBuffer (rewrite mac p)) where
  Admitted-fit : Admitted t dest src rewrite p q who → IsBuffer q × IsUser t who
  Admitted-fit a = elim a.origin [
    | inl (s, u, same, nobody) ↦ (simp same b, λ key user e. ground (arith, nobody))
    | inr (user, mac, u, s, own, changed, somebody) ↦
        (simp changed (keeps mac), λ key user' e. ground (arith, somebody, u))
  ]

Passes-fit :
    (t : Tables) (n : ℕ) (p q : Packet) (who : Option (ℕ × UserInfo))
    → IsBuffer p
    → Passes t n p q who
    → IsBuffer q × IsUser t who
Passes-fit t n p q who b (arp_message dest src e plain d s a) =
    Admitted-fit t dest src rewrite_arp p q who b (λ mac. rewrite_arp-IsBuffer mac p b) a
Passes-fit t n p q who b (ip_packet dest src e long d s other a) =
    Admitted-fit t dest src (Ethernet.set_source 0) p q who b (λ mac. set_source-IsBuffer mac p b) a
Passes-fit t n p q who b (other_frame x y same nobody) =
    (simp same b, λ key user e. ground (arith, nobody))

touch-IsBacked :
    (now : ℕ) (t : Tables) (key : ℕ) (user : UserInfo)
    → IsBacked t
    → find key t.user_map ≡ some user
    → IsBacked (touch now t (key, user)).0
unfolding touch
touch-IsBacked now t key user backed present =
    elim (Bool-cases (ltb (u64 (user.last_access + user.timeout)) now)) [
      | inr e ↦ rw e backed
      | inl e ↦ rw e (λ ip u f. elim (Bool-cases (key == ip)) [
        | inl same ↦ let (mac, m) = backed key user present in (mac, ground arith)
        | inr other ↦ backed ip u (
            ground (
              arith,
              find-assign key ip (record user { last_access = now }) user t.user_map present,
            ))
      ])
    ]

-- The state between two rounds.
pub record IsFit (r : Round) : Type 0 where
  pub buffer : IsBuffer r.buffer
  pub backed : IsBacked r.tables

finish_inside-IsFit :
    (now : ℕ) (t : Tables) (n : ℕ) (p : Packet) (v : Verdict)
    → IsBuffer p
    → IsBacked t
    → v ≢ fault
    → ((q : Packet) (who : Option (ℕ × UserInfo)) → v ≡ forward q who → IsBuffer q × IsUser t who)
    → (r : Round) × (finish_inside now t p v ≡ some r) × IsFit r
unfolding finish_inside
finish_inside-IsFit now t n p fault b backed ok fit = absurd (ok refl)
finish_inside-IsFit now t n p drop b backed ok fit =
    (_, refl, record { buffer = b; backed = backed })
finish_inside-IsFit now t n p (offer r) b backed ok fit =
    (_, refl, record { buffer = b; backed = backed })
finish_inside-IsFit now t n p (forward q none) b backed ok fit =
    (_, refl, record { buffer = (fit q none refl).0; backed = backed })
finish_inside-IsFit now t n p (forward q (some (key, user))) b backed ok fit = (
  _,
  refl,
  record {
    buffer = (fit q (some (key, user)) refl).0;
    backed = touch-IsBacked now t key user backed ((fit q (some (key, user)) refl).1 key user refl);
  },
)

pub icmp_mtu-Known :
    {n : ℕ} {p : Packet} (block : List ℕ) (mtu : ℕ)
    → Holds n p
    → length block ≡ 70
    → Known (icmp_mtu block mtu p)
icmp_mtu-Known block mtu h sized = (_, icmp_mtu-reply_frame block mtu h sized)

-- A round of the first loop ends without undefined behaviour, whatever it reads and whatever the buffer
-- and the memory of the answer held, if every user's address is static, and a frame of ARP is as long
-- as an ARP message; the next round finds the buffer whole and every user's address static.
pub on_inside-IsFit :
    (now : ℕ) (block : List ℕ) (t : Tables) (buffer : Packet) (frame : List ℕ)
    → IsBuffer buffer
    → length block ≡ 70
    → IsBacked t
    → (Ethernet.get_protocol 0 (set_length (pos (length frame)) (received frame buffer))
          ≡ ethertype_arp
        → 42 ≤ length frame)
    → (r : Round) × (on_inside now block t buffer frame ≡ some r) × IsFit r
unfolding on_inside set_length
on_inside-IsFit now block t buffer frame b sized backed whole_arp =
    elim (Bool-cases (ltb 1514 (length frame))) [
      | inl long ↦ rw long (
          let (frames, sent) =
            icmp_mtu-Known block 1500 (received-Holds frame buffer 1514 b (omega arith)) sized in
          rw sent
            (_, refl, record { buffer = received-IsBuffer frame buffer _ b; backed = backed }))
      | inr fits ↦ rw fits (elim (Bool-cases (ltb (length frame) 14)) [
        | inl short ↦
            rw short
              (_, refl, record { buffer = received-IsBuffer frame buffer _ b; backed = backed })
        | inr enough ↦ rw enough (
            let h = received-Holds frame buffer (length frame) b (ground arith) in
            finish_inside-IsFit now t (length frame) _ _ (received-IsBuffer frame buffer _ b) backed
              (inside_verdict-ne-fault t backed h whole_arp)
              (λ q who e.
                Passes-fit t (length frame) _ q who (received-IsBuffer frame buffer _ b)
                  (inside_verdict-Passes t (length frame) _ q who e)))
      ])
    ]
