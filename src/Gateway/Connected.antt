-- ===== src/Gateway/Connected.antt =====
-- Gateway::serve, both loops: what a user of a static address can send and gets, and who is cut off.
use gateway_socket.Base.{
  ℕ, ◌+◌, ◌≤◌, ◌≡◌, ◌≢◌, refl, sym, ap, ◌∙◌, inl, inr, Option, arith, none, some, List, find,
}
use gateway_socket.Packet.{Packet}
use gateway_socket.Packet.Laws.{Holds}
use gateway_socket.Ethernet
use gateway_socket.Ethernet.{ethertype_ip}
use gateway_socket.Ip
use gateway_socket.Requests.{UserInfo}
use gateway_socket.Gateway.Tables.{Tables}
use gateway_socket.Gateway.Inside.{forward, inside_verdict}
use gateway_socket.Gateway.Inside.Passes.{IsDhcpRequest, arp_message, ip_packet, other_frame}
use gateway_socket.Gateway.Inside.Exactly.{inside_verdict-Passes_iff}
use gateway_socket.Gateway.Outside.{outside_verdict}
use gateway_socket.Gateway.Outside.Admit.{to_user, to_nobody, to_other}
use gateway_socket.Gateway.Outside.Passes.{
  IsBetween, arp_message as arp_entered, ip_packet as ip_entered, other_frame as other_entered,
}
use gateway_socket.Gateway.Outside.Alike.{AreAlike}
use gateway_socket.Gateway.Outside.Exactly.{outside_verdict-Enters_iff}

-- An IP packet of `n` bytes, long enough to be judged, between two addresses.
pub record IsPacket (n : ℕ) (p : Packet) (src dest : ℕ) : Type 0 where
  pub holds : Holds n p
  pub is_ip : Ethernet.get_protocol 0 p ≡ ethertype_ip
  pub long : 14 + Ip.get_next_offset 14 p ≤ n
  pub comes : Ip.get_source 14 p ≡ some src
  pub goes : Ip.get_destination 14 p ≡ some dest

-- The user of the address `ip` reaches the outside network, under the hardware address of the static
-- address, and is reached from there.
pub record IsConnected (t : Tables) (ip : ℕ) (user : UserInfo) (static_mac : List ℕ) : Type 0 where
  pub leaves :
      (n : ℕ) (p : Packet) (dest : ℕ)
      → IsPacket n p ip dest
      → ¬ IsDhcpRequest p
      → find dest t.static_ip_map ≡ none
      → Ethernet.get_source 0 p ≡ some user.user_mac
      → inside_verdict t n p ≡ forward (Ethernet.set_source 0 static_mac p) (some (ip, user))
  pub enters :
      (n : ℕ) (p : Packet) (src : ℕ)
      → IsPacket n p src ip
      → ¬ IsBetween 67 68 p
      → src ≢ 0
      → find src t.static_ip_map ≡ none
      → Ethernet.get_destination 0 p ≡ some static_mac
      → (t' : Tables) × (outside_verdict t n p
          ≡ some (t', some (Ethernet.set_destination 0 user.user_mac p)))
        × AreAlike t t'

-- A user whose address is static is connected.
pub user-IsConnected :
    (t : Tables) (ip : ℕ) (user : UserInfo) (static_mac : List ℕ)
    → find ip t.user_map ≡ some user
    → find ip t.static_ip_map ≡ some static_mac
    → IsConnected t ip user static_mac
user-IsConnected t ip user static_mac known static = record {
  leaves = λ n p dest v other foreign own. (inside_verdict-Passes_iff t n p _ _ v.holds).1 (
      ip_packet dest ip v.is_ip v.long v.goes v.comes other (record {
        leaves = foreign;
        origin = inr (user, static_mac, known, static, own, refl, refl);
      }));
  enters = λ n p src v reply real foreign own. (outside_verdict-Enters_iff t n p t _ v.holds).1 (
      ip_entered ip src v.is_ip v.long v.goes v.comes reply (λ h. real h.0) foreign
        (to_user static_mac static_mac user static known own (inl refl) refl refl));
}

-- Nothing from the address leaves, and nothing to it enters.
pub record IsCut (t : Tables) (ip : ℕ) : Type 0 where
  pub stays :
      (n : ℕ) (p q : Packet) (dest : ℕ) (who : Option (ℕ × UserInfo))
      → IsPacket n p ip dest
      → inside_verdict t n p ≢ forward q who
  pub bars :
      (n : ℕ) (p q : Packet) (src : ℕ) (t' : Tables)
      → IsPacket n p src ip
      → outside_verdict t n p ≢ some (t', some q)

-- A static address that no user has is cut off.
pub nobody-IsCut :
    (t : Tables) (ip : ℕ) (static_mac : List ℕ)
    → find ip t.user_map ≡ none
    → find ip t.static_ip_map ≡ some static_mac
    → IsCut t ip
nobody-IsCut t ip static_mac nobody static = record {
  stays = λ n p q dest who v h. elim ((inside_verdict-Passes_iff t n p q who v.holds).0 h) [
    | arp_message d s e plain dd ss a ↦ absurd (ground (arith, e, v.is_ip))
    | ip_packet d s e room dd ss other a ↦
        let comes = v.comes in
        let same : s ≡ ip = cc in
        elim a.origin [
          | inl (none_static, u, changed, w) ↦
              let gone = sym (ap (λ k. find k t.static_ip_map) same) ∙ none_static in absurd (cc)
          | inr (user, mac, known, m, own, changed, w) ↦
              let there = sym (ap (λ k. find k t.user_map) same) ∙ known in absurd (cc)
        ]
    | other_frame x y changed w ↦ absurd (y v.is_ip)
  ];
  bars = λ n p q src t' v h. elim ((outside_verdict-Enters_iff t n p t' q v.holds).0 h) [
    | arp_entered d s e plain dd ss foreign a ↦ absurd (ground (arith, e, v.is_ip))
    | ip_entered d s e room dd ss reply request foreign a ↦
        let goes = v.goes in
        let same : d ≡ ip = cc in
        elim a [
          | to_user mac m user x known w z changed kept ↦
              let there = sym (ap (λ k. find k t.user_map) same) ∙ known in absurd (cc)
          | to_nobody arp u changed kept ↦ absurd (cc)
          | to_other none_static changed f ↦
              let gone = sym (ap (λ k. find k t.static_ip_map) same) ∙ none_static in absurd (cc)
        ]
    | other_entered x y changed kept ↦ absurd (y v.is_ip)
  ];
}
