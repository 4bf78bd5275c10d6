-- ===== src/System/Frames.antt =====
-- The rounds of both packet loops leave the static addresses as they are, and only clients' requests reach
-- the database.
use gateway_socket.Base.{
  ℕ, zero, suc, ◌+◌, ◌≤◌, ◌≡◌, refl, sym, ap, subst, inl, inr, Bool-cases, Option-cases, Option,
  none, some, List, [], ◌∷◌, ltb, pos, u64, length, slice, splice, length-slice, length-splice,
  AllBytes, arith,
}
use mathlib.Core.List.{Memᴰ, map}
use mathlib.Core.List.Memᴰ
use gateway_socket.Packet.{Packet, set_length, outside, read_byte_array}
use gateway_socket.Ethernet
use gateway_socket.Requests.{DhcpRequest}
use gateway_socket.Gateway.Tables.{
  Tables, Effect, send_inside, send_outside, create_dhcp, update_time, received,
}
use gateway_socket.Gateway.Buffer.{IsBuffer}
use gateway_socket.Gateway.Icmp.{icmp_mtu}
use gateway_socket.Gateway.Inside.{
  Verdict, fault, drop, offer, forward, Round, touch, finish_inside, on_inside, inside_verdict,
}
use gateway_socket.Gateway.Inside.Offers.{inside_verdict-IsOffered}
use gateway_socket.Gateway.Outside.{Passage, outside_verdict, finish_outside, on_outside}
use gateway_socket.Gateway.Outside.Rounds.{IsKept, outside_verdict-IsKept}
use gateway_socket.System.Invariant.{IsClient}

slice-received :
    (j n : ℕ) (bs m : List ℕ)
    → j + n ≤ length bs
    → AllBytes bs
    → AllBytes (slice j n (splice 0 bs m))
unfolding splice
slice-received zero zero bs m h b = tt
slice-received (suc j) zero bs m h b = tt
slice-received zero (suc n) [] m h b = absurd (omega arith)
slice-received (suc j) (suc n) [] m h b = absurd (omega arith)
slice-received zero (suc n) (x ∷ bs) [] h b = tt
slice-received (suc j) (suc n) (x ∷ bs) [] h b = tt
slice-received zero (suc n) (x ∷ bs) (y ∷ m) h b =
    (b.0, slice-received zero n bs m (omega arith) b.1)
slice-received (suc j) (suc n) (x ∷ bs) (y ∷ m) h b =
    slice-received j (suc n) bs m (omega arith) b.1

-- The address that a frame came from is six of its bytes.
source-IsClient :
    (buffer : Packet) (frame : List ℕ) (r : DhcpRequest)
    → IsBuffer buffer
    → AllBytes frame
    → Ethernet.get_source 0 (set_length (pos (length frame)) (received frame buffer)) ≡ some r.mac
    → IsClient r
unfolding Ethernet.get_source read_byte_array set_length
source-IsClient buffer frame r b bytes h =
    elim (Bool-cases
      (outside (pos 6) (pos 12) (set_length (pos (length frame)) (received frame buffer)))) [
        | inl e ↦ ground arith
        | inr e ↦
            let mac : slice 6 6 (splice 0 frame buffer.in_memory) ≡ r.mac = ground arith in
            let long : 12 ≤ length frame = ground arith in
            record {
              size = rw (← mac) (
                  length-slice 6 6 (splice 0 frame buffer.in_memory)
                    (omega (arith, length-splice 0 frame buffer.in_memory, b.block)));
              bytes = rw (← mac) (slice-received 6 6 frame buffer.in_memory long bytes);
            }
      ]

-- The requests among the effects of a round.
abbrev pub asked : List Effect → List DhcpRequest
asked [] = []
asked (send_inside frame ∷ rest) = asked rest
asked (send_outside frame ∷ rest) = asked rest
asked (create_dhcp r ∷ rest) = r ∷ asked rest
asked (update_time r ∷ rest) = asked rest

abbrev offered : Verdict → List DhcpRequest
offered fault = []
offered drop = []
offered (offer r) = r ∷ []
offered (forward q who) = []

-- A round keeps the static addresses, and asks for what the verdict offers.
abbrev Keeps : Tables → Verdict → Round → Type 0
Keeps t v r = (r.tables.static_ip_map ≡ t.static_ip_map) × (asked r.effects ≡ offered v)

finish_inside-Keeps :
    (now : ℕ) (t : Tables) (p : Packet) (v : Verdict) (r : Round)
    → finish_inside now t p v ≡ some r
    → Keeps t v r
unfolding finish_inside touch
finish_inside-Keeps now t p fault r h = ground arith
finish_inside-Keeps now t p drop r h = ground arith
finish_inside-Keeps now t p (offer q) r h = ground arith
finish_inside-Keeps now t p (forward q none) r h = ground arith
finish_inside-Keeps now t p (forward q (some (key, user))) r h =
    elim (Bool-cases (ltb (u64 (user.last_access + user.timeout)) now)) [
      | inl e ↦ let h' = rw e at h in ground arith
      | inr e ↦ let h' = rw e at h in ground arith
    ]

offered-Mem : (v : Verdict) (q : DhcpRequest) → Memᴰ q (offered v) → v ≡ offer q
offered-Mem fault q m = absurd (Memᴰ.not-nil m)
offered-Mem drop q m = absurd (Memᴰ.not-nil m)
offered-Mem (forward p who) q m = absurd (Memᴰ.not-nil m)
offered-Mem (offer r) q m = elim (Memᴰ.cases_cons m) [
  | inl same ↦ ap offer (sym same)
  | inr m' ↦ absurd (Memᴰ.not-nil m')
]

asked-sent : (frames : List (List ℕ)) → asked (map send_inside frames) ≡ []
asked-sent [] = refl
asked-sent (frame ∷ frames) = asked-sent frames

asked-sent_out : (frames : List (List ℕ)) → asked (map send_outside frames) ≡ []
asked-sent_out [] = refl
asked-sent_out (frame ∷ frames) = asked-sent_out frames

-- A round of the first loop keeps the static addresses, and asks the database for clients only.
pub on_inside-Keeps :
    (now : ℕ) (block : List ℕ) (t : Tables) (buffer : Packet) (frame : List ℕ) (r : Round)
    → IsBuffer buffer
    → AllBytes frame
    → on_inside now block t buffer frame ≡ some r
    → (r.tables.static_ip_map ≡ t.static_ip_map)
      × ((q : DhcpRequest) → Memᴰ q (asked r.effects) → IsClient q)
unfolding on_inside
on_inside-Keeps now block t buffer frame r b bytes h = elim (Bool-cases (ltb 1514 (length frame))) [
  | inl long ↦ elim (Option-cases (icmp_mtu block 1500 cut)) [
    | inl failed ↦ ground arith
    | inr (frames, sent) ↦
        let h' = rw (long, sent) at h in
        let quiet : asked r.effects ≡ [] = ground (arith, asked-sent frames) in
        (ground arith, λ q m. absurd (Memᴰ.not-nil (rw quiet at m)))
  ]
  | inr fits ↦ elim (Bool-cases (ltb (length frame) 14)) [
    | inl short ↦
        let h' = rw (fits, short) at h in
        let quiet : asked r.effects ≡ [] = ground arith in
        (ground arith, λ q m. absurd (Memᴰ.not-nil (rw quiet at m)))
    | inr enough ↦
        let h' : finish_inside now t whole (inside_verdict t (length frame) whole) ≡ some r =
          rw (fits, enough) at h in
        let (same, from) = finish_inside-Keeps now t whole _ r h' in
        (
          same,
          λ q m.
              source-IsClient buffer frame q b bytes
                (inside_verdict-IsOffered t (length frame) whole q
                  (offered-Mem _ q (subst (Memᴰ q) from m))).1.own,
        )
  ]
]
  where
    cut : Packet
    cut = set_length (pos 1514) (received frame buffer)

    whole : Packet
    whole = set_length (pos (length frame)) (received frame buffer)

finish_outside-Keeps :
    (p : Packet) (v : Passage) (r : Round)
    → finish_outside p v ≡ some r
    → (asked r.effects ≡ []) × (o : Option Packet) × (v ≡ some (r.tables, o))
unfolding finish_outside
finish_outside-Keeps p none r h = ground arith
finish_outside-Keeps p (some (t, none)) r h = (ground arith, none, ground arith)
finish_outside-Keeps p (some (t, some q)) r h = (ground arith, some q, ground arith)

kept-static : (t t' : Tables) → IsKept t t' → t'.static_ip_map ≡ t.static_ip_map
kept-static t t' (inl same) = ap (λ u. u.static_ip_map) same
kept-static t t' (inr (dest, same)) = ap (λ u. u.static_ip_map) same

-- A round of the second loop keeps the static addresses, and asks the database for nothing.
pub on_outside-Keeps :
    (block : List ℕ) (t : Tables) (buffer : Packet) (frame : List ℕ) (r : Round)
    → on_outside block t buffer frame ≡ some r
    → (r.tables.static_ip_map ≡ t.static_ip_map) × (asked r.effects ≡ [])
unfolding on_outside
on_outside-Keeps block t buffer frame r h = elim (Bool-cases (ltb 1514 (length frame))) [
  | inl long ↦ elim (Option-cases (icmp_mtu block 1500 cut)) [
    | inl failed ↦ ground arith
    | inr (frames, sent) ↦
        let h' = rw (long, sent) at h in (ground arith, ground (arith, asked-sent_out frames))
  ]
  | inr fits ↦
      let h' : finish_outside whole (outside_verdict t (length frame) whole) ≡ some r =
        rw fits at h in
      let (quiet, o, e) = finish_outside-Keeps whole _ r h' in
      (kept-static t r.tables (outside_verdict-IsKept t whole r.tables o (length frame) e), quiet)
]
  where
    cut : Packet
    cut = set_length (pos 1514) (received frame buffer)

    whole : Packet
    whole = set_length (pos (length frame)) (received frame buffer)
