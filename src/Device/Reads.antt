-- ===== src/Device/Reads.antt =====
-- Device::readPacket: which frames a loop over it receives.
use gateway_socket.Base.{
  ℕ, zero, suc, ◌≤◌, ◌≡◌, refl, sym, ap, ap₂, ◌∙◌, ltb, ◌==◌, Bool, not, ◌&&◌, Bool-cases, inl, inr,
  if◌then◌else◌, pos, negsuc, is_negative, to_ℕ, List, [], ◌∷◌, length, take, drop, splice,
  length-splice, length-take, leb, take-length, slice-splice_self, filter, map, arith,
}
use gateway_socket.Device.{Message, Read, read_packet, arphrd_ether, packet_outgoing, sockaddr_size}

-- A frame that arrives at the device, and that the host did not send itself.
abbrev pub is_incoming : ℕ → Message → Bool
is_incoming dev_id m =
    (m.hardware_type == arphrd_ether)
    && not (ltb sockaddr_size m.address_length)
    && (m.interface == dev_id)
    && not (m.packet_type == packet_outgoing)

-- `for(burst = 0; burst < count; burst++)` of Gateway::serve, but for the frames' treatment: the
-- frames that are read, and what still waits.
unfoldable pub reads : ℕ → ℕ → ℕ → List ℕ → List Message → List (List ℕ) × List Message
reads dev_id limit zero buffer queue = ([], queue)
reads dev_id limit (suc count) buffer queue =
    let r = read_packet dev_id limit buffer queue in
    let rest = reads dev_id limit count r.buffer r.queue in
    if is_negative r.read_byte
    then ([], r.queue)
    else (take (to_ℕ r.read_byte) r.buffer ∷ rest.0, rest.1)

module _ (dev_id limit : ℕ) where
  read_packet-step :
      (buffer : List ℕ) (m : Message) (queue : List Message)
      → read_packet dev_id limit buffer (m ∷ queue) ≡ (
          if is_incoming dev_id m
          then record {
            read_byte = pos (length m.bytes);
            buffer = splice 0 (take limit m.bytes) buffer;
            queue = queue;
          }
          else read_packet dev_id limit (splice 0 (take limit m.bytes) buffer) queue)
  unfolding read_packet
  read_packet-step buffer m queue = ground arith

  -- The read of the first of the incoming frames.
  abbrev First : Read → List Message → Type 0
  First r [] = (r.read_byte ≡ negsuc 0) × (r.queue ≡ [])
  First r (m ∷ rest) =
      (r.read_byte ≡ pos (length m.bytes))
      × (take (length m.bytes) r.buffer ≡ take limit m.bytes)
      × (length r.buffer ≡ limit)
      × (filter (is_incoming dev_id) r.queue ≡ rest)

  cut :
      (bs buffer : List ℕ)
      → length buffer ≡ limit
      → take (length bs) (splice 0 (take limit bs) buffer) ≡ take limit bs
  cut bs buffer h = elim (Bool-cases (leb (length bs) limit)) [
    | inl le ↦
        let short : length bs ≤ limit = ground arith in
        rw (take-length limit bs short)
          (slice-splice_self 0 (length bs) bs buffer refl (omega (arith, h, short)))
    | inr gt ↦
        let long : limit ≤ length bs = ground arith in
        let sized : length (splice 0 (take limit bs) buffer) ≡ limit =
          length-splice 0 (take limit bs) buffer ∙ h in
        take-length (length bs) (splice 0 (take limit bs) buffer) (omega (arith, sized, long))
        ∙ sym (take-length limit (splice 0 (take limit bs) buffer) (omega (arith, sized)))
        ∙ slice-splice_self 0 limit (take limit bs) buffer (length-take limit bs long)
            (omega (arith, h))
  ]

  read_packet-First :
      (buffer : List ℕ) (queue : List Message)
      → length buffer ≡ limit
      → First (read_packet dev_id limit buffer queue) (filter (is_incoming dev_id) queue)
  unfolding filter
  read_packet-First buffer [] h = (unfold read_packet in refl, unfold read_packet in refl)
  read_packet-First buffer (m ∷ queue) h = elim (Bool-cases (is_incoming dev_id m)) [
    | inl e ↦
        rw (read_packet-step buffer m queue, filter, e)
          (refl, cut m.bytes buffer h, length-splice 0 (take limit m.bytes) buffer ∙ h, refl)
    | inr e ↦
        rw (read_packet-step buffer m queue, filter, e)
          (read_packet-First (splice 0 (take limit m.bytes) buffer) queue
            (length-splice 0 (take limit m.bytes) buffer ∙ h))
  ]

  -- What `count` reads leave to the loop, from the incoming frames `ms`.
  abbrev FirstReads : ℕ → List (List ℕ) × List Message → List Message → Type 0
  FirstReads count r ms =
      (r.0 ≡ take count (map (λ m. take limit m.bytes) ms))
      × (filter (is_incoming dev_id) r.1 ≡ drop count ms)

  read_more :
      (count : ℕ) (buffer : List ℕ) (queue ms : List Message)
      → let r = read_packet dev_id limit buffer queue in
        (length r.buffer ≡ limit
          → FirstReads count
              (reads dev_id limit count r.buffer r.queue)
              (filter (is_incoming dev_id) r.queue))
        → First r ms
        → FirstReads (suc count) (reads dev_id limit (suc count) buffer queue) ms
  unfolding reads map
  read_more count buffer queue [] later (e, none_left) =
      rw e (refl, rw none_left (unfold filter in refl))
  read_more count buffer queue (m ∷ ms) later (e, seen, sized, others) =
      let (frames, waiting) = later sized in
      rw e (
        ap₂ (λ x xs. x ∷ xs) seen
            (frames ∙ ap (λ q. take count (map (λ m'. take limit m'.bytes) q)) others),
        waiting ∙ ap (drop count) others,
      )

  -- Into a buffer of `limit` bytes, `count` reads give the first `count` frames that arrived at the device
  -- and that the host did not send, in order and each cut off at the limit; of such frames exactly the
  -- others still wait.
  pub reads-filter :
      (count : ℕ) (buffer : List ℕ) (queue : List Message)
      → length buffer ≡ limit
      → ((reads dev_id limit count buffer queue).0
          ≡ take count (map (λ m. take limit m.bytes) (filter (is_incoming dev_id) queue)))
        × (filter (is_incoming dev_id) (reads dev_id limit count buffer queue).1
            ≡ drop count (filter (is_incoming dev_id) queue))
  reads-filter zero buffer queue h = unfold reads in (refl, refl)
  reads-filter (suc count) buffer queue h =
      let r = read_packet dev_id limit buffer queue in
      read_more count buffer queue (filter (is_incoming dev_id) queue)
        (λ sized. reads-filter count r.buffer r.queue sized) (read_packet-First buffer queue h)
