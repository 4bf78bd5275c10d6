-- ===== src/Gateway/Serve/Laws.antt =====
-- Gateway::serve: a turn of the main loop ends, and leaves the state fit for the next.
use gateway_socket.Base.{ℕ, zero, suc, ◌≤◌, ◌≡◌, refl, Option, some, List, [], ◌∷◌, length, drop}
use gateway_socket.Packet.{Packet}
use gateway_socket.Gateway.Tables.{Tables}
use gateway_socket.Gateway.Buffer.{IsBuffer, IsBacked}
use gateway_socket.Gateway.Icmp.{◌>>=◌}
use gateway_socket.Gateway.Inside.{Round, on_inside}
use gateway_socket.Gateway.Inside.Rounds.{IsFit, on_inside-IsFit}
use gateway_socket.Gateway.Outside.{on_outside}
use gateway_socket.Gateway.Outside.Rounds.{IsQuiet, on_outside-IsFit}
use gateway_socket.Gateway.Serve.{io_burst, Burst, before, burst, turn}

abbrev pub All : (List ℕ → Type 0) → List (List ℕ) → Type 0
All F [] = Unit
All F (frame ∷ frames) = F frame × All F frames

-- The frame is no shorter than an ARP message; Ethernet's shortest has 60 bytes.
abbrev pub IsLong : List ℕ → Type 0
IsLong frame = 42 ≤ length frame

-- A frame that the second loop can judge.
abbrev pub IsJudged : List ℕ → Type 0
IsJudged frame = IsLong frame × IsQuiet frame

-- A burst of at most `limit` frames: those behind still wait.
pub record Ends (limit : ℕ) (frames : List (List ℕ)) (b : Burst) : Type 0 where
  pub waiting : b.waiting ≡ drop limit frames
  pub buffer : IsBuffer b.buffer
  pub backed : IsBacked b.tables

module _ (F : List ℕ → Type 0) (round : Tables → Packet → List ℕ → Option Round)
    (ends : (t : Tables) (p : Packet) (frame : List ℕ)
      → IsBuffer p
      → IsBacked t
      → F frame
      → (r : Round) × (round t p frame ≡ some r) × IsFit r) where
  burst-Ends :
      (limit : ℕ) (frames : List (List ℕ)) (t : Tables) (p : Packet)
      → IsBuffer p
      → IsBacked t
      → All F frames
      → (b : Burst) × (burst round limit frames t p ≡ some b) × Ends limit frames b
  unfolding burst
  burst-Ends zero frames t p good backed long =
      (_, refl, record { waiting = refl; buffer = good; backed = backed })
  burst-Ends (suc limit) [] t p good backed long =
      (_, refl, record { waiting = refl; buffer = good; backed = backed })
  burst-Ends (suc limit) (frame ∷ frames) t p good backed long =
      let (r, e, fit) = ends t p frame good backed long.0 in
      let (b, rest, done) =
        burst-Ends limit frames r.tables r.buffer fit.buffer fit.backed long.1 in
      (
        before r.effects b,
        rw (e, ◌>>=◌, rest) refl,
        record { waiting = done.waiting; buffer = done.buffer; backed = done.backed },
      )

-- A turn of the main loop ends without undefined behaviour if every user's address is static, no frame
-- is shorter than an ARP message and none from outside is a DHCP reply: it takes the first 32 frames
-- of each device, leaves the others waiting, and both buffers whole and every user's address static.
pub turn-Ends :
    (now : ℕ) (block : List ℕ) (inside outside : List (List ℕ)) (t : Tables)
    (in_packet out_packet : Packet)
    → IsBuffer in_packet
    → IsBuffer out_packet
    → IsBacked t
    → length block ≡ 70
    → All IsLong inside
    → All IsJudged outside
    → (first : Burst) × (second : Burst) × (turn now block inside outside t in_packet out_packet
        ≡ some (first, second))
      × Ends io_burst inside first
      × Ends io_burst outside second
unfolding turn
turn-Ends now block inside outside t in_packet out_packet bi bo backed sized long_in long_out =
    let (first, e, done) =
      burst-Ends IsLong (on_inside now block)
        (λ t' p frame b k l. on_inside-IsFit now block t' p frame b sized k (λ arp. l)) io_burst
        inside t in_packet bi backed long_in in
    let (second, f, done') =
      burst-Ends IsJudged (on_outside block)
        (λ t' p frame b k l. on_outside-IsFit block t' p frame b sized k (λ arp. l.0) l.1) io_burst
        outside first.tables out_packet bo done.backed long_out in
    (first, second, rw (e, ◌>>=◌, f) refl, done, done')
