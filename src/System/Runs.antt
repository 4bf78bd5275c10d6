-- ===== src/System/Runs.antt =====
-- The running program: in every state that its threads can reach, each of them can go on.
use gateway_socket.Base.{ℕ, List, [], ◌∷◌}
use gateway_socket.Gateway.Buffer.{IsBacked, Known}
use gateway_socket.Gateway.Handlers.{Gateway}
use gateway_socket.Database.Loop.{Database}
use gateway_socket.System.{Phase, reading, over, handling, System, take_inside, take_outside, look}
use gateway_socket.System.Invariant.{Invariant}

-- What the gateway's thread can do next, by where it is.
abbrev pub GoesOn : ℕ → List ℕ → List ℕ → List ℕ → System → Phase → Type 0
GoesOn now block inner outer s reading =
    IsBacked s.server.gateway.tables
    × Known (take_inside now block inner s)
    × Known (take_outside block outer s)
GoesOn now block inner outer s (handling (e ∷ rest)) = Known (look e s.server)
GoesOn now block inner outer s (handling []) = Unit
GoesOn now block inner outer s over = Unit
