-- ===== src/Gateway/Loop/Joined.antt =====
-- The event loop of class Gateway: a user who waits in the queue of new users becomes one, and one whose
-- removal waits is none any more.
use gateway_socket.Base.{
  ℕ, ◌≡◌, ◌≢◌, sym, subst, ◌∙◌, inl, inr, Option, none, some, Bool-cases, ◌==◌, List, [], ◌∷◌, find,
  arith, refl,
}
use mathlib.Core.List.{Memᴰ}
use mathlib.Core.List.Memᴰ
use gateway_socket.Requests.{UserInfo}
use gateway_socket.Gateway.Handlers.{Gateway}
use gateway_socket.Gateway.Handlers.Laws.{latest, without}
use gateway_socket.Gateway.Handlers.Users.{keyed}
use gateway_socket.Gateway.Handlers.Backing.{without-none}
use gateway_socket.Gateway.Loop.{Server, Event, event_loop}
use gateway_socket.Gateway.Loop.Sound.{IsSound}
use gateway_socket.Gateway.Loop.Served.{event_loop-IsServed}
use gateway_socket.Gateway.Loop.Moves.{IsAway, event_loop-AllDone}
use gateway_socket.Gateway.Loop.Turns.{some_same}

-- When the new users that wait are served, `user` has the address, and no removal of it waits.
pub record IsJoining (ip : ℕ) (user : UserInfo) (g : Gateway) : Type 0 where
  pub joins : latest ip (keyed g.user_add_request.queue) (find ip g.tables.user_map) ≡ some user
  pub stays : ¬ Memᴰ ip g.user_del_request.queue

-- If the state is sound and no removal of an address waits, the event loop ends, in whatever order it
-- looks at the events; if it looked at all of them, the address has the user of its last request.
pub event_loop-joined :
    (ip : ℕ) (user : UserInfo) (order : List Event) (s : Server)
    → IsSound s
    → IsJoining ip user s.gateway
    → ((e : Event) → Memᴰ e order)
    → (t : Server) × (event_loop order s ≡ some t) × (find ip t.gateway.tables.user_map ≡ some user)
event_loop-joined ip user order s v j complete =
    let (t, h, done) = event_loop-IsServed order s v in
    (t, h, (event_loop-AllDone order s t v done complete h).users_joined ip j.stays ∙ j.joins)

-- A removal of the address waits, and no new user of it.
pub record IsLeaving (ip : ℕ) (g : Gateway) : Type 0 where
  pub leaves : Memᴰ ip g.user_del_request.queue
  pub away : IsAway ip (keyed g.user_add_request.queue)

pub users-IsAway :
    (ip : ℕ) (infos : List UserInfo)
    → ((info : UserInfo) → Memᴰ info infos → info.ip ≢ ip)
    → IsAway ip (keyed infos)
users-IsAway ip [] other = tt
users-IsAway ip (info ∷ rest) other =
    (other info (Memᴰ.head refl), users-IsAway ip rest (λ i m. other i (Memᴰ.tail m)))

without-gone {ℓ} :
    {V : Type ℓ} (ip : ℕ) (requests : List ℕ) (old : Option V)
    → Memᴰ ip requests
    → without ip requests old ≡ none
without-gone ip [] old m = absurd (Memᴰ.not-nil m)
without-gone {V = V} ip (key ∷ rest) old m = elim (Bool-cases (key == ip)) [
  | inl e ↦ rw e (without-none {V = V} ip rest)
  | inr e ↦ elim (Memᴰ.cases_cons m) [
    | inl same ↦ absurd (ground (arith, same, e))
    | inr m' ↦ without-gone ip rest _ m'
  ]
]

-- If the state is sound, a removal of the address waits and no new user of it, the event loop, having
-- looked at every event in any order, leaves nobody with the address.
pub event_loop-removed :
    (ip : ℕ) (order : List Event) (s t : Server)
    → IsSound s
    → IsLeaving ip s.gateway
    → ((e : Event) → Memᴰ e order)
    → event_loop order s ≡ some t
    → find ip t.gateway.tables.user_map ≡ none
event_loop-removed ip order s t v j complete h =
    let (u, h', done) = event_loop-IsServed order s v in
    let same = some_same u t (sym h' ∙ h) in
    subst (λ w. find ip w.gateway.tables.user_map ≡ none) same
      ((event_loop-AllDone order s u v done complete h').users_removed ip j.away
        ∙ without-gone ip s.gateway.user_del_request.queue _ j.leaves)
