-- ===== src/Gateway/Loop/Served.antt =====
-- Gateway::serve: a round of its main loop serves all that was requested before it.
use gateway_socket.Base.{
  ◌≤◌, ◌≡◌, refl, sym, subst, ◌∙◌, ◌⊎◌, inl, inr, ◌==◌, true, Bool-cases, some, List, [], ◌∷◌,
  arith,
}
use mathlib.Core.List.{Memᴰ}
use mathlib.Core.List.Memᴰ
use gateway_socket.Gateway.Icmp.{◌>>=◌}
use gateway_socket.Gateway.Loop.{Server, Event, term_event, count_of, event_loop}
use gateway_socket.Gateway.Loop.Sound.{IsSound, handle_event-IsHandled}

pub record IsServed (order : List Event) (s t : Server) : Type 0 where
  pub sound : IsSound t
  pub fewer : (e : Event) → count_of e t ≤ count_of e s
  pub served : (e : Event) → Memᴰ e order → count_of e t ≡ 0
  pub exits : s.got_exit ≡ true → t.got_exit ≡ true
  pub stops : (t.got_exit ≡ true) ⊎ (count_of term_event t ≡ count_of term_event s)

pub event_loop-IsServed :
    (order : List Event) (s : Server)
    → IsSound s
    → (t : Server) × (event_loop order s ≡ some t) × IsServed order s t
unfolding event_loop
event_loop-IsServed [] s v = (
  s,
  refl,
  record {
    sound = v;
    fewer = λ e. omega arith;
    served = λ e m. absurd (Memᴰ.not-nil m);
    exits = λ h. h;
    stops = inr refl;
  },
)
event_loop-IsServed (e ∷ rest) s v = elim (Bool-cases (count_of e s == 0)) [
  | inl idle ↦
      let nothing : count_of e s ≡ 0 = ground arith in
      let (t, h, done) = event_loop-IsServed rest s v in
      (
        t,
        rw (event_loop, idle) h,
        record {
          sound = done.sound;
          fewer = done.fewer;
          served = λ f m. elim (Memᴰ.cases_cons m) [
            | inl same ↦
                subst (λ k. count_of k t ≡ 0) (sym same) (omega (arith, done.fewer e, nothing))
            | inr m' ↦ done.served f m'
          ];
          exits = done.exits;
          stops = done.stops;
        },
      )
  | inr ready ↦
      let (s', h', first) = handle_event-IsHandled e s v in
      let (t, h, done) = event_loop-IsServed rest s' first.sound in
      (
        t,
        rw (event_loop, ready, h', ◌>>=◌) h,
        record {
          sound = done.sound;
          fewer = λ f. omega (arith, done.fewer f, first.others f);
          served = λ f m. elim (Memᴰ.cases_cons m) [
            | inl same ↦
                subst (λ k. count_of k t ≡ 0) (sym same) (omega (arith, done.fewer e, first.served))
            | inr m' ↦ done.served f m'
          ];
          exits = λ x. done.exits (first.exits x);
          stops = stopped s s' t first.stops done.stops done.exits;
        },
      )
]
  where
    stopped :
        (s s' t : Server)
        → (s'.got_exit ≡ true) ⊎ (count_of term_event s' ≡ count_of term_event s)
        → (t.got_exit ≡ true) ⊎ (count_of term_event t ≡ count_of term_event s')
        → (s'.got_exit ≡ true → t.got_exit ≡ true)
        → (t.got_exit ≡ true) ⊎ (count_of term_event t ≡ count_of term_event s)
    stopped s s' t (inl a) b c = inl (c a)
    stopped s s' t (inr a) (inl b) c = inl b
    stopped s s' t (inr a) (inr b) c = inr (b ∙ a)
