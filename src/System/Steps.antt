-- ===== src/System/Steps.antt =====
-- The running program: every step of its threads keeps the invariant.
use gateway_socket.Base.{
  ℕ, ◌≡◌, refl, sym, subst, ◌∙◌, inl, inr, Bool-cases, Option, some, List, [], ◌∷◌,
}
use mathlib.Core.List.{Memᴰ}
use mathlib.Core.List.Memᴰ
use gateway_socket.Gateway.Buffer.{IsBacked}
use gateway_socket.Gateway.Handlers.{
  Gateway, initial, add_user_info, del_user_info, request_send_packet,
}
use gateway_socket.Gateway.Loop.{Server, Event, add_static_event, request, terminated}
use gateway_socket.Gateway.Loop.Sound.{request-IsSound}
use gateway_socket.Gateway.Loop.Turns.{some_same}
use gateway_socket.Database.Create.{Text, Config}
use gateway_socket.Database.Sql.{StaticIp, Db}
use gateway_socket.Database.Sql.Access.{SetsAccess}
use gateway_socket.Database.Loop.{Database, terminate}
use gateway_socket.System.{
  Outbox, to_post, user_posted, removal_posted, packet_posted, Phase, reading, over, handling,
  System, look, exit_handle, joined, answered, Step, frame_inside, frame_outside, turn_over, event,
  loop_over, database_event, signalled,
}
use gateway_socket.System.Invariant.{
  AreLent, PhaseHolds, IsServing, Invariant, backed-UsersLent, settled-IsBacked,
}
use gateway_socket.System.Handlers.{Serves-same, look-Serves}
use gateway_socket.System.Answers.{
  IsConfigured, IsPosted, add_user_info-IsPosted, del_user_info-IsPosted, send_packet-IsPosted,
}
use gateway_socket.System.Rounds.{take_inside-Invariant, take_outside-Invariant}
use gateway_socket.System.Granting.{done_same}
use gateway_socket.System.Leasing.{handle_database-IsServing}

module _ (inet_addr : Text → ℕ) (statics : List StaticIp) where
  abbrev pub Holds : System → Type 0
  Holds s = Invariant inet_addr statics s

  -- The phase's part of the invariant speaks of what a post leaves alone.
  posted-PhaseHolds :
      (p : Phase) (g h : Gateway)
      → IsPosted inet_addr statics g h
      → PhaseHolds inet_addr statics p g
      → PhaseHolds inet_addr statics p h
  posted-PhaseHolds reading g h v b = subst IsBacked (sym v.same_tables) b
  posted-PhaseHolds over g h v b = tt
  posted-PhaseHolds (handling rest) g h v (lent, later) =
      (rw v.same_tables lent, rw v.same_adds later)

  pub answered-Invariant :
      (s : System) (t : Database Db × Gateway)
      → Holds s
      → IsServing inet_addr statics t.0
      → IsPosted inet_addr statics s.server.gateway t.1
      → Holds (answered s t)
  answered-Invariant s (d, g) v serving w = record {
    sound = record {
      added = rw w.same_adds v.sound.added;
      deleted = rw w.same_deletes v.sound.deleted;
      users_added = w.users v.sound.users_added;
      users_deleted = w.removals v.sound.users_deleted;
      packets = w.packets v.sound.packets;
      in_buffer = v.sound.in_buffer;
      out_buffer = v.sound.out_buffer;
    };
    serves =
        Serves-same inet_addr statics s.server.gateway g
          (λ ip. rw (w.same_adds, w.same_tables) refl) (rw w.same_deletes v.serves.none_deleted)
          (w.lent v.serves.new_users) v.serves;
    phase_holds = posted-PhaseHolds s.phase s.server.gateway g w v.phase_holds;
    serving = serving;
    outbox_lent = v.outbox_lent;
  }

  outboxed-Invariant :
      (s : System) (o : Outbox)
      → Holds s
      → AreLent inet_addr statics o.users
      → Holds (record s { outbox = o })
  outboxed-Invariant s o v lent = record {
    sound = v.sound;
    serves = v.serves;
    phase_holds = v.phase_holds;
    serving = v.serving;
    outbox_lent = lent;
  }

  handled-Invariant :
      (s : System) (d : Database Db) (posted : Gateway)
      → Holds s
      → IsServing inet_addr statics d
      → IsPosted inet_addr statics initial posted
      → Holds (record s { database = d; outbox = to_post posted })
  handled-Invariant s d posted v serving w = record {
    sound = v.sound;
    serves = v.serves;
    phase_holds = v.phase_holds;
    serving = serving;
    outbox_lent = w.lent (λ info m. absurd (Memᴰ.not-nil m));
  }

  pub exit_handle-Invariant : (s : System) → Holds s → Holds (exit_handle s)
  unfolding exit_handle terminate request
  exit_handle-Invariant s v = record {
    sound = request-IsSound terminated s.server v.sound;
    serves = v.serves;
    phase_holds = v.phase_holds;
    serving = record {
      keys = v.serving.keys;
      same_statics = v.serving.same_statics;
      requests = v.serving.requests;
      times = v.serving.times;
      clients = v.serving.clients;
    };
    outbox_lent = v.outbox_lent;
  }

  pub phase_at :
      (s : System) (p : Phase)
      → Holds s
      → s.phase ≡ p
      → PhaseHolds inet_addr statics p s.server.gateway
  phase_at s p v e = subst (λ q. PhaseHolds inet_addr statics q s.server.gateway) e v.phase_holds

  turn_over-Invariant :
      (s : System) (order : List Event)
      → Holds s
      → ((e : Event) → Memᴰ e order)
      → s.phase ≡ reading
      → Holds (record s { phase = handling order })
  turn_over-Invariant s order v complete e = record {
    sound = v.sound;
    serves = v.serves;
    phase_holds = (
      backed-UsersLent inet_addr statics s.server.gateway v.serves (phase_at s reading v e),
      inr (complete add_static_event),
    );
    serving = v.serving;
    outbox_lent = v.outbox_lent;
  }

  joined-PhaseHolds :
      (s : Server) → IsBacked s.gateway.tables → PhaseHolds inet_addr statics (joined s) s.gateway
  joined-PhaseHolds s b = elim (Bool-cases s.got_exit) [ inl e ↦ rw e tt | inr e ↦ rw e b ]

  loop_over-Invariant :
      (s : System) → Holds s → s.phase ≡ handling [] → Holds (record s { phase = joined s.server })
  loop_over-Invariant s v e =
      let (lent, settled) = phase_at s (handling []) v e in
      record {
        sound = v.sound;
        serves = v.serves;
        phase_holds = joined-PhaseHolds s.server (
            settled-IsBacked inet_addr statics s.server.gateway v.serves lent
              (elim settled [ inl none_left ↦ none_left | inr m ↦ absurd (Memᴰ.not-nil m) ]));
        serving = v.serving;
        outbox_lent = v.outbox_lent;
      }

  pub look-Invariant :
      (s : System) (e : Event) (rest : List Event)
      → Holds s
      → s.phase ≡ handling (e ∷ rest)
      → (t : Server) × (look e s.server ≡ some t)
        × Holds (record s { server = t; phase = handling rest })
  look-Invariant s e rest v at' =
      let (t, h, sound, serves, phase) =
        look-Serves inet_addr statics rest s.server v.sound v.serves e
          (phase_at s (handling (e ∷ rest)) v at') in
      (
        t,
        h,
        record {
          sound = sound;
          serves = serves;
          phase_holds = phase;
          serving = v.serving;
          outbox_lent = v.outbox_lent;
        },
      )

module _ (update_access_time : ℕ → Text → Db → Option ℕ × Db) (inet_addr : Text → ℕ)
    (config : Config) (statics : List StaticIp) (sets : SetsAccess update_access_time)
    (configured : IsConfigured inet_addr config) where
  pub Step-Invariant :
      (s t : System)
      → Invariant inet_addr statics s
      → Step update_access_time inet_addr config s t
      → Invariant inet_addr statics t
  unfolding request
  Step-Invariant s t v (frame_inside now block frame t' fit here_reading e) =
      let (t1, e1, v1) =
        take_inside-Invariant inet_addr statics s v here_reading block frame fit now in
      subst (Invariant inet_addr statics) (some_same t1 t' (sym e1 ∙ e)) v1
  Step-Invariant s t v (frame_outside block frame t' fit judged here_reading e) =
      let (t1, e1, v1) =
        take_outside-Invariant inet_addr statics s v here_reading block frame fit judged in
      subst (Invariant inet_addr statics) (some_same t1 t' (sym e1 ∙ e)) v1
  Step-Invariant s t v (turn_over order complete here_reading) =
      turn_over-Invariant inet_addr statics s order v complete here_reading
  Step-Invariant s t v (event e rest server here_handling h) =
      let (t1, e1, v1) = look-Invariant inet_addr statics s e rest v here_handling in
      subst (λ u. Invariant inet_addr statics (record s { server = u; phase = handling rest }))
        (some_same t1 server (sym e1 ∙ h)) v1
  Step-Invariant s t v (loop_over here_handling) =
      loop_over-Invariant inet_addr statics s v here_handling
  Step-Invariant s t v (database_event e supply d posted fit running sent waits h) =
      let (t1, e1, serving, w, taken) =
        handle_database-IsServing inet_addr statics config configured update_access_time sets supply
          fit e s.database initial v.serving in
      let same = done_same t1 (d, posted) (sym e1 ∙ h) in
      handled-Invariant inet_addr statics s d posted v
        (subst (λ u. IsServing inet_addr statics u.0) same serving)
        (subst (λ u. IsPosted inet_addr statics initial u.1) same w)
  Step-Invariant s t v (user_posted info rest e) =
      let lent = subst (AreLent inet_addr statics) e v.outbox_lent in
      outboxed-Invariant inet_addr statics _ (record s.outbox { users = rest })
        (answered-Invariant inet_addr statics s (s.database, add_user_info info s.server.gateway) v
          v.serving
          (add_user_info-IsPosted inet_addr statics info s.server.gateway
            (lent info (Memᴰ.head refl))))
        (λ i m. lent i (Memᴰ.tail m))
  Step-Invariant s t v (removal_posted ip rest e) =
      outboxed-Invariant inet_addr statics _ (record s.outbox { removals = rest })
        (answered-Invariant inet_addr statics s (s.database, del_user_info ip s.server.gateway) v
          v.serving (del_user_info-IsPosted inet_addr statics ip s.server.gateway))
        v.outbox_lent
  Step-Invariant s t v (packet_posted p rest e) =
      outboxed-Invariant inet_addr statics _ (record s.outbox { packets = rest })
        (answered-Invariant inet_addr statics s (s.database, request_send_packet p s.server.gateway)
          v v.serving (send_packet-IsPosted inet_addr statics p s.server.gateway))
        v.outbox_lent
  Step-Invariant s t v signalled = exit_handle-Invariant inet_addr statics s v
