-- ===== src/System/First.antt =====
-- The invariant when the threads start: the requests of `main` wait in the gateway's queues.
use gateway_socket.Base.{
  ℕ, ◌≡◌, refl, sym, subst, ap, ◌∙◌, inl, inr, some, none, List, find, length, filter, arith,
}
use mathlib.Core.List.{Memᴰ}
use mathlib.Core.List.Memᴰ
use mathlib.Core.List.Memᴰ.{head, tail}
use gateway_socket.Requests.{UserInfo}
use gateway_socket.Mailbox.{empty}
use gateway_socket.Gateway.Handlers.{Gateway, initial}
use gateway_socket.Gateway.Loop.Turns.{some_same}
use gateway_socket.Database.Create.{Text}
use gateway_socket.Database.Sql.{StaticIp, Db}
use gateway_socket.Database.Sql.Leases.{IsLeased}
use gateway_socket.Database.Load.{is_active}
use gateway_socket.Database.Load.Laws.{
  LoadedStatic, no_static, one_static, AllReadable, Loaded-static, Loaded-user,
}
use gateway_socket.Startup.{fill}
use gateway_socket.Startup.Posted.{queue-posted, posted-IsCounted, latest-present, latest-Mem}
use gateway_socket.Startup.Laws.{entries_lem, infos_lem, filled, fill-filled, static_of}
use gateway_socket.System.{first_system}
use gateway_socket.System.Invariant.{IsLent, Serves, Invariant}

Loaded-entry :
    (inet_addr : Text → ℕ) {rows : List StaticIp} {entries : List (ℕ × List ℕ)} (ip : ℕ)
    (mac : List ℕ)
    → LoadedStatic inet_addr rows entries
    → Memᴰ (ip, mac) entries
    → IsLent inet_addr rows ip
Loaded-entry inet_addr ip mac no_static m = absurd (Memᴰ.not-nil m)
Loaded-entry inet_addr ip mac (one_static row rest mac' entries e l) m = elim (Memᴰ.cases_cons m) [
  | inl same ↦ (row, head refl, sym (ap (λ p. p.0) same))
  | inr m' ↦ let (row', m'', e') = Loaded-entry inet_addr ip mac l m' in (row', tail m'', e')
]

module _ (inet_addr : Text → ℕ) (timeout : ℕ) (db : Db) (l : IsLeased db)
    (static_text : AllReadable (λ row. row.mac) db.static_ip)
    (user_text : AllReadable (λ row. row.mac) (filter is_active db.user)) where
  abbrev started : Gateway
  started = filled inet_addr timeout db l static_text user_text

  abbrev entries : List (ℕ × List ℕ)
  entries = (entries_lem inet_addr timeout db l static_text user_text).0

  abbrev infos : List UserInfo
  infos = (infos_lem inet_addr timeout db l static_text user_text).0

  started-Serves : Serves inet_addr db.static_ip started
  unfolding filled find
  started-Serves =
      let loaded = (entries_lem inet_addr timeout db l static_text user_text).2 in
      let users = (infos_lem inet_addr timeout db l static_text user_text).2 in
      record {
        only_listed = λ ip (mac, e).
            elim (latest-Mem ip mac entries none (rw (queue-posted entries empty) at e)) [
              | inl m ↦ Loaded-entry inet_addr ip mac loaded m
              | inr absent ↦ ground arith
            ];
        all_listed = λ ip (row, m, e).
            let (mac, me) = Loaded-static inet_addr row loaded m in
            rw (queue-posted entries empty)
              (latest-present ip mac entries none (subst (λ k. Memᴰ (k, mac) entries) e me));
        none_deleted = refl;
        new_users = λ info m.
            let (row, mr, e) =
              Loaded-user inet_addr info users (rw (queue-posted infos empty) at m) in
            let (mac, me) = static_of inet_addr timeout db l static_text user_text row mr in
            rw e (Loaded-entry inet_addr _ mac loaded me);
      }

  started-Invariant :
      (in_block out_block : List ℕ)
      → length in_block ≡ 1514
      → length out_block ≡ 1514
      → Invariant inet_addr db.static_ip (first_system db started in_block out_block)
  unfolding first_system filled find
  started-Invariant in_block out_block i o = record {
    sound = record {
      added = posted-IsCounted entries empty refl;
      deleted = refl;
      users_added = posted-IsCounted infos empty refl;
      users_deleted = refl;
      packets = refl;
      in_buffer = record { capacity = refl; block = i };
      out_buffer = record { capacity = refl; block = o };
    };
    serves = started-Serves;
    phase_holds = λ ip user h. ground arith;
    serving = record {
      keys = l;
      same_statics = refl;
      requests = refl;
      times = refl;
      clients = λ r m. absurd (Memᴰ.not-nil m);
    };
    outbox_lent = λ info m. absurd (Memᴰ.not-nil m);
  }

  pub first_system-Invariant :
      (g : Gateway) (in_block out_block : List ℕ)
      → fill inet_addr timeout db initial ≡ some g
      → length in_block ≡ 1514
      → length out_block ≡ 1514
      → Invariant inet_addr db.static_ip (first_system db g in_block out_block)
  first_system-Invariant g in_block out_block e i o =
      subst (λ h. Invariant inet_addr db.static_ip (first_system db h in_block out_block))
        (some_same started g (sym (fill-filled inet_addr timeout db l static_text user_text) ∙ e))
        (started-Invariant in_block out_block i o)
