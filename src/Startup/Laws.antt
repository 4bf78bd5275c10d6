-- ===== src/Startup/Laws.antt =====
-- The start of the program: the tables that the gateway's handlers build from the database.
use gateway_socket.Base.{
  ℕ, ◌≡◌, ◌≤◌, refl, sym, ◌∙◌, inl, inr, true, Option, none, some, List, [], ◌∷◌, find, filter,
  length, bytes_eq, bytes_eq→eq, bytes_eq_refl, subst, false, arith,
}
use mathlib.Core.List.{Memᴰ}
use mathlib.Core.List.Memᴰ.{head}
use gateway_socket.Requests.{UserInfo}
use gateway_socket.Mailbox.{empty}
use gateway_socket.Gateway.Buffer.{IsBacked, Known}
use gateway_socket.Gateway.Handlers.{Gateway, initial, add_static_ip, add_user}
use gateway_socket.Gateway.Handlers.Laws.{latest, add_static_ip-latest}
use gateway_socket.Gateway.Handlers.Users.{keyed, add_user-latest}
use gateway_socket.Database.Create.{Text}
use gateway_socket.Database.Sql.{StaticIp, User, Db, has_ip, holders, text_of}
use gateway_socket.Database.Sql.Laws.{of_filter, length-filter}
use gateway_socket.Database.Sql.Leases.{IsLeased, listed}
use gateway_socket.Database.Load.{is_active, get_all_static_ip, get_all_user}
use gateway_socket.Database.Load.Laws.{
  LoadedStatic, LoadedUsers, AllReadable, load_static_ip-Loaded, load_user-Loaded, Loaded-static,
  Loaded-user, Loaded-active,
}
use gateway_socket.Startup.Posted.{
  posted, queue-posted, posted-IsCounted, add_all_static_ip-posted, add_all_user-posted,
  latest-present, latest-Mem, keyed-Mem, Mem-keyed,
}
use gateway_socket.Startup.{fill}

pub listed-Mem :
    (ip : Text) (statics : List StaticIp)
    → 1 ≤ listed ip statics
    → (s : StaticIp) × Memᴰ s statics × (s.ip ≡ ip)
listed-Mem ip statics h = go (filter (λ s. bytes_eq s.ip ip) statics) refl h
  where
    go :
        (rows : List StaticIp)
        → filter (λ s. bytes_eq s.ip ip) statics ≡ rows
        → 1 ≤ length rows
        → (s : StaticIp) × Memᴰ s statics × (s.ip ≡ ip)
    go [] e le = absurd (omega (arith, le))
    go (s ∷ rest) e le =
        let (m, same) = of_filter (λ s'. bytes_eq s'.ip ip) s statics (rw e (head refl)) in
        (s, m, bytes_eq→eq s.ip ip same)

held_text : (t : Text) (u : User) → u.ip ≡ some t → has_ip t u ≡ true
held_text t u e = rw e (bytes_eq_refl t)

is_active-text_of : (u : User) → is_active u ≡ true → u.ip ≡ some (text_of u.ip)
is_active-text_of u h = go u.ip h
  where
    go :
        (ip : Option Text)
        → (elim ip [ none ↦ false | some t ↦ true ]) ≡ true
        → ip ≡ some (text_of ip)
    go none e = ground arith
    go (some t) e = refl

module _ (inet_addr : Text → ℕ) (timeout : ℕ) (db : Db) (l : IsLeased db)
    (static_text : AllReadable (λ row. row.mac) db.static_ip)
    (user_text : AllReadable (λ row. row.mac) (filter is_active db.user)) where
  pub entries_lem :
      (entries : List (ℕ × List ℕ)) × (get_all_static_ip inet_addr db ≡ some entries)
      × LoadedStatic inet_addr db.static_ip entries
  unfolding get_all_static_ip
  entries_lem = load_static_ip-Loaded inet_addr db.static_ip [] static_text

  pub infos_lem :
      (infos : List UserInfo) × (get_all_user inet_addr timeout db ≡ some infos)
      × LoadedUsers inet_addr timeout (filter is_active db.user) infos
  unfolding get_all_user
  infos_lem = load_user-Loaded inet_addr timeout (filter is_active db.user) [] user_text

  unfoldable pub filled : Gateway
  filled = record initial {
    static_ip_add_request = posted entries_lem.0 empty;
    user_add_request = posted infos_lem.0 empty;
  }

  pub fill-filled : fill inet_addr timeout db initial ≡ some filled
  unfolding fill filled
  fill-filled =
      rw
        (
          fill,
          entries_lem.1,
          infos_lem.1,
          add_all_static_ip-posted entries_lem.0 initial,
          add_all_user-posted infos_lem.0
              (record initial { static_ip_add_request = posted entries_lem.0 empty }),
        )
        refl

  -- A user's address is listed, so that its number is among the static addresses that are loaded.
  pub static_of :
      (u : User)
      → Memᴰ u (filter is_active db.user)
      → (mac : List ℕ) × Memᴰ (inet_addr (text_of u.ip), mac) entries_lem.0
  unfolding holders
  static_of u m =
      let (m', active) = of_filter is_active u db.user m in
      let ip : u.ip ≡ some (text_of u.ip) = is_active-text_of u active in
      let held : has_ip (text_of u.ip) u ≡ true = held_text (text_of u.ip) u ip in
      let (s, ms, e) =
        listed-Mem (text_of u.ip) db.static_ip
          (l.known (text_of u.ip) (length-filter (has_ip (text_of u.ip)) u db.user m' held)) in
      let (mac, me) = Loaded-static inet_addr s entries_lem.2 ms in
      (mac, subst (λ t. Memᴰ (inet_addr t, mac) entries_lem.0) e me)

  user-static :
      (ip : ℕ) (user : UserInfo)
      → latest ip (keyed infos_lem.0) none ≡ some user
      → (mac : List ℕ) × Memᴰ (ip, mac) entries_lem.0
  user-static ip user h = elim (latest-Mem ip user (keyed infos_lem.0) none h) [
    | inl m ↦
        let (mu, e_ip) = keyed-Mem ip user infos_lem.0 m in
        let (row, mr, e) = Loaded-user inet_addr user infos_lem.2 mu in
        let (mac, me) = static_of row mr in
        (mac, subst (λ k. Memᴰ (k, mac) entries_lem.0) (sym e ∙ e_ip) me)
    | inr e ↦ ground arith
  ]

  row-present :
      (u : User)
      → Memᴰ u (filter is_active db.user)
      → Known (latest (inet_addr (text_of u.ip)) (keyed infos_lem.0) none)
  row-present u m =
      let (info, mi, e) = Loaded-active inet_addr u infos_lem.2 m in
      subst (λ k. Known (latest k (keyed infos_lem.0) none)) e
        (latest-present info.ip info (keyed infos_lem.0) none (Mem-keyed info infos_lem.0 mi))

  -- On tables with their keys, with hardware addresses that can be read, the loops of `main` end; the
  -- handlers of the new static addresses and then of the new users end too, every user's address is
  -- then static, and every user with an address is in the map.
  pub fill-IsBacked :
      (g g1 g2 : Gateway) × (fill inet_addr timeout db initial ≡ some g)
      × (add_static_ip g ≡ some g1)
      × (add_user g1 ≡ some g2)
      × IsBacked g2.tables
      × ((u : User)
          → Memᴰ u (filter is_active db.user)
          → Known (find (inet_addr (text_of u.ip)) g2.tables.user_map))
  unfolding filled find
  fill-IsBacked =
      let (t1, e1, u1, s1) =
        add_static_ip-latest filled (posted-IsCounted entries_lem.0 empty refl) in
      let g1 : Gateway = record filled { tables = t1; static_ip_add_request = empty } in
      let (t2, e2, s2, u2) = add_user-latest g1 (posted-IsCounted infos_lem.0 empty refl) in
      let users : (ip : ℕ) → find ip t2.user_map ≡ latest ip (keyed infos_lem.0) none =
        λ ip. u2 ip ∙ rw (u1, queue-posted infos_lem.0 empty) refl in
      (
        filled,
        g1,
        record g1 { tables = t2; user_add_request = empty },
        fill-filled,
        e1,
        e2,
        λ ip user h.
            let (mac, m) = user-static ip user (sym (users ip) ∙ h) in
            rw (s2, s1 ip, queue-posted entries_lem.0 empty)
              (latest-present ip mac entries_lem.0 none m),
        λ u m. rw (users (inet_addr (text_of u.ip))) (row-present u m),
      )
