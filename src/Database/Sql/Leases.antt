-- ===== src/Database/Sql/Leases.antt =====
-- Database::create_dhcp on the tables: which address a client is given, and that no address has two
-- clients.
use gateway_socket.Base.{
  ℕ, ◌+◌, ◌-◌, ◌*◌, ◌^◌, ◌≡◌, ◌≤◌, refl, ap, ◌⊎◌, inl, inr, arith, true, false, Bool-cases, Option,
  none, some, List, [], ◌∷◌, length, bytes_eq, bytes_eq_refl, filter, map, u64,
}
use mathlib.Core.List.{Memᴰ}
use mathlib.Core.List.Memᴰ.{head}
use gateway_socket.Database.Create.{Text, done, dhcp_timeout, choose_ip, release_used}
use gateway_socket.Database.Sql.{
  User, StaticIp, Db, has_ip, text_of, holders, is_unused, is_dynamic, is_using, using_dynamic,
  delete_ip, statements,
}
use gateway_socket.Database.Sql.Laws.{
  rows_of, rows_of-delete_ip, holders-delete_ip, holders-deleted, of_filter, is_dynamic-text_of,
  filter-Mem, filter-nil, length-filter, IsOldest, order_by_accessed-IsOldest,
}

-- The rows of `static_ip` with an address.
abbrev pub listed : Text → List StaticIp → ℕ
listed ip static_ips = length (filter (λ s. bytes_eq s.ip ip) static_ips)

-- A hardware address has one row, an address has one client, and it is listed.
pub record IsLeased (db : Db) : Type 0 where
  pub one_row : (mac : Text) → rows_of mac db.user ≤ 1
  pub alone : (ip : Text) → holders ip db.user ≤ 1
  pub known : (ip : Text) → 1 ≤ holders ip db.user → 1 ≤ listed ip db.static_ip

-- Which address the client may be given: its own; if it has none, a dynamic one that no client has; if
-- there is none, of the dynamic ones that were not used since the deadline the one that was used the
-- longest time ago.
pub data IsGranted (deadline : ℕ) (db : Db) (client : User) (ip : Text) : Type 0 where
  own : client.ip ≡ some ip → IsGranted deadline db client ip
  unused :
      (s : StaticIp)
      → text_of client.ip ≡ []
      → Memᴰ s db.static_ip
      → s.ip ≡ ip
      → is_unused db.user s ≡ true
      → IsGranted deadline db client ip
  expired :
      (u : User)
      → text_of client.ip ≡ []
      → ((s : StaticIp) → Memᴰ s db.static_ip → is_unused db.user s ≡ false)
      → Memᴰ u db.user
      → is_using deadline db.static_ip u ≡ true
      → ((v : User)
          → Memᴰ v db.user
          → is_using deadline db.static_ip v ≡ true
          → u.accessed ≤ v.accessed)
      → text_of u.ip ≡ ip
      → IsGranted deadline db client ip

pub record IsExhausted (deadline : ℕ) (db : Db) (client : User) : Type 0 where
  pub no_own : text_of client.ip ≡ []
  pub none_unused : (s : StaticIp) → Memᴰ s db.static_ip → is_unused db.user s ≡ false
  pub none_expired : (u : User) → Memᴰ u db.user → is_using deadline db.static_ip u ≡ false

-- The rows of the users before the client's is set: the address is free, or it is the client's.
pub record IsFreed (db : Db) (client : User) (ip : Text) (users : List User) : Type 0 where
  pub same_rows : (mac : Text) → rows_of mac users ≡ rows_of mac db.user
  pub fewer : (other : Text) → holders other users ≤ holders other db.user
  pub free : ((users ≡ db.user) × (client.ip ≡ some ip)) ⊎ (holders ip users ≡ 0)
  pub is_listed : 1 ≤ listed ip db.static_ip

abbrev pub deadline_of : ℕ → ℕ
deadline_of current_time = u64 (current_time + 2 ^ 64 - 1000 * dhcp_timeout)

abbrev pub Chosen : (Text → ℕ) → ℕ → Db → User → Type 0
Chosen inet_addr current_time db client =
    ((choose_ip statements inet_addr current_time (text_of client.ip) db ≡ done (none, db))
      × IsExhausted (deadline_of current_time) db client)
    ⊎ ((ip : Text) × (users : List User) × (choose_ip statements inet_addr current_time
            (text_of client.ip) db
          ≡ done (some ip, record db { user = users }))
        × IsGranted (deadline_of current_time) db client ip
        × IsFreed db client ip users)

module _ (inet_addr : Text → ℕ) (current_time : ℕ) (db : Db) (l : IsLeased db) (client : User)
    (m : Memᴰ client db.user) where
  user-listed :
      (u : User) (ip : Text) → Memᴰ u db.user → u.ip ≡ some ip → 1 ≤ listed ip db.static_ip
  unfolding holders
  user-listed u ip m' e =
      l.known ip (length-filter (has_ip ip) u db.user m' (rw e (bytes_eq_refl ip)))

  oldest :
      IsOldest
        (filter (is_using (deadline_of current_time) db.static_ip) db.user)
        (using_dynamic (deadline_of current_time) db)
  unfolding using_dynamic
  oldest =
      order_by_accessed-IsOldest (filter (is_using (deadline_of current_time) db.static_ip) db.user)

  own_address :
      (c : ℕ) (ip : Text) → client.ip ≡ some (c ∷ ip) → Chosen inet_addr current_time db client
  unfolding choose_ip
  own_address c ip e = inr (
    c ∷ ip,
    db.user,
    rw e refl,
    own e,
    record {
      same_rows = λ mac. refl;
      fewer = λ other. omega arith;
      free = inl (refl, e);
      is_listed = user-listed client (c ∷ ip) m e;
    },
  )

  unused_address :
      (s : StaticIp) (rest : List StaticIp)
      → text_of client.ip ≡ []
      → filter (is_unused db.user) db.static_ip ≡ s ∷ rest
      → Chosen inet_addr current_time db client
  unfolding choose_ip map
  unused_address s rest e h =
      let (m', unused_s) = of_filter (is_unused db.user) s db.static_ip (rw h (head refl)) in
      inr (
        s.ip,
        db.user,
        rw (e, h) refl,
        unused s e m' refl unused_s,
        record {
          same_rows = λ mac. refl;
          fewer = λ other. omega arith;
          free = inr (ground arith);
          is_listed =
              length-filter (λ s'. bytes_eq s'.ip s.ip) s db.static_ip m' (bytes_eq_refl s.ip);
        },
      )

  expired_address :
      (u : User) (rest : List User)
      → text_of client.ip ≡ []
      → filter (is_unused db.user) db.static_ip ≡ []
      → using_dynamic (deadline_of current_time) db ≡ u ∷ rest
      → Chosen inet_addr current_time db client
  unfolding choose_ip release_used map
  expired_address u rest e h h' =
      let (m', first) : IsOldest (filter (is_using (deadline_of current_time) db.static_ip) db.user)
          (u ∷ rest) =
        rw h' at oldest in
      let (mu, using) = of_filter (is_using (deadline_of current_time) db.static_ip) u db.user m' in
      let dynamic : is_dynamic db.static_ip u ≡ true = ground arith in
      inr (
        text_of u.ip,
        delete_ip (text_of u.ip) db.user,
        rw (e, h, h') refl,
        expired u e (λ s m'. filter-nil (is_unused db.user) s db.static_ip m' h) mu using
            (λ v mv e'.
              first v
                (filter-Mem (is_using (deadline_of current_time) db.static_ip) v db.user mv e'))
            refl,
        record {
          same_rows = λ mac. rows_of-delete_ip (text_of u.ip) mac db.user;
          fewer = λ other. holders-delete_ip (text_of u.ip) other db.user;
          free = inr (holders-deleted (text_of u.ip) db.user);
          is_listed = user-listed u (text_of u.ip) mu (is_dynamic-text_of db.static_ip u dynamic);
        },
      )

  no_address :
      text_of client.ip ≡ []
      → filter (is_unused db.user) db.static_ip ≡ []
      → using_dynamic (deadline_of current_time) db ≡ []
      → Chosen inet_addr current_time db client
  unfolding choose_ip release_used map
  no_address e h h' =
      let nobody : IsOldest (filter (is_using (deadline_of current_time) db.static_ip) db.user) [] =
        rw h' at oldest in
      let not_using : (u : User)
          → Memᴰ u db.user
          → is_using (deadline_of current_time) db.static_ip u ≡ false =
        λ u m'. elim (Bool-cases (is_using (deadline_of current_time) db.static_ip u)) [
          | inl using ↦ absurd (
              nobody u
                (filter-Mem (is_using (deadline_of current_time) db.static_ip) u db.user m' using))
          | inr e' ↦ e'
        ] in
      inl (
        rw (e, h, h') refl,
        record {
          no_own = e;
          none_unused = λ s m'. filter-nil (is_unused db.user) s db.static_ip m' h;
          none_expired = λ u m'. not_using u m';
        },
      )

  dynamic_client : text_of client.ip ≡ [] → Chosen inet_addr current_time db client
  dynamic_client e =
      go (filter (is_unused db.user) db.static_ip) (using_dynamic (deadline_of current_time) db)
        refl refl
    where
      go :
          (free : List StaticIp) (old : List User)
          → filter (is_unused db.user) db.static_ip ≡ free
          → using_dynamic (deadline_of current_time) db ≡ old
          → Chosen inet_addr current_time db client
      go (s ∷ rest) old h h' = unused_address s rest e h
      go [] (u ∷ rest) h h' = expired_address u rest e h h'
      go [] [] h h' = no_address e h h'

  pub chosen : Chosen inet_addr current_time db client
  chosen = go client.ip refl
    where
      go : (ip : Option Text) → client.ip ≡ ip → Chosen inet_addr current_time db client
      go none e = dynamic_client (ap text_of e)
      go (some []) e = dynamic_client (ap text_of e)
      go (some (c ∷ ip)) e = own_address c ip e
