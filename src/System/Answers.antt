-- ===== src/System/Answers.antt =====
-- The handlers of the database's thread keep the invariant: what they post to the gateway are packets,
-- removals, and users whose addresses are of the table of static addresses.
use gateway_socket.Base.{
  ℕ, ◌^◌, ◌<◌, ◌≡◌, refl, subst, ◌∙◌, ◌⊎◌, inl, inr, true, Bool-cases, some, List, [], ◌∷◌, ◌++◌,
  length, bytes_eq_refl, arith,
}
use mathlib.Core.List.{Memᴰ}
use mathlib.Core.List.Memᴰ
use mathlib.Core.List.Memᴰ.{head, tail}
use gateway_socket.Packet.{Packet}
use gateway_socket.Requests.{UserInfo, DhcpRequest}
use gateway_socket.Mailbox.{post}
use gateway_socket.Mailbox.Laws.{IsCounted, post-IsCounted}
use gateway_socket.Gateway.Handlers.{Gateway, add_user_info, del_user_info, request_send_packet}
use gateway_socket.Database.Create.{Text, Config, answer}
use gateway_socket.Database.Laws.{with_removals}
use gateway_socket.Database.Sql.{StaticIp, User, Db, has_ip, is_dynamic, holders}
use gateway_socket.Database.Sql.Laws.{length-filter, is_dynamic-text_of}
use gateway_socket.Database.Sql.Leases.{IsLeased, IsGranted, own, unused, expired}
use gateway_socket.Startup.Laws.{listed-Mem}
use gateway_socket.System.Invariant.{IsLent, AreLent}

pub append-Mem {ℓ} :
    {A : Type ℓ} (x a : A) (xs : List A) → Memᴰ x (xs ++ a ∷ []) → Memᴰ x xs ⊎ (x ≡ a)
append-Mem x a [] m = elim (Memᴰ.cases_cons m) [
  | inl same ↦ inr same
  | inr m' ↦ absurd (Memᴰ.not-nil m')
]
append-Mem x a (y ∷ xs) m = elim (Memᴰ.cases_cons m) [
  | inl same ↦ inl (head same)
  | inr m' ↦ elim (append-Mem x a xs m') [ inl m'' ↦ inl (tail m'') | inr same ↦ inr same ]
]

-- Whoever holds an address holds one of the table.
holder-listed :
    (db : Db) (u : User) (ip : Text)
    → IsLeased db
    → Memᴰ u db.user
    → u.ip ≡ some ip
    → (row : StaticIp) × Memᴰ row db.static_ip × (row.ip ≡ ip)
unfolding holders
holder-listed db u ip l m e =
    listed-Mem ip db.static_ip
      (l.known ip (length-filter (has_ip ip) u db.user m (rw e (bytes_eq_refl ip))))

pub granted-listed :
    (deadline : ℕ) (db : Db) (client : User) (ip : Text)
    → IsLeased db
    → Memᴰ client db.user
    → IsGranted deadline db client ip
    → (row : StaticIp) × Memᴰ row db.static_ip × (row.ip ≡ ip)
granted-listed deadline db client ip l m (own e) = holder-listed db client ip l m e
granted-listed deadline db client ip l m (unused s none_own m' e free) = (s, m', e)
granted-listed deadline db client ip l m (expired u none_own none_free mu using first e) =
    let dynamic : is_dynamic db.static_ip u ≡ true = ground arith in
    holder-listed db u ip l mu
      (subst (λ t. u.ip ≡ some t) e (is_dynamic-text_of db.static_ip u dynamic))

-- What the program takes for granted of its settings, and of `inet_addr`.
pub record IsConfigured (inet_addr : Text → ℕ) (config : Config) : Type 0 where
  pub few : length config.dns_list < 64
  pub gateway_word : config.gateway_ip < 2 ^ 32
  pub words : (ip : Text) → inet_addr ip < 2 ^ 32

module _ (inet_addr : Text → ℕ) (statics : List StaticIp) where
  -- Only packets, removals and users with lent addresses were posted.
  pub record IsPosted (g h : Gateway) : Type 0 where
    pub same_tables : h.tables ≡ g.tables
    pub same_adds : h.static_ip_add_request ≡ g.static_ip_add_request
    pub same_deletes : h.static_ip_del_request ≡ g.static_ip_del_request
    pub users : IsCounted g.user_add_request → IsCounted h.user_add_request
    pub removals : IsCounted g.user_del_request → IsCounted h.user_del_request
    pub packets : IsCounted g.send_packet_request → IsCounted h.send_packet_request
    pub lent :
        AreLent inet_addr statics g.user_add_request.queue
        → AreLent inet_addr statics h.user_add_request.queue

  pub IsPosted-refl : (g : Gateway) → IsPosted g g
  IsPosted-refl g = record {
    same_tables = refl;
    same_adds = refl;
    same_deletes = refl;
    users = λ c. c;
    removals = λ c. c;
    packets = λ c. c;
    lent = λ l. l;
  }

  pub IsPosted-trans : (f g h : Gateway) → IsPosted f g → IsPosted g h → IsPosted f h
  IsPosted-trans f g h v w = record {
    same_tables = w.same_tables ∙ v.same_tables;
    same_adds = w.same_adds ∙ v.same_adds;
    same_deletes = w.same_deletes ∙ v.same_deletes;
    users = λ c. w.users (v.users c);
    removals = λ c. w.removals (v.removals c);
    packets = λ c. w.packets (v.packets c);
    lent = λ l. w.lent (v.lent l);
  }

  pub add_user_info-IsPosted :
      (info : UserInfo) (g : Gateway)
      → IsLent inet_addr statics info.ip
      → IsPosted g (add_user_info info g)
  unfolding add_user_info post
  add_user_info-IsPosted info g known = record {
    same_tables = refl;
    same_adds = refl;
    same_deletes = refl;
    users = post-IsCounted info g.user_add_request;
    removals = λ c. c;
    packets = λ c. c;
    lent = λ l i m. elim (append-Mem i info g.user_add_request.queue m) [
      | inl m' ↦ l i m'
      | inr same ↦ rw same known
    ];
  }

  pub del_user_info-IsPosted : (ip : ℕ) (g : Gateway) → IsPosted g (del_user_info ip g)
  unfolding del_user_info
  del_user_info-IsPosted ip g = record {
    same_tables = refl;
    same_adds = refl;
    same_deletes = refl;
    users = λ c. c;
    removals = post-IsCounted ip g.user_del_request;
    packets = λ c. c;
    lent = λ l. l;
  }

  pub send_packet-IsPosted : (p : Packet) (g : Gateway) → IsPosted g (request_send_packet p g)
  unfolding request_send_packet
  send_packet-IsPosted p g = record {
    same_tables = refl;
    same_adds = refl;
    same_deletes = refl;
    users = λ c. c;
    removals = λ c. c;
    packets = post-IsCounted p g.send_packet_request;
    lent = λ l. l;
  }

  pub with_removals-IsPosted : (ips : List ℕ) (g : Gateway) → IsPosted g (with_removals ips g)
  with_removals-IsPosted [] g = IsPosted-refl g
  with_removals-IsPosted (ip ∷ ips) g =
      IsPosted-trans g (del_user_info ip g) _ (del_user_info-IsPosted ip g)
        (with_removals-IsPosted ips (del_user_info ip g))

  pub answer-IsPosted :
      (config : Config) (request : DhcpRequest) (ip : ℕ) (p : Packet) (g : Gateway)
      → IsLent inet_addr statics ip
      → IsPosted g (answer config request ip p g)
  unfolding answer
  answer-IsPosted config request ip p g known = elim (Bool-cases request.is_discover) [
    | inl e ↦ rw (answer, e) (send_packet-IsPosted p g)
    | inr e ↦
        rw (answer, e)
          (IsPosted-trans g _ _ (add_user_info-IsPosted _ g known) (send_packet-IsPosted p _))
  ]
