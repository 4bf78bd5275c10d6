-- ===== src/Database/Sql/Access.antt =====
-- The statement for access times: it leaves the leases as they are. How many rows it reports is the
-- server's matter, and a parameter.
use gateway_socket.Base.{ℕ, ◌≡◌, refl, ◌∙◌, ◌⊎◌, inl, inr, Option, List, [], ◌∷◌, filter, arith}
use gateway_socket.Database.Create.{Text}
use gateway_socket.Database.Laws.{updated}
use gateway_socket.Ethernet.Mac.{print_mac}
use gateway_socket.Requests.{UpdateTime}
use gateway_socket.Database.Sql.{User, Db, holders, set_accessed}
use gateway_socket.Database.Sql.Laws.{rows_of}
use gateway_socket.Database.Sql.Leases.{IsLeased}

rows_of-set_accessed :
    (time : ℕ) (mac other : Text) (users : List User)
    → rows_of other (set_accessed time mac users) ≡ rows_of other users
unfolding rows_of set_accessed filter
rows_of-set_accessed time mac other [] = refl
rows_of-set_accessed time mac other (u ∷ rest) =
    ground (arith, rows_of-set_accessed time mac other rest)

holders-set_accessed :
    (time : ℕ) (mac ip : Text) (users : List User)
    → holders ip (set_accessed time mac users) ≡ holders ip users
unfolding holders set_accessed filter
holders-set_accessed time mac ip [] = refl
holders-set_accessed time mac ip (u ∷ rest) = ground (arith, holders-set_accessed time mac ip rest)

pub set_accessed-IsLeased :
    (time : ℕ) (mac : Text) (db : Db)
    → IsLeased db
    → IsLeased (record db { user = set_accessed time mac db.user })
set_accessed-IsLeased time mac db l = record {
  one_row = λ other. rw (rows_of-set_accessed time mac other db.user) (l.one_row other);
  alone = λ ip. rw (holders-set_accessed time mac ip db.user) (l.alone ip);
  known = λ ip. rw (holders-set_accessed time mac ip db.user) (l.known ip);
}

-- The statement sets the time, or it fails and changes nothing.
abbrev pub SetsAccess : (ℕ → Text → Db → Option ℕ × Db) → Type 0
SetsAccess update =
    (time : ℕ) (mac : Text) (db : Db)
    → ((update time mac db).1 ≡ db)
      ⊎ ((update time mac db).1 ≡ record db { user = set_accessed time mac db.user })

module _ (update_access_time : ℕ → Text → Db → Option ℕ × Db)
    (sets : SetsAccess update_access_time) where
  executed :
      (time : ℕ) (mac : Text) (db : Db)
      → IsLeased db
      → IsLeased (update_access_time time mac db).1
        × ((update_access_time time mac db).1.static_ip ≡ db.static_ip)
  executed time mac db l = elim (sets time mac db) [
    | inl same ↦ rw same (l, refl)
    | inr changed ↦ rw changed (set_accessed-IsLeased time mac db l, refl)
  ]

  pub updated-IsLeased :
      (requests : List UpdateTime) (db : Db)
      → IsLeased db
      → IsLeased (updated update_access_time requests db)
        × ((updated update_access_time requests db).static_ip ≡ db.static_ip)
  updated-IsLeased [] db l = (l, refl)
  updated-IsLeased (request ∷ rest) db l =
      let (l', same) = executed request.utc (print_mac request.mac 32) db l in
      let (l'', same') = updated-IsLeased rest _ l' in (l'', same' ∙ same)
