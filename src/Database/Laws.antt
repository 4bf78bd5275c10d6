-- ===== src/Database/Laws.antt =====
-- Database::update_time: which users it takes from the gateway.
use gateway_socket.Base.{
  ℕ, ◌≡◌, refl, sym, ◌∙◌, Bool, true, Bool-cases, inl, inr, Option, none, some, List, [], ◌∷◌, ◌++◌,
  append_assoc, append-nil, ◌==◌, if◌then◌else◌,
}
use gateway_socket.Ethernet.Mac.{print_mac}
use gateway_socket.Requests.{UpdateTime}
use gateway_socket.Mailbox.{Mailbox, empty}
use gateway_socket.Mailbox.Laws.{IsCounted, serve_all, handle-serve_all}
use gateway_socket.Gateway.Handlers.{Gateway, del_user_info}
use gateway_socket.Database.{push_back, rows, update_one, update_all, update_time}

pub pushes {ℓ} : {A : Type ℓ} (xs temp : List A) → serve_all push_back xs temp ≡ temp ++ xs
unfolding push_back
pushes [] temp = sym (append-nil temp)
pushes (x ∷ xs) temp = pushes xs (temp ++ x ∷ []) ∙ append_assoc temp (x ∷ []) xs

-- No row was changed.
abbrev is_refused : Option ℕ → Bool
is_refused none = true
is_refused (some ret) = ret == 0

rows-is_refused : (result : Option ℕ) → (rows result == 0) ≡ is_refused result
unfolding rows
rows-is_refused none = refl
rows-is_refused (some ret) = refl

abbrev pub with_removals : List ℕ → Gateway → Gateway
with_removals [] g = g
with_removals (ip ∷ rest) g = with_removals rest (del_user_info ip g)

module _ {ℓ} {Db : Type ℓ} (update_access_time : ℕ → List ℕ → Db → Option ℕ × Db) where
  -- The statement for one request.
  abbrev execute : UpdateTime → Db → Option ℕ × Db
  execute request db = update_access_time request.utc (print_mac request.mac 32) db

  -- The database after the requests, one after the other.
  abbrev pub updated : List UpdateTime → Db → Db
  updated [] db = db
  updated (request ∷ rest) db = updated rest (execute request db).1

  -- The addresses of the requests that changed no row, in order.
  abbrev pub refused : List UpdateTime → Db → List ℕ
  refused [] db = []
  refused (request ∷ rest) db =
      let (result, db') = execute request db in
      let others = refused rest db' in if is_refused result then request.ip ∷ others else others

  update_all-updated :
      (requests : List UpdateTime) (db : Db) (g : Gateway)
      → update_all update_access_time requests (db, g)
        ≡ (updated requests db, with_removals (refused requests db) g)
  unfolding update_all update_one
  update_all-updated [] db g = refl
  update_all-updated (request ∷ rest) db g =
      rw (update_one, rows-is_refused (execute request db).0)
        (elim (Bool-cases (is_refused (execute request db).0)) [
          | inl e ↦
              rw e (update_all-updated rest (execute request db).1 (del_user_info request.ip g))
          | inr e ↦ rw e (update_all-updated rest (execute request db).1 g)
        ])

  -- If the eventfd counts the queue, the handler ends with its mailbox empty: each request's statement is
  -- executed once, in order, and the users whose statement changed no row are asked to be removed, in
  -- order, and no other.
  pub update_time-refused :
      (m : Mailbox UpdateTime) (db : Db) (g : Gateway)
      → IsCounted m
      → update_time update_access_time m (db, g)
        ≡ some (empty, (updated m.queue db, with_removals (refused m.queue db) g))
  unfolding update_time
  update_time-refused m db g c =
      rw
        (
          update_time,
          handle-serve_all push_back m [] c,
          pushes m.queue [],
          update_all-updated m.queue db g,
        )
        refl
