-- ===== src/Gateway/Handlers/Users.antt =====
-- The handlers of class Gateway: the users.
use gateway_socket.Base.{
  ℕ, ◌≡◌, refl, sym, ap, ◌∙◌, inl, inr, none, some, List, [], ◌∷◌, Bool-cases, Option-cases,
  if◌then◌else◌, ◌==◌, find, find-erase, find-insert, find-insert-erase, arith,
}
use gateway_socket.Requests.{UserInfo}
use gateway_socket.Mailbox.{empty}
use gateway_socket.Mailbox.Laws.{IsCounted, serve_all, handle-serve_all}
use gateway_socket.Gateway.Tables.{Tables}
use gateway_socket.Gateway.Handlers.{
  Gateway, put_user, remove_user, add_user, del_user, keep_tables,
}
use gateway_socket.Gateway.Handlers.Laws.{latest, without}

abbrev pub keyed : List UserInfo → List (ℕ × UserInfo)
keyed [] = []
keyed (info ∷ rest) = (info.ip, info) ∷ keyed rest

find-put_user :
    (ip : ℕ) (info : UserInfo) (t : Tables)
    → find ip (put_user info t).user_map ≡ (if info.ip == ip then some info else find ip t.user_map)
unfolding put_user
find-put_user ip info t = elim (Option-cases (find info.ip t.user_map)) [
  | inl absent ↦ rw (put_user, absent) (find-insert info.ip ip info t.user_map absent)
  | inr (old, present) ↦ rw (put_user, present) (find-insert-erase info.ip ip info t.user_map)
]

find-remove_user :
    (ip key : ℕ) (t : Tables)
    → find ip (remove_user key t).user_map ≡ (if key == ip then none else find ip t.user_map)
unfolding remove_user
find-remove_user ip key t = elim (Option-cases (find key t.user_map)) [
  | inr (info, present) ↦ rw (remove_user, present) (find-erase key ip t.user_map)
  | inl absent ↦
      rw (remove_user, absent)
        (elim (Bool-cases (key == ip)) [
          | inr e ↦ rw e refl
          | inl e ↦ let same : key ≡ ip = ground arith in rw (e, sym same) absent
        ])
]

adds_users :
    (requests : List UserInfo) (t : Tables) (ip : ℕ)
    → find ip (serve_all put_user requests t).user_map
      ≡ latest ip (keyed requests) (find ip t.user_map)
adds_users [] t ip = refl
adds_users (info ∷ rest) t ip =
    adds_users rest (put_user info t) ip ∙ ap (latest ip (keyed rest)) (find-put_user ip info t)

removes_users :
    (requests : List ℕ) (t : Tables) (ip : ℕ)
    → find ip (serve_all remove_user requests t).user_map ≡ without ip requests (find ip t.user_map)
removes_users [] t ip = refl
removes_users (key ∷ rest) t ip =
    removes_users rest (remove_user key t) ip ∙ ap (without ip rest) (find-remove_user ip key t)

put_user-static_ip_map :
    (info : UserInfo) (t : Tables) → (put_user info t).static_ip_map ≡ t.static_ip_map
unfolding put_user
put_user-static_ip_map info t = ground arith

remove_user-static_ip_map :
    (key : ℕ) (t : Tables) → (remove_user key t).static_ip_map ≡ t.static_ip_map
unfolding remove_user
remove_user-static_ip_map key t = ground arith

kept_static :
    (requests : List UserInfo) (t : Tables)
    → (serve_all put_user requests t).static_ip_map ≡ t.static_ip_map
kept_static [] t = refl
kept_static (info ∷ rest) t = kept_static rest (put_user info t) ∙ put_user-static_ip_map info t

kept_static_removed :
    (requests : List ℕ) (t : Tables)
    → (serve_all remove_user requests t).static_ip_map ≡ t.static_ip_map
kept_static_removed [] t = refl
kept_static_removed (key ∷ rest) t =
    kept_static_removed rest (remove_user key t) ∙ remove_user-static_ip_map key t

-- If the eventfd counts the queue, the handler of added users ends, with its mailbox empty and nothing
-- but the map of users changed: each address has the user of its last request, or, without a request,
-- the one it had.
pub add_user-latest :
    (g : Gateway)
    → IsCounted g.user_add_request
    → (t' : Tables) × (add_user g ≡ some (record g { tables = t'; user_add_request = empty }))
      × (t'.static_ip_map ≡ g.tables.static_ip_map)
      × ((ip : ℕ)
          → find ip t'.user_map
            ≡ latest ip (keyed g.user_add_request.queue) (find ip g.tables.user_map))
unfolding add_user
add_user-latest g c = (
  serve_all put_user g.user_add_request.queue g.tables,
  rw (handle-serve_all put_user g.user_add_request g.tables c, keep_tables) refl,
  kept_static g.user_add_request.queue g.tables,
  adds_users g.user_add_request.queue g.tables,
)

-- If the eventfd counts the queue, the handler of removed users ends, with its mailbox empty and nothing
-- but the map of users changed: those whose addresses were named are gone, no other is.
pub del_user-without :
    (g : Gateway)
    → IsCounted g.user_del_request
    → (t' : Tables) × (del_user g ≡ some (record g { tables = t'; user_del_request = empty }))
      × (t'.static_ip_map ≡ g.tables.static_ip_map)
      × ((ip : ℕ)
          → find ip t'.user_map ≡ without ip g.user_del_request.queue (find ip g.tables.user_map))
unfolding del_user
del_user-without g c = (
  serve_all remove_user g.user_del_request.queue g.tables,
  rw (handle-serve_all remove_user g.user_del_request g.tables c, keep_tables) refl,
  kept_static_removed g.user_del_request.queue g.tables,
  removes_users g.user_del_request.queue g.tables,
)
