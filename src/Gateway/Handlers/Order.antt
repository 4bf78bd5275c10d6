-- ===== src/Gateway/Handlers/Order.antt =====
-- The handlers of class Gateway: the orders in which the event loop may run them.
use gateway_socket.Base.{
  ℕ, ◌≡◌, refl, sym, ap, ◌∙◌, inl, inr, Option, none, some, List, [], ◌∷◌, Option-cases, find,
}
use gateway_socket.Requests.{UserInfo}
use gateway_socket.Mailbox.{empty}
use gateway_socket.Mailbox.Laws.{IsCounted, serve_all, handle-serve_all}
use gateway_socket.Gateway.Tables.{Tables}
use gateway_socket.Gateway.Handlers.{
  Gateway, put_static_ip, remove_static_ip, put_user, remove_user, add_static_ip, del_static_ip,
  add_user, del_user, keep_tables,
}

-- A body that changes only one map, whatever the other one is.
abbrev OnStatic {ℓ} : {A : Type ℓ} → (A → Tables → Tables) → Type ℓ
OnStatic {A = A} body =
    (x : A) (t : Tables) (users : List (ℕ × UserInfo))
    → body x (record t { user_map = users }) ≡ record (body x t) { user_map = users }

abbrev OnUsers {ℓ} : {A : Type ℓ} → (A → Tables → Tables) → Type ℓ
OnUsers {A = A} body =
    (x : A) (t : Tables) (statics : List (ℕ × List ℕ))
    → body x (record t { static_ip_map = statics }) ≡ record (body x t) { static_ip_map = statics }

put_static_ip-OnStatic : OnStatic put_static_ip
unfolding put_static_ip
put_static_ip-OnStatic (ip, mac) t users = refl

remove_static_ip-OnStatic : OnStatic remove_static_ip
unfolding remove_static_ip
remove_static_ip-OnStatic ip t users = refl

put_user-OnUsers : OnUsers put_user
unfolding put_user
put_user-OnUsers info t statics = elim (Option-cases (find info.ip t.user_map)) [
  | inl absent ↦ rw (put_user, absent) refl
  | inr (old, present) ↦ rw (put_user, present) refl
]

remove_user-OnUsers : OnUsers remove_user
unfolding remove_user
remove_user-OnUsers ip t statics = elim (Option-cases (find ip t.user_map)) [
  | inl absent ↦ rw (remove_user, absent) refl
  | inr (old, present) ↦ rw (remove_user, present) refl
]

module _ {ℓ κ} {A : Type ℓ} {B : Type κ} (static : A → Tables → Tables) (user : B → Tables → Tables)
    (s : OnStatic static) (u : OnUsers user) where
  bodies : (x : A) (y : B) (t : Tables) → static x (user y t) ≡ user y (static x t)
  bodies x y t =
      ap (static x) (u y t t.static_ip_map)
      ∙ s x t (user y t).user_map
      ∙ sym (u y t (static x t).static_ip_map)
      ∙ sym (ap (user y) (s x t t.user_map))

  one_past :
      (x : A) (ys : List B) (t : Tables)
      → static x (serve_all user ys t) ≡ serve_all user ys (static x t)
  one_past x [] t = refl
  one_past x (y ∷ ys) t = one_past x ys (user y t) ∙ ap (serve_all user ys) (bodies x y t)

  serve_all-swap :
      (xs : List A) (ys : List B) (t : Tables)
      → serve_all static xs (serve_all user ys t) ≡ serve_all user ys (serve_all static xs t)
  serve_all-swap [] ys t = refl
  serve_all-swap (x ∷ xs) ys t =
      ap (serve_all static xs) (one_past x ys t) ∙ serve_all-swap xs ys (static x t)

abbrev then_handle : Option Gateway → (Gateway → Option Gateway) → Option Gateway
then_handle none handler = none
then_handle (some g) handler = handler g

-- Both handlers, in both orders, with the same end.
abbrev pub AnyOrder : (Gateway → Option Gateway) → (Gateway → Option Gateway) → Gateway → Type 0
AnyOrder first second g =
    (t : Gateway) × (then_handle (first g) second ≡ some t)
    × (then_handle (second g) first ≡ some t)

module _ {ℓ κ} {A : Type ℓ} {B : Type κ} (static : A → Tables → Tables) (user : B → Tables → Tables)
    (s : OnStatic static) (u : OnUsers user) where
  -- Handlers that serve one queue each, `after` being the state behind both.
  swapped :
      (first second : Gateway → Option Gateway) (g : Gateway) (xs : List A) (ys : List B)
      (after : Tables → Gateway)
      → then_handle (first g) second
        ≡ some (after (serve_all user ys (serve_all static xs g.tables)))
      → then_handle (second g) first
        ≡ some (after (serve_all static xs (serve_all user ys g.tables)))
      → AnyOrder first second g
  swapped first second g xs ys after h h' = (
    after (serve_all user ys (serve_all static xs g.tables)),
    h,
    h' ∙ ap (λ t. some (after t)) (serve_all-swap static user s u xs ys g.tables),
  )

add_static_ip_lem :
    (g : Gateway)
    → IsCounted g.static_ip_add_request
    → add_static_ip g
      ≡ some (record g {
        tables = serve_all put_static_ip g.static_ip_add_request.queue g.tables;
        static_ip_add_request = empty;
      })
unfolding add_static_ip
add_static_ip_lem g c =
    rw (handle-serve_all put_static_ip g.static_ip_add_request g.tables c, keep_tables) refl

del_static_ip_lem :
    (g : Gateway)
    → IsCounted g.static_ip_del_request
    → del_static_ip g
      ≡ some (record g {
        tables = serve_all remove_static_ip g.static_ip_del_request.queue g.tables;
        static_ip_del_request = empty;
      })
unfolding del_static_ip
del_static_ip_lem g c =
    rw (handle-serve_all remove_static_ip g.static_ip_del_request g.tables c, keep_tables) refl

add_user_lem :
    (g : Gateway)
    → IsCounted g.user_add_request
    → add_user g
      ≡ some (record g {
        tables = serve_all put_user g.user_add_request.queue g.tables;
        user_add_request = empty;
      })
unfolding add_user
add_user_lem g c = rw (handle-serve_all put_user g.user_add_request g.tables c, keep_tables) refl

del_user_lem :
    (g : Gateway)
    → IsCounted g.user_del_request
    → del_user g
      ≡ some (record g {
        tables = serve_all remove_user g.user_del_request.queue g.tables;
        user_del_request = empty;
      })
unfolding del_user
del_user_lem g c = rw (handle-serve_all remove_user g.user_del_request g.tables c, keep_tables) refl

-- If the eventfds count the queues, each handler of the static addresses can run before or after each
-- handler of the users: both orders end, in the same state.
pub handlers-AnyOrder :
    (g : Gateway)
    → IsCounted g.static_ip_add_request
    → IsCounted g.static_ip_del_request
    → IsCounted g.user_add_request
    → IsCounted g.user_del_request
    → AnyOrder add_static_ip add_user g
      × AnyOrder add_static_ip del_user g
      × AnyOrder del_static_ip add_user g
      × AnyOrder del_static_ip del_user g
handlers-AnyOrder g a d ua ud = (
  swapped put_static_ip put_user put_static_ip-OnStatic put_user-OnUsers add_static_ip add_user g
      g.static_ip_add_request.queue g.user_add_request.queue
      (λ t. record g { tables = t; static_ip_add_request = empty; user_add_request = empty })
      (rw (add_static_ip_lem g a, then_handle) (add_user_lem _ ua))
      (rw (add_user_lem g ua, then_handle) (add_static_ip_lem _ a)),
  swapped put_static_ip remove_user put_static_ip-OnStatic remove_user-OnUsers add_static_ip
      del_user g g.static_ip_add_request.queue g.user_del_request.queue
      (λ t. record g { tables = t; static_ip_add_request = empty; user_del_request = empty })
      (rw (add_static_ip_lem g a, then_handle) (del_user_lem _ ud))
      (rw (del_user_lem g ud, then_handle) (add_static_ip_lem _ a)),
  swapped remove_static_ip put_user remove_static_ip-OnStatic put_user-OnUsers del_static_ip
      add_user g g.static_ip_del_request.queue g.user_add_request.queue
      (λ t. record g { tables = t; static_ip_del_request = empty; user_add_request = empty })
      (rw (del_static_ip_lem g d, then_handle) (add_user_lem _ ua))
      (rw (add_user_lem g ua, then_handle) (del_static_ip_lem _ d)),
  swapped remove_static_ip remove_user remove_static_ip-OnStatic remove_user-OnUsers del_static_ip
      del_user g g.static_ip_del_request.queue g.user_del_request.queue
      (λ t. record g { tables = t; static_ip_del_request = empty; user_del_request = empty })
      (rw (del_static_ip_lem g d, then_handle) (del_user_lem _ ud))
      (rw (del_user_lem g ud, then_handle) (del_static_ip_lem _ d)),
)
