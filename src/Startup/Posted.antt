-- ===== src/Startup/Posted.antt =====
-- The requests that `main` posts: what they leave in the mailboxes, and in the maps.
use gateway_socket.Base.{
  ℕ, ◌≡◌, refl, sym, ap, ap₂, ◌∙◌, ◌⊎◌, inl, inr, true, Bool-cases, Option, some, List, [], ◌∷◌,
  ◌++◌, append_assoc, append-nil, ◌==◌, arith,
}
use mathlib.Core.List.{Memᴰ}
use mathlib.Core.List.Memᴰ
use mathlib.Core.List.Memᴰ.{head, tail}
use gateway_socket.Gateway.Handlers.Backing.{latest-Known}
use gateway_socket.Requests.{UserInfo}
use gateway_socket.Mailbox.{Mailbox, post}
use gateway_socket.Mailbox.Laws.{IsCounted, post-IsCounted}
use gateway_socket.Gateway.Buffer.{Known}
use gateway_socket.Gateway.Handlers.{Gateway, request_add_static_ip, add_user_info}
use gateway_socket.Gateway.Handlers.Laws.{latest}
use gateway_socket.Gateway.Handlers.Users.{keyed}
use gateway_socket.Startup.{add_all_static_ip, add_all_user}

unfoldable pub posted {ℓ} : {A : Type ℓ} (xs : List A) (m : Mailbox A) → Mailbox A
posted [] m = m
posted (x ∷ xs) m = posted xs (post x m)

pub queue-posted {ℓ} :
    {A : Type ℓ} (xs : List A) (m : Mailbox A) → (posted xs m).queue ≡ m.queue ++ xs
unfolding posted post
queue-posted [] m = sym (append-nil m.queue)
queue-posted (x ∷ xs) m = queue-posted xs (post x m) ∙ append_assoc m.queue (x ∷ []) xs

pub posted-IsCounted {ℓ} :
    {A : Type ℓ} (xs : List A) (m : Mailbox A) → IsCounted m → IsCounted (posted xs m)
unfolding posted
posted-IsCounted [] m c = c
posted-IsCounted (x ∷ xs) m c = posted-IsCounted xs (post x m) (post-IsCounted x m c)

pub add_all_static_ip-posted :
    (entries : List (ℕ × List ℕ)) (g : Gateway)
    → add_all_static_ip entries g
      ≡ record g { static_ip_add_request = posted entries g.static_ip_add_request }
unfolding add_all_static_ip request_add_static_ip posted
add_all_static_ip-posted [] g = refl
add_all_static_ip-posted ((ip, mac) ∷ rest) g =
    add_all_static_ip-posted rest (request_add_static_ip ip mac g)

pub add_all_user-posted :
    (infos : List UserInfo) (g : Gateway)
    → add_all_user infos g ≡ record g { user_add_request = posted infos g.user_add_request }
unfolding add_all_user add_user_info posted
add_all_user-posted [] g = refl
add_all_user-posted (info ∷ rest) g = add_all_user-posted rest (add_user_info info g)

-- A key that is named among the requests is in the map.
pub latest-present {ℓ} :
    {V : Type ℓ} (ip : ℕ) (v : V) (requests : List (ℕ × V)) (old : Option V)
    → Memᴰ (ip, v) requests
    → Known (latest ip requests old)
latest-present ip v [] old m = absurd (Memᴰ.not-nil m)
latest-present ip v ((key, w) ∷ rest) old m = elim (Memᴰ.cases_cons m) [
  | inl same ↦
      let s : ip ≡ key = ap (λ r. r.0) same in
      let e : (key == ip) ≡ true = ground arith in latest-Known ip rest _ (rw e (w, refl))
  | inr m' ↦ latest-present ip v rest _ m'
]

-- What the map has comes from a request, or was there.
pub latest-Mem {ℓ} :
    {V : Type ℓ} (ip : ℕ) (v : V) (requests : List (ℕ × V)) (old : Option V)
    → latest ip requests old ≡ some v
    → Memᴰ (ip, v) requests ⊎ (old ≡ some v)
latest-Mem ip v [] old h = inr h
latest-Mem ip v ((key, w) ∷ rest) old h = elim (latest-Mem ip v rest _ h) [
  | inl m ↦ inl (tail m)
  | inr e ↦ elim (Bool-cases (key == ip)) [
    | inl same ↦
        let e' : some w ≡ some v = rw same at e in
        let w_v : v ≡ w = cc in
        let ip_key : ip ≡ key = ground arith in inl (head (ap₂ (λ i x. (i, x)) ip_key w_v))
    | inr other ↦ inr (rw other at e)
  ]
]

pub keyed-Mem :
    (ip : ℕ) (info : UserInfo) (infos : List UserInfo)
    → Memᴰ (ip, info) (keyed infos)
    → Memᴰ info infos × (info.ip ≡ ip)
keyed-Mem ip info [] m = absurd (Memᴰ.not-nil m)
keyed-Mem ip info (first ∷ rest) m = elim (Memᴰ.cases_cons m) [
  | inl same ↦
      let i : info ≡ first = ap (λ r. r.1) same in
      (head i, ap (λ u. u.ip) i ∙ sym (ap (λ r. r.0) same))
  | inr m' ↦ let (m'', e) = keyed-Mem ip info rest m' in (tail m'', e)
]

pub Mem-keyed :
    (info : UserInfo) (infos : List UserInfo) → Memᴰ info infos → Memᴰ (info.ip, info) (keyed infos)
Mem-keyed info [] m = absurd (Memᴰ.not-nil m)
Mem-keyed info (first ∷ rest) m = elim (Memᴰ.cases_cons m) [
  | inl same ↦ head (ap (λ u. (u.ip, u)) same)
  | inr m' ↦ tail (Mem-keyed info rest m')
]
