-- ===== src/Database/Sql/Laws.antt =====
-- The statements on the tables: how many rows hold an address.
use gateway_socket.Base.{
  ℕ, suc, subst, ◌+◌, leb, ◌≡◌, ◌≤◌, refl, sym, ap, ◌∙◌, inl, inr, arith, Bool, true, false,
  if◌then◌else◌, Bool-cases, Option, none, some, List, [], ◌∷◌, length, bytes_eq, bytes_eq_refl,
  filter,
}
use mathlib.Core.List.{Memᴰ}
use mathlib.Core.List.Memᴰ
use mathlib.Core.List.Memᴰ.{head, tail}
use gateway_socket.Database.Create.{Text}
use gateway_socket.Database.Sql.{
  User, StaticIp, has_ip, has_mac, holders, text_of, is_dynamic, set_ip, delete_ip,
  insert_by_accessed, order_by_accessed,
}

-- The number of rows with a hardware address.
unfoldable pub rows_of : Text → List User → ℕ
rows_of mac users = length (filter (has_mac mac) users)

-- In every row that is changed the new address takes the place of the old one.
pub holders-set_ip :
    (ip mac other : Text) (users : List User)
    → holders other (set_ip ip mac users)
      ≤ (if bytes_eq ip other then rows_of mac users else 0) + holders other users
unfolding holders rows_of set_ip filter
holders-set_ip ip mac other [] = omega arith
holders-set_ip ip mac other (u ∷ rest) = ground (arith, holders-set_ip ip mac other rest)

pub set_ip-none :
    (ip mac : Text) (users : List User) → rows_of mac users ≡ 0 → set_ip ip mac users ≡ users
unfolding rows_of set_ip filter
set_ip-none ip mac [] h = refl
set_ip-none ip mac (u ∷ rest) h = ground (arith, set_ip-none ip mac rest)

pub rows_of-set_ip :
    (ip mac other : Text) (users : List User)
    → rows_of other (set_ip ip mac users) ≡ rows_of other users
unfolding rows_of set_ip filter
rows_of-set_ip ip mac other [] = refl
rows_of-set_ip ip mac other (u ∷ rest) = ground (arith, rows_of-set_ip ip mac other rest)

pub rows_of-delete_ip :
    (ip other : Text) (users : List User) → rows_of other (delete_ip ip users) ≡ rows_of other users
unfolding rows_of delete_ip filter
rows_of-delete_ip ip other [] = refl
rows_of-delete_ip ip other (u ∷ rest) = ground (arith, rows_of-delete_ip ip other rest)

pub holders-delete_ip :
    (ip other : Text) (users : List User) → holders other (delete_ip ip users) ≤ holders other users
unfolding holders delete_ip filter
holders-delete_ip ip other [] = omega arith
holders-delete_ip ip other (u ∷ rest) = ground (arith, holders-delete_ip ip other rest)

pub holders-deleted : (ip : Text) (users : List User) → holders ip (delete_ip ip users) ≡ 0
unfolding holders delete_ip filter
holders-deleted ip [] = refl
holders-deleted ip (u ∷ rest) = ground (arith, holders-deleted ip rest)

module _ {ℓ} {A : Type ℓ} (f : A → Bool) where
  pub of_filter : (x : A) (xs : List A) → Memᴰ x (filter f xs) → Memᴰ x xs × (f x ≡ true)
  unfolding filter
  of_filter x [] m = absurd (Memᴰ.not-nil m)
  of_filter x (y ∷ xs) m = elim (Bool-cases (f y)) [
    | inl e ↦ elim (Memᴰ.cases_cons (rw e at m)) [
      | inl same ↦ (head same, ap f same ∙ e)
      | inr m' ↦ let (m'', fx) = of_filter x xs m' in (tail m'', fx)
    ]
    | inr e ↦ let (m', fx) = of_filter x xs (rw e at m) in (tail m', fx)
  ]

  pub filter-Mem : (x : A) (xs : List A) → Memᴰ x xs → f x ≡ true → Memᴰ x (filter f xs)
  unfolding filter
  filter-Mem x [] m h = absurd (Memᴰ.not-nil m)
  filter-Mem x (y ∷ xs) (head e) h = rw (sym (ap f e) ∙ h) (head e)
  filter-Mem x (y ∷ xs) (tail m) h = elim (Bool-cases (f y)) [
    | inl e ↦ rw e (tail (filter-Mem x xs m h))
    | inr e ↦ rw e (filter-Mem x xs m h)
  ]

  pub filter-nil : (x : A) (xs : List A) → Memᴰ x xs → filter f xs ≡ [] → f x ≡ false
  filter-nil x xs m h = elim (Bool-cases (f x)) [
    | inl e ↦ absurd (Memᴰ.not-nil (subst (Memᴰ x) h (filter-Mem x xs m e)))
    | inr e ↦ e
  ]

  pub length-filter : (x : A) (xs : List A) → Memᴰ x xs → f x ≡ true → 1 ≤ length (filter f xs)
  length-filter x xs m h = counted (filter f xs) (filter-Mem x xs m h)
    where
      counted : (ys : List A) → Memᴰ x ys → 1 ≤ length ys
      counted [] m' = absurd (Memᴰ.not-nil m')
      counted (y ∷ ys) m' = omega arith

-- The first of the ordered rows is the one that was used the longest time ago.
abbrev pub IsOldest : List User → List User → Type 0
IsOldest users [] = (u : User) → ¬ Memᴰ u users
IsOldest users (v ∷ vs) = Memᴰ v users × ((u : User) → Memᴰ u users → v.accessed ≤ u.accessed)

insert_by_accessed-IsOldest :
    (x : User) (rest ordered : List User)
    → IsOldest rest ordered
    → IsOldest (x ∷ rest) (insert_by_accessed x ordered)
unfolding insert_by_accessed
insert_by_accessed-IsOldest x rest [] none_left = (
  head refl,
  λ u m. elim (Memᴰ.cases_cons m) [ inl e ↦ rw e (omega arith) | inr m' ↦ absurd (none_left u m') ],
)
insert_by_accessed-IsOldest x rest (v ∷ vs) (m, first) =
    elim (Bool-cases (leb x.accessed v.accessed)) [
      | inl le ↦
          let x_first : x.accessed ≤ v.accessed = ground arith in
          rw le (
            head refl,
            λ u m'. elim (Memᴰ.cases_cons m') [
              | inl e ↦ rw e (omega arith)
              | inr m'' ↦ omega (arith, first u m'')
            ],
          )
      | inr gt ↦
          let v_first : v.accessed ≤ x.accessed = ground arith in
          rw gt (
            tail m,
            λ u m'. elim (Memᴰ.cases_cons m') [ inl e ↦ rw e v_first | inr m'' ↦ first u m'' ],
          )
    ]

pub order_by_accessed-IsOldest : (users : List User) → IsOldest users (order_by_accessed users)
unfolding order_by_accessed
order_by_accessed-IsOldest [] = λ u. Memᴰ.not-nil
order_by_accessed-IsOldest (x ∷ rest) =
    insert_by_accessed-IsOldest x rest (order_by_accessed rest) (order_by_accessed-IsOldest rest)

pub is_dynamic-text_of :
    (static_ips : List StaticIp) (u : User)
    → is_dynamic static_ips u ≡ true
    → u.ip ≡ some (text_of u.ip)
unfolding is_dynamic
is_dynamic-text_of [] u h = ground arith
is_dynamic-text_of (s ∷ rest) u h = elim (Bool-cases (has_ip s.ip u)) [
  | inl e ↦ has_ip-text_of u.ip e
  | inr e ↦ is_dynamic-text_of rest u (ground arith)
]
  where
    has_ip-text_of :
        (ip : Option Text)
        → (elim ip [ none ↦ false | some t ↦ bytes_eq t s.ip ]) ≡ true
        → ip ≡ some (text_of ip)
    has_ip-text_of none e = ground arith
    has_ip-text_of (some t) e = refl

pub set_ip-Mem :
    (ip mac : Text) (users : List User) (u : User)
    → Memᴰ u (set_ip ip mac users)
    → u.mac ≡ mac
    → u.ip ≡ some ip
unfolding set_ip
set_ip-Mem ip mac [] u m h = absurd (Memᴰ.not-nil m)
set_ip-Mem ip mac (x ∷ rest) u m h = elim (Memᴰ.cases_cons m) [
  | inl e ↦ elim (Bool-cases (has_mac mac x)) [
    | inl same ↦ ap (λ w. w.ip) (rw same at e)
    | inr other ↦
        let same : u ≡ x = rw other at e in
        ground
          (arith, bytes_eq_refl mac, ap (λ w. bytes_eq w.mac mac) same, ap (λ m. bytes_eq m mac) h)
  ]
  | inr m' ↦ set_ip-Mem ip mac rest u m' h
]

-- To give a client the address that it has changes nothing.
pub set_ip-own :
    (ip mac : Text) (users us : List User) (u : User)
    → rows_of mac users ≤ 1
    → filter (has_mac mac) users ≡ u ∷ us
    → u.ip ≡ some ip
    → set_ip ip mac users ≡ users
unfolding set_ip rows_of filter
set_ip-own ip mac [] us u le h e = refl
set_ip-own ip mac (x ∷ rest) us u le h e = elim (Bool-cases (has_mac mac x)) [
  | inl same ↦
      let h' : x ∷ filter (has_mac mac) rest ≡ u ∷ us = rw same at h in
      let le' : suc (rows_of mac rest) ≤ 1 = rw same at le in
      let x_ip : x.ip ≡ some ip = cc in
      rw (same, set_ip-none ip mac rest (omega (arith, le')))
        (ap (λ i. record x { ip = i } ∷ rest) (sym x_ip))
  | inr other ↦
      rw other (ap (λ ws. x ∷ ws) (set_ip-own ip mac rest us u (rw other at le) (rw other at h) e))
]
