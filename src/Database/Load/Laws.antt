-- ===== src/Database/Load/Laws.antt =====
-- The rows that are loaded: no row is left out, and nothing else is loaded.
use gateway_socket.Base.{
  ℕ, ◌≡◌, refl, sym, ap, ◌∙◌, inl, inr, some, List, [], ◌∷◌, ◌++◌, append_assoc, append-nil,
}
use mathlib.Core.List.{Memᴰ}
use mathlib.Core.List.Memᴰ
use mathlib.Core.List.Memᴰ.{head, tail}
use gateway_socket.Ethernet.Mac.{read_mac}
use gateway_socket.Requests.{UserInfo}
use gateway_socket.Gateway.Buffer.{Known}
use gateway_socket.Database.{push_back}
use gateway_socket.Database.Create.{Text}
use gateway_socket.Database.Sql.{StaticIp, User, text_of}
use gateway_socket.Database.Load.{load_static_ip, load_user}

-- Row by row, what is loaded.
pub data LoadedStatic (inet_addr : Text → ℕ) : List StaticIp → List (ℕ × List ℕ) → Type 0 where
  no_static : LoadedStatic inet_addr [] []
  one_static :
      (row : StaticIp) (rest : List StaticIp) (mac : List ℕ) (entries : List (ℕ × List ℕ))
      → read_mac row.mac ≡ some mac
      → LoadedStatic inet_addr rest entries
      → LoadedStatic inet_addr (row ∷ rest) ((inet_addr row.ip, mac) ∷ entries)

pub data LoadedUsers (inet_addr : Text → ℕ) (timeout : ℕ) : List User → List UserInfo → Type 0 where
  no_user : LoadedUsers inet_addr timeout [] []
  one_user :
      (row : User) (rest : List User) (info : UserInfo) (infos : List UserInfo)
      → read_mac row.mac ≡ some info.user_mac
      → info.ip ≡ inet_addr (text_of row.ip)
      → info.last_access ≡ row.accessed
      → info.timeout ≡ timeout
      → LoadedUsers inet_addr timeout rest infos
      → LoadedUsers inet_addr timeout (row ∷ rest) (info ∷ infos)

-- Every row's hardware address can be read.
abbrev pub AllReadable {ℓ} : {A : Type ℓ} → (A → Text) → List A → Type 0
AllReadable text [] = Unit
AllReadable text (row ∷ rest) = Known (read_mac (text row)) × AllReadable text rest

module _ (inet_addr : Text → ℕ) where
  pub load_static_ip-Loaded :
      (rows : List StaticIp) (ret : List (ℕ × List ℕ))
      → AllReadable (λ row. row.mac) rows
      → (entries : List (ℕ × List ℕ)) × (load_static_ip inet_addr rows ret ≡ some (ret ++ entries))
        × LoadedStatic inet_addr rows entries
  unfolding load_static_ip push_back
  load_static_ip-Loaded [] ret v = ([], rw (append-nil ret) refl, no_static)
  load_static_ip-Loaded (row ∷ rest) ret ((mac, e), vs) =
      let (entries, e', loaded) =
        load_static_ip-Loaded rest (ret ++ (inet_addr row.ip, mac) ∷ []) vs in
      (
        (inet_addr row.ip, mac) ∷ entries,
        rw (load_static_ip, e)
            (e' ∙ ap some (append_assoc ret ((inet_addr row.ip, mac) ∷ []) entries)),
        one_static row rest mac entries e loaded,
      )

  pub load_user-Loaded :
      (timeout : ℕ) (rows : List User) (ret : List UserInfo)
      → AllReadable (λ row. row.mac) rows
      → (infos : List UserInfo) × (load_user inet_addr timeout rows ret ≡ some (ret ++ infos))
        × LoadedUsers inet_addr timeout rows infos
  unfolding load_user push_back
  load_user-Loaded timeout [] ret v = ([], rw (append-nil ret) refl, no_user)
  load_user-Loaded timeout (row ∷ rest) ret ((mac, e), vs) =
      let info : UserInfo = record {
        ip = inet_addr (text_of row.ip);
        user_mac = mac;
        last_access = row.accessed;
        timeout = timeout;
      } in
      let (infos, e', loaded) = load_user-Loaded timeout rest (ret ++ info ∷ []) vs in
      (
        info ∷ infos,
        rw (load_user, e) (e' ∙ ap some (append_assoc ret (info ∷ []) infos)),
        one_user row rest info infos e refl refl refl loaded,
      )

  pub Loaded-static :
      {rows : List StaticIp} {entries : List (ℕ × List ℕ)} (row : StaticIp)
      → LoadedStatic inet_addr rows entries
      → Memᴰ row rows
      → (mac : List ℕ) × Memᴰ (inet_addr row.ip, mac) entries
  Loaded-static row no_static m = absurd (Memᴰ.not-nil m)
  Loaded-static row (one_static first rest mac entries e l) m = elim (Memᴰ.cases_cons m) [
    | inl same ↦ (mac, head (ap (λ r. (inet_addr r.ip, mac)) same))
    | inr m' ↦ let (mac', m'') = Loaded-static row l m' in (mac', tail m'')
  ]

  pub Loaded-active :
      {timeout : ℕ} {rows : List User} {infos : List UserInfo} (row : User)
      → LoadedUsers inet_addr timeout rows infos
      → Memᴰ row rows
      → (info : UserInfo) × Memᴰ info infos × (info.ip ≡ inet_addr (text_of row.ip))
  Loaded-active row no_user m = absurd (Memᴰ.not-nil m)
  Loaded-active row (one_user first rest info others e e_ip e_last e_timeout l) m =
      elim (Memᴰ.cases_cons m) [
        | inl same ↦ (info, head refl, e_ip ∙ ap (λ r. inet_addr (text_of r.ip)) (sym same))
        | inr m' ↦ let (info', m'', e') = Loaded-active row l m' in (info', tail m'', e')
      ]

  pub Loaded-user :
      {timeout : ℕ} {rows : List User} {infos : List UserInfo} (info : UserInfo)
      → LoadedUsers inet_addr timeout rows infos
      → Memᴰ info infos
      → (row : User) × Memᴰ row rows × (info.ip ≡ inet_addr (text_of row.ip))
  Loaded-user info no_user m = absurd (Memᴰ.not-nil m)
  Loaded-user info (one_user first rest other infos e e_ip e_last e_timeout l) m =
      elim (Memᴰ.cases_cons m) [
        | inl same ↦ (first, head refl, ap (λ i. i.ip) same ∙ e_ip)
        | inr m' ↦ let (row, m'', e') = Loaded-user info l m' in (row, tail m'', e')
      ]
