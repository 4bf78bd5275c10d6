-- ===== src/Database/Sql.antt =====
-- The tables of the database, and the statements that the constructor of class Database prepares
-- (gateway-socket/database.cpp) with their meaning on those tables, for a server that raises no exception.
pub mod Laws
pub mod Leases
pub mod Grants
pub mod Rounds
pub mod Delivered
pub mod Access
mod Tests
use gateway_socket.Base.{
  ℕ, ◌==◌, ltb, leb, Bool, true, false, ◌&&◌, if◌then◌else◌, Option, none, some, List, [], ◌∷◌,
  length, bytes_eq, filter, map,
}
use gateway_socket.Database.Create.{Text, Statements}

-- A row of `static_ip`; the hardware address as `getString` gives it.
pub record StaticIp : Type 0 where
  pub ip : Text
  pub mac : Text
  pub is_static : Bool

-- A row of `user`; the address may be NULL.
pub record User : Type 0 where
  pub ip : Option Text
  pub mac : Text
  pub accessed : ℕ

pub record Db : Type 0 where
  pub static_ip : List StaticIp
  pub user : List User

-- `U`.`ip` = ?
abbrev pub has_ip : Text → User → Bool
has_ip ip u = elim u.ip [ none ↦ false | some s ↦ bytes_eq s ip ]

-- `mac` = ?
abbrev pub has_mac : Text → User → Bool
has_mac mac u = bytes_eq u.mac mac

-- `getString` of a NULL is the empty text.
abbrev pub text_of : Option Text → Text
text_of none = []
text_of (some text) = text

-- SELECT COUNT(`ip`) FROM `user` AS `U` WHERE `U`.`ip` = `S`.`ip`
unfoldable pub holders : Text → List User → ℕ
holders ip users = length (filter (has_ip ip) users)

abbrev pub is_unused : List User → StaticIp → Bool
is_unused users s = if s.is_static then false else holders s.ip users == 0

-- `S`.isStatic = FALSE AND `S`.`ip` = `U`.`ip`, for some `S`.
unfoldable pub is_dynamic : List StaticIp → User → Bool
is_dynamic [] u = false
is_dynamic (s ∷ rest) u =
    if s.is_static then is_dynamic rest u else if has_ip s.ip u then true else is_dynamic rest u

-- ORDER BY `U`.`accessed` ASC
unfoldable pub insert_by_accessed : User → List User → List User
insert_by_accessed u [] = u ∷ []
insert_by_accessed u (v ∷ rest) =
    if leb u.accessed v.accessed then u ∷ v ∷ rest else v ∷ insert_by_accessed u rest

unfoldable pub order_by_accessed : List User → List User
order_by_accessed [] = []
order_by_accessed (u ∷ rest) = insert_by_accessed u (order_by_accessed rest)

-- `static_ip` has its addresses once, so the join has each dynamic user once.
abbrev pub is_using : ℕ → List StaticIp → User → Bool
is_using time static_ips u = if ltb u.accessed time then is_dynamic static_ips u else false

unfoldable pub using_dynamic : ℕ → Db → List User
using_dynamic time db = order_by_accessed (filter (is_using time db.static_ip) db.user)

-- UPDATE `user` SET `ip` = NULL WHERE `ip` = ?
unfoldable pub delete_ip : Text → List User → List User
delete_ip ip [] = []
delete_ip ip (u ∷ rest) = (if has_ip ip u then record u { ip = none } else u) ∷ delete_ip ip rest

-- UPDATE `user` SET `ip` = ? WHERE `mac` = ?
unfoldable pub set_ip : Text → Text → List User → List User
set_ip ip mac [] = []
set_ip ip mac (u ∷ rest) =
    (if has_mac mac u then record u { ip = some ip } else u) ∷ set_ip ip mac rest

-- UPDATE `user` SET `accessed` = ? WHERE `mac` = ?
unfoldable pub set_accessed : ℕ → Text → List User → List User
set_accessed time mac [] = []
set_accessed time mac (u ∷ rest) =
    (if has_mac mac u then record u { accessed = time } else u) ∷ set_accessed time mac rest

abbrev pub statements : Statements Db
statements = record {
  select_user_ip_from_mac = λ mac db. some (map (λ u. text_of u.ip) (filter (has_mac mac) db.user));
  select_unused_dynamic_ip = λ db. some (map (λ s. s.ip) (filter (is_unused db.user) db.static_ip));
  select_using_dynamic_ip = λ time db. some (map (λ u. text_of u.ip) (using_dynamic time db));
  select_mac_with_ip =
      λ ip db. some (map (λ s. s.mac) (filter (λ s. bytes_eq s.ip ip) db.static_ip));
  delete_dynamic = λ ip db. some (record db { user = delete_ip ip db.user });
  insert_dynamic = λ ip mac db. some (record db { user = set_ip ip mac db.user });
}
