-- ===== src/Startup/Options.antt =====
-- gateway-socket/main.cpp: the options of the command line. `getopt_long` is not part of the program: the
-- options are the ones that it returns, in order. `inet_addr` and `atoi` are parameters.
pub mod Counted
pub mod Accepted
use gateway_socket.Base.{
  ℕ, zero, suc, ◌-◌, ltb, ◌==◌, Bool, true, false, if◌then◌else◌, ℤ, pos, negsuc, is_negative,
  eq_int, Option, none, some, List, [], ◌∷◌, ◌++◌, length, take,
}
use gateway_socket.Database.{push_back}
use gateway_socket.Database.Create.{Text}
use gateway_socket.Device.{if_name_size}

pub data Given : Type 0 where
  -- --gateway, --subnet, --dns
  gateway subnet dns : Text → Given
  -- --inside or -i, --outside or -o, --db-user or -u, --db-pass or -p
  inside outside db_user db_pass : Text → Given
  -- --daemon or -d
  daemon : Given
  -- --timeout or -t, --db-name or -n
  timeout db_name : Text → Given
  -- '?', for an option that is not known or lacks its argument
  unknown : Given

-- `none` is an array that was not written to.
pub record Settings : Type 0 where
  pub neccessary : ℤ
  pub daemonize : Bool
  pub timeout : ℤ
  pub in_dev : Option Text
  pub out_dev : Option Text
  pub db_user : Option Text
  pub db_pass : Option Text
  pub db_name : Option Text
  pub gateway_ip : ℕ
  pub subnet_mask : ℕ
  pub dns_list : List ℕ

-- "gateway"
abbrev pub default_db_name : Text
default_db_name = b'g' ∷ b'a' ∷ b't' ∷ b'e' ∷ b'w' ∷ b'a' ∷ b'y' ∷ []

abbrev pub defaults : Settings
defaults = record {
  neccessary = pos 7;
  daemonize = false;
  timeout = pos 10000;
  in_dev = none;
  out_dev = none;
  db_user = none;
  db_pass = none;
  db_name = some default_db_name;
  gateway_ip = 0;
  subnet_mask = 0;
  dns_list = [];
}

-- `neccessary--`
abbrev pub less_one : ℤ → ℤ
less_one (pos zero) = negsuc zero
less_one (pos (suc n)) = pos n
less_one (negsuc n) = negsuc (suc n)

abbrev pub found_one : Settings → Settings
found_one s = record s { neccessary = less_one s.neccessary }

-- `strncpy` into an array of `size` characters; `none` is an array that holds no terminated string, as
-- is one that was never written to, because `strncpy` fills it without a terminator.
abbrev pub copied : ℕ → Text → Option Text
copied size text = if ltb (length text) size then some text else none

module _ (inet_addr : Text → ℕ) (atoi : Text → ℤ) where
  -- One round of the loop; `none` is `help`, which exits.
  unfoldable pub take_option : Given → Settings → Option Settings
  take_option (gateway arg) s = some (record (found_one s) { gateway_ip = inet_addr arg })
  take_option (subnet arg) s = some (record (found_one s) { subnet_mask = inet_addr arg })
  take_option (dns arg) s =
      let counted = if length s.dns_list == 0 then found_one s else s in
      some (record counted { dns_list = push_back (inet_addr arg) s.dns_list })
  take_option (inside arg) s = some (record (found_one s) { in_dev = copied if_name_size arg })
  take_option (outside arg) s = some (record (found_one s) { out_dev = copied if_name_size arg })
  take_option (db_user arg) s = some (record (found_one s) { db_user = copied 255 arg })
  take_option (db_pass arg) s = some (record (found_one s) { db_pass = copied 255 arg })
  take_option daemon s = some (record s { daemonize = true })
  take_option (timeout arg) s =
      some (record s { timeout = if is_negative (atoi arg) then pos 10000 else atoi arg })
  take_option (db_name arg) s = some (record s { db_name = copied 255 arg })
  take_option unknown s = none

  unfoldable pub take_options : List Given → Settings → Option Settings
  take_options [] s = some s
  take_options (option ∷ rest) s = elim (take_option option s) [
    | none ↦ none
    | some s' ↦ take_options rest s'
  ]

  -- With the test behind the loop; `none` is `exit(1)`.
  unfoldable pub parse_options : List Given → Option Settings
  parse_options given = elim (take_options given defaults) [
    | none ↦ none
    | some s ↦ if eq_int s.neccessary 0 then some s else none
  ]
