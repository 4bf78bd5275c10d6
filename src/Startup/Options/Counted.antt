-- ===== src/Startup/Options/Counted.antt =====
-- The options of the command line: how many of the ones that must be there are counted.
use gateway_socket.Base.{
  ℕ, zero, suc, ◌+◌, ◌≡◌, refl, ap, ◌∙◌, ◌==◌, Bool, true, false, if◌then◌else◌, ℤ, pos, negsuc,
  eq_int, Option, List, [], ◌∷◌, ◌++◌, length, arith,
}
use gateway_socket.Database.Create.{Text}
use gateway_socket.Device.{if_name_size}
use gateway_socket.Startup.Options.{
  Given, gateway, subnet, dns, inside, outside, db_user, db_pass, daemon, timeout, db_name, unknown,
  less_one, copied,
}

-- The options that must be there, but for --dns.
abbrev pub is_single : Given → Bool
is_single (gateway arg) = true
is_single (subnet arg) = true
is_single (inside arg) = true
is_single (outside arg) = true
is_single (db_user arg) = true
is_single (db_pass arg) = true
is_single given = false

abbrev pub singles : List Given → ℕ
singles [] = 0
singles (given ∷ rest) = (if is_single given then 1 else 0) + singles rest

abbrev pub server_of : Given → List Text
server_of (dns arg) = arg ∷ []
server_of given = []

-- The arguments of --dns, in order.
abbrev pub servers : List Given → List Text
servers [] = []
servers (given ∷ rest) = server_of given ++ servers rest

abbrev pub device_of : Given → Option Text → Option Text
device_of (inside arg) old = copied if_name_size arg
device_of given old = old

abbrev pub outer_of : Given → Option Text → Option Text
outer_of (outside arg) old = copied if_name_size arg
outer_of given old = old

abbrev pub user_of : Given → Option Text → Option Text
user_of (db_user arg) old = copied 255 arg
user_of given old = old

abbrev pub pass_of : Given → Option Text → Option Text
pass_of (db_pass arg) old = copied 255 arg
pass_of given old = old

-- The last --inside, and the last --outside.
abbrev pub last_inside : List Given → Option Text → Option Text
last_inside [] old = old
last_inside (given ∷ rest) old = last_inside rest (device_of given old)

abbrev pub last_outside : List Given → Option Text → Option Text
last_outside [] old = old
last_outside (given ∷ rest) old = last_outside rest (outer_of given old)

-- The last --db-user, and the last --db-pass.
abbrev pub last_user : List Given → Option Text → Option Text
last_user [] old = old
last_user (given ∷ rest) old = last_user rest (user_of given old)

abbrev pub last_pass : List Given → Option Text → Option Text
last_pass [] old = old
last_pass (given ∷ rest) old = last_pass rest (pass_of given old)

abbrev pub is_known : List Given → Bool
is_known [] = true
is_known (unknown ∷ rest) = false
is_known (given ∷ rest) = is_known rest

abbrev pub minus : ℕ → ℤ → ℤ
minus zero z = z
minus (suc n) z = minus n (less_one z)

-- What an option takes from the counter, with `seen` name servers already there.
abbrev pub weight : ℕ → Given → ℕ
weight seen (dns arg) = if seen == 0 then 1 else 0
weight seen given = if is_single given then 1 else 0

abbrev pub addresses : (Text → ℕ) → List Text → List ℕ
addresses inet_addr [] = []
addresses inet_addr (text ∷ rest) = inet_addr text ∷ addresses inet_addr rest

-- How many of the seven that must be there are counted: each of the six every time, --dns once.
abbrev pub total : List Given → ℕ
total given = singles given + (if length (servers given) == 0 then 0 else 1)

-- What --dns takes from the counter.
abbrev pub more : ℕ → List Text → ℕ
more seen texts = if seen == 0 then (if length texts == 0 then 0 else 1) else 0

pub minus-add : (a b : ℕ) (z : ℤ) → minus (a + b) z ≡ minus b (minus a z)
minus-add zero b z = let same : 0 + b ≡ b = omega arith in ap (λ n. minus n z) same
minus-add (suc a) b z =
    let same : suc a + b ≡ suc (a + b) = omega arith in
    ap (λ n. minus n z) same ∙ minus-add a b (less_one z)

pub weights :
    (given : Given) (n seen : ℕ) (texts : List Text)
    → weight seen given + (n + more (seen + length (server_of given)) texts)
      ≡ (if is_single given then 1 else 0) + n + more seen (server_of given ++ texts)
weights (gateway arg) n seen texts = ground arith
weights (subnet arg) n seen texts = ground arith
weights (dns arg) n seen texts = ground arith
weights (inside arg) n seen texts = ground arith
weights (outside arg) n seen texts = ground arith
weights (db_user arg) n seen texts = ground arith
weights (db_pass arg) n seen texts = ground arith
weights (timeout arg) n seen texts = ground arith
weights (db_name arg) n seen texts = ground arith
weights daemon n seen texts = ground arith
weights unknown n seen texts = ground arith

pub length-addresses :
    (inet_addr : Text → ℕ) (texts : List Text) → length (addresses inet_addr texts) ≡ length texts
length-addresses inet_addr [] = refl
length-addresses inet_addr (text ∷ rest) = ap suc (length-addresses inet_addr rest)

pub addresses-append :
    (inet_addr : Text → ℕ) (xs ys : List Text)
    → addresses inet_addr (xs ++ ys) ≡ addresses inet_addr xs ++ addresses inet_addr ys
addresses-append inet_addr [] ys = refl
addresses-append inet_addr (x ∷ xs) ys =
    ap (λ zs. inet_addr x ∷ zs) (addresses-append inet_addr xs ys)

minus-negsuc : (n m : ℕ) → eq_int (minus n (negsuc m)) 0 ≡ false
minus-negsuc zero m = refl
minus-negsuc (suc n) m = minus-negsuc n (suc m)

pub minus-pos : (n m : ℕ) → eq_int (minus n (pos m)) 0 ≡ (n == m)
minus-pos zero m = ground arith
minus-pos (suc n) zero = minus-negsuc n 0 ∙ ground arith
minus-pos (suc n) (suc m) = minus-pos n m ∙ ground arith
