-- ===== src/Startup/Options/Accepted.antt =====
-- The options of the command line: which ones are accepted, and what the program keeps of them.
use gateway_socket.Base.{
  ℕ, ◌+◌, ◌≡◌, ◌≢◌, refl, sym, ap, ◌∙◌, ◌⊎◌, inl, inr, Bool-cases, ◌==◌, true, false, ℤ, eq_int,
  none, some, List, [], ◌∷◌, ◌++◌, append_assoc, append-nil, length, length-append, arith,
}
use gateway_socket.Database.{push_back}
use gateway_socket.Database.Create.{Text}
use gateway_socket.Startup.Options.{
  Given, gateway, subnet, dns, inside, outside, db_user, db_pass, daemon, timeout, db_name, unknown,
  Settings, defaults, take_option, take_options, parse_options,
}
use gateway_socket.Startup.Options.Counted.{
  singles, server_of, servers, device_of, outer_of, last_inside, last_outside, user_of, pass_of,
  last_user, last_pass, is_known, minus, weight, addresses, total, more, minus-add, weights,
  length-addresses, addresses-append, minus-pos,
}

module _ (inet_addr : Text → ℕ) (atoi : Text → ℤ) where
  record Step (given : Given) (s t : Settings) : Type 0 where
    counter : t.neccessary ≡ minus (weight (length s.dns_list) given) s.neccessary
    servers_kept : t.dns_list ≡ s.dns_list ++ addresses inet_addr (server_of given)
    inner : t.in_dev ≡ device_of given s.in_dev
    outer : t.out_dev ≡ outer_of given s.out_dev
    user : t.db_user ≡ user_of given s.db_user
    pass : t.db_pass ≡ pass_of given s.db_pass

  -- An option other than --dns.
  plain :
      (given : Given) (s t : Settings)
      → t.neccessary ≡ minus (weight (length s.dns_list) given) s.neccessary
      → t.dns_list ≡ s.dns_list
      → server_of given ≡ []
      → t.in_dev ≡ device_of given s.in_dev
      → t.out_dev ≡ outer_of given s.out_dev
      → t.db_user ≡ user_of given s.db_user
      → t.db_pass ≡ pass_of given s.db_pass
      → Step given s t
  plain given s t c d e i o u p = record {
    counter = c;
    servers_kept = d ∙ rw e (sym (append-nil s.dns_list));
    inner = i;
    outer = o;
    user = u;
    pass = p;
  }

  take_option-Step :
      (given : Given) (rest : List Given) (s : Settings)
      → is_known (given ∷ rest) ≡ true
      → (t : Settings) × (take_option inet_addr atoi given s ≡ some t)
        × Step given s t
        × (is_known rest ≡ true)
  unfolding take_option push_back
  take_option-Step (gateway arg) rest s k =
      (_, refl, plain (gateway arg) s _ refl refl refl refl refl refl refl, k)
  take_option-Step (subnet arg) rest s k =
      (_, refl, plain (subnet arg) s _ refl refl refl refl refl refl refl, k)
  take_option-Step (inside arg) rest s k =
      (_, refl, plain (inside arg) s _ refl refl refl refl refl refl refl, k)
  take_option-Step (outside arg) rest s k =
      (_, refl, plain (outside arg) s _ refl refl refl refl refl refl refl, k)
  take_option-Step (db_user arg) rest s k =
      (_, refl, plain (db_user arg) s _ refl refl refl refl refl refl refl, k)
  take_option-Step (db_pass arg) rest s k =
      (_, refl, plain (db_pass arg) s _ refl refl refl refl refl refl refl, k)
  take_option-Step daemon rest s k =
      (_, refl, plain daemon s _ refl refl refl refl refl refl refl, k)
  take_option-Step (timeout arg) rest s k =
      (_, refl, plain (timeout arg) s _ refl refl refl refl refl refl refl, k)
  take_option-Step (db_name arg) rest s k =
      (_, refl, plain (db_name arg) s _ refl refl refl refl refl refl refl, k)
  take_option-Step (dns arg) rest s k = elim (Bool-cases (length s.dns_list == 0)) [
    | inl e ↦ (
      _,
      refl,
      record {
        counter = ground arith;
        servers_kept = refl;
        inner = ground arith;
        outer = ground arith;
        user = ground arith;
        pass = ground arith;
      },
      k,
    )
    | inr e ↦ (
      _,
      refl,
      record {
        counter = ground arith;
        servers_kept = refl;
        inner = ground arith;
        outer = ground arith;
        user = ground arith;
        pass = ground arith;
      },
      k,
    )
  ]
  take_option-Step unknown rest s k = ground arith

  -- The whole list of options, from the settings `s` to `t`.
  record Taken (given : List Given) (s t : Settings) : Type 0 where
    counter :
        t.neccessary ≡ minus (singles given + more (length s.dns_list) (servers given)) s.neccessary
    servers_kept : t.dns_list ≡ s.dns_list ++ addresses inet_addr (servers given)
    inner : t.in_dev ≡ last_inside given s.in_dev
    outer : t.out_dev ≡ last_outside given s.out_dev
    user : t.db_user ≡ last_user given s.db_user
    pass : t.db_pass ≡ last_pass given s.db_pass

  weight-more :
      (given : Given) (rest : List Given) (s t : Settings)
      → Step given s t
      → weight (length s.dns_list) given + (singles rest + more (length t.dns_list) (servers rest))
        ≡ singles (given ∷ rest) + more (length s.dns_list) (servers (given ∷ rest))
  weight-more given rest s t step =
      let seen : length t.dns_list ≡ length s.dns_list + length (server_of given) =
        ap length step.servers_kept
        ∙ length-append s.dns_list (addresses inet_addr (server_of given))
        ∙ ap (λ n. length s.dns_list + n) (length-addresses inet_addr (server_of given)) in
      rw seen (weights given (singles rest) (length s.dns_list) (servers rest))

  take_options-Taken :
      (given : List Given) (s : Settings)
      → is_known given ≡ true
      → (t : Settings) × (take_options inet_addr atoi given s ≡ some t) × Taken given s t
  unfolding take_options
  take_options-Taken [] s k =
      let nothing : 0 ≡ singles [] + more (length s.dns_list) (servers []) = ground arith in
      (
        s,
        refl,
        record {
          counter = ap (λ n. minus n s.neccessary) nothing;
          servers_kept = sym (append-nil s.dns_list);
          inner = refl;
          outer = refl;
          user = refl;
          pass = refl;
        },
      )
  take_options-Taken (given ∷ rest) s k =
      let (s', e, step, k') = take_option-Step given rest s k in
      let (t, e', taken) = take_options-Taken rest s' k' in
      (
        t,
        rw (take_options, e) e',
        record {
          counter =
              taken.counter
              ∙ ap (minus (singles rest + more (length s'.dns_list) (servers rest))) step.counter
              ∙ sym (
                  minus-add (weight (length s.dns_list) given)
                    (singles rest + more (length s'.dns_list) (servers rest)) s.neccessary)
              ∙ ap (λ n. minus n s.neccessary) (weight-more given rest s s' step);
          servers_kept =
              taken.servers_kept
              ∙ ap (λ xs. xs ++ addresses inet_addr (servers rest)) step.servers_kept
              ∙ append_assoc s.dns_list (addresses inet_addr (server_of given))
                  (addresses inet_addr (servers rest))
              ∙ ap (λ xs. s.dns_list ++ xs)
                  (sym (addresses-append inet_addr (server_of given) (servers rest)));
          inner = taken.inner ∙ ap (last_inside rest) step.inner;
          outer = taken.outer ∙ ap (last_outside rest) step.outer;
          user = taken.user ∙ ap (last_user rest) step.user;
          pass = taken.pass ∙ ap (last_pass rest) step.pass;
        },
      )

  take_options-unknown :
      (given : List Given) (s : Settings)
      → is_known given ≡ false
      → take_options inet_addr atoi given s ≡ none
  unfolding take_options take_option
  take_options-unknown [] s k = ground arith
  take_options-unknown (gateway arg ∷ rest) s k = take_options-unknown rest _ k
  take_options-unknown (subnet arg ∷ rest) s k = take_options-unknown rest _ k
  take_options-unknown (dns arg ∷ rest) s k = take_options-unknown rest _ k
  take_options-unknown (inside arg ∷ rest) s k = take_options-unknown rest _ k
  take_options-unknown (outside arg ∷ rest) s k = take_options-unknown rest _ k
  take_options-unknown (db_user arg ∷ rest) s k = take_options-unknown rest _ k
  take_options-unknown (db_pass arg ∷ rest) s k = take_options-unknown rest _ k
  take_options-unknown (timeout arg ∷ rest) s k = take_options-unknown rest _ k
  take_options-unknown (db_name arg ∷ rest) s k = take_options-unknown rest _ k
  take_options-unknown (daemon ∷ rest) s k = take_options-unknown rest _ k
  take_options-unknown (unknown ∷ rest) s k = refl

  -- The options are refused if and only if one of them is not known or the number of those that must
  -- be there, with --dns counted once and the six others as often as they are given, is not seven. If
  -- they are accepted, the name servers are all the arguments of --dns in order, and the devices, the
  -- database's user and its password are those of the last such option, if there is one; a name or
  -- password that is not shorter than its array leaves `none`, an array without a terminator.
  pub parse_options-total :
      (given : List Given)
      → ((parse_options inet_addr atoi given ≡ none)
          × ((is_known given ≡ false) ⊎ (total given ≢ 7)))
        ⊎ ((t : Settings) × (parse_options inet_addr atoi given ≡ some t)
            × (is_known given ≡ true)
            × (total given ≡ 7)
            × (t.dns_list ≡ addresses inet_addr (servers given))
            × (t.in_dev ≡ last_inside given none)
            × (t.out_dev ≡ last_outside given none)
            × (t.db_user ≡ last_user given none)
            × (t.db_pass ≡ last_pass given none))
  unfolding parse_options
  parse_options-total given = elim (Bool-cases (is_known given)) [
    | inr e ↦ inl (rw (parse_options, take_options-unknown given defaults e) refl, inl e)
    | inl k ↦
        let (t, e, taken) = take_options-Taken given defaults k in
        let counted : eq_int t.neccessary 0 ≡ (total given == 7) =
          ap (λ z. eq_int z 0) taken.counter ∙ minus-pos (total given) 7 in
        elim (Bool-cases (total given == 7)) [
          | inr fewer ↦ inl (rw (parse_options, e, counted, fewer) refl, inr (ground arith))
          | inl all ↦ inr (
            t,
            rw (parse_options, e, counted, all) refl,
            k,
            ground arith,
            taken.servers_kept,
            taken.inner,
            taken.outer,
            taken.user,
            taken.pass,
          )
        ]
  ]
