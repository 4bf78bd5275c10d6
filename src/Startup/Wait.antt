-- ===== src/Startup/Wait.antt =====
-- gateway-socket/main.cpp: the wait for the database server. What `fopen` and `fscanf` find in the try
-- with a number is a parameter.
use gateway_socket.Base.{
  ℕ, zero, suc, ◌+◌, ◌<◌, ◌≡◌, refl, sym, subst, ◌⊎◌, inl, inr, Bool, true, false, ltb, ◌==◌,
  Bool-cases, if◌then◌else◌, Option, none, some, ℤ, pos, leb_int, arith,
}

-- MYSQL_RETRY_COUNT, and MYSQL_FINAL_WAIT in seconds
abbrev pub mysql_retry_count : ℕ
mysql_retry_count = 30

abbrev pub mysql_final_wait : ℕ
mysql_final_wait = 5

-- The file could not be opened, or `fscanf` read `count` numbers, and `pid`.
pub data Probe : Type 0 where
  no_file : Probe
  scanned : (count : ℕ) → (pid : ℤ) → Probe

-- How often the file was opened and closed, the seconds slept, and `fail` behind the loop.
pub record Waited : Type 0 where
  pub opened : ℕ
  pub closed : ℕ
  pub slept : ℕ
  pub fail : ℕ

abbrev pub is_running : Probe → Bool
is_running no_file = false
is_running (scanned count pid) = if count == 1 then leb_int (pos 1) pid else false

abbrev pub files : Probe → ℕ
files no_file = 0
files (scanned count pid) = 1

-- The loop with `left` tries to go: `break` if the server is found.
unfoldable pub wait_loop : (ℕ → Probe) → ℕ → Waited → Waited
wait_loop probe zero w = w
wait_loop probe (suc left) w =
    let found = record w {
      opened = w.opened + files (probe w.fail);
      closed = w.closed + files (probe w.fail);
    } in
    let rest = wait_loop probe left (record found { slept = w.slept + 1; fail = suc w.fail }) in
    if is_running (probe w.fail) then found else rest

-- The whole block: the seconds slept in the end, or `none` for `exit(1)`.
unfoldable pub wait_mysql : (ℕ → Probe) → Waited × Option ℕ
wait_mysql probe =
    let w =
      wait_loop probe mysql_retry_count (record { opened = 0; closed = 0; slept = 0; fail = 0 }) in
    (w, if ltb w.fail mysql_retry_count then some (w.slept + mysql_final_wait) else none)

module _ (probe : ℕ → Probe) where
  -- No try from the first one on found the server, up to the one with a number.
  abbrev pub NoneBefore : ℕ → Type 0
  NoneBefore k = (i : ℕ) → i < k → is_running (probe i) ≡ false

  one_more : (k : ℕ) → is_running (probe k) ≡ false → NoneBefore k → NoneBefore (suc k)
  one_more k e h i lt = elim (Bool-cases (i == k)) [
    | inl same ↦
        let i_k : i ≡ k = ground arith in subst (λ j. is_running (probe j) ≡ false) (sym i_k) e
    | inr other ↦ let before : i < k = ground arith in h i before
  ]

  record Waits (left : ℕ) (from w : Waited) : Type 0 where
    files_closed : from.closed ≡ from.opened → w.closed ≡ w.opened
    seconds : from.slept ≡ from.fail → w.slept ≡ w.fail
    ends :
        NoneBefore from.fail
        → NoneBefore w.fail
          × ((w.fail ≡ left + from.fail)
              ⊎ ((w.fail < left + from.fail) × (is_running (probe w.fail) ≡ true)))

  wait_loop-Waits : (left : ℕ) (w : Waited) → Waits left w (wait_loop probe left w)
  unfolding wait_loop
  wait_loop-Waits zero w = record {
    files_closed = λ h. h;
    seconds = λ h. h;
    ends = λ h. (h, inl (omega arith));
  }
  wait_loop-Waits (suc left) w = elim (Bool-cases (is_running (probe w.fail))) [
    | inl e ↦
        rw (wait_loop, e)
          (record {
            files_closed = λ h. omega (arith, h);
            seconds = λ h. h;
            ends = λ h. (h, inr (omega arith, e));
          })
    | inr e ↦
        let n = files (probe w.fail) in
        let rest = wait_loop-Waits left (record w {
          opened = w.opened + n;
          closed = w.closed + n;
          slept = w.slept + 1;
          fail = suc w.fail;
        }) in
        rw (wait_loop, e)
          (record {
            files_closed = λ h. rest.files_closed (omega (arith, h));
            seconds = λ h. rest.seconds (omega (arith, h));
            ends = λ h.
                let (before, result) = rest.ends (one_more w.fail e h) in
                (
                  before,
                  elim result [
                    | inl all ↦ inl (omega (arith, all))
                    | inr (lt, found) ↦ inr (omega (arith, lt), found)
                  ],
                );
          })
  ]

  -- Every file that is opened is closed. Either none of the thirty tries finds the server, and the program
  -- exits, or it goes on five seconds after the first try that finds it, having slept a second for each
  -- before.
  pub wait_mysql-found :
      let r = wait_mysql probe in
      (r.0.closed ≡ r.0.opened)
      × NoneBefore r.0.fail
      × (((r.1 ≡ none) × (r.0.fail ≡ mysql_retry_count))
          ⊎ ((r.1 ≡ some (r.0.fail + mysql_final_wait))
              × (r.0.fail < mysql_retry_count)
              × (is_running (probe r.0.fail) ≡ true)))
  unfolding wait_mysql
  wait_mysql-found =
      let waited =
        wait_loop-Waits mysql_retry_count
          (record { opened = 0; closed = 0; slept = 0; fail = 0 }) in
      let (before, result) = waited.ends (λ i lt. absurd (omega (arith, lt))) in
      (
        waited.files_closed refl,
        before,
        elim result [
          | inl all ↦ inl (ground (arith, all), omega (arith, all))
          | inr (lt, found) ↦
              inr (ground (arith, lt, waited.seconds refl), omega (arith, lt), found)
        ],
      )
