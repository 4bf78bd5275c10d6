-- ===== src/Device/Life.antt =====
-- Device::Device and Device::~Device: the socket and the flags of the network device, from the first call
-- to the last.
use gateway_socket.Base.{
  ℕ, ◌≡◌, ◌≢◌, ◌<◌, refl, ap, ◌∙◌, ltb, ◌==◌, true, not, Bool-cases, inl, inr, Option, none, some,
  Option-cases, List, [], ◌∷◌, ◌++◌, take, filter, arith,
}
use gateway_socket.Gateway.Buffer.{Known}
use gateway_socket.Gateway.Tables.{my_mtu}
use gateway_socket.Device.{
  Call, open_socket, get_flags, set_flags, set_mtu, get_mtu, get_index, bind_device, close_socket,
  Device, Opened, attempt, open_device, close_device, configure, raw_flags, if_name_size,
}

-- The constructor's calls, and the destructor's if there is a device.
abbrev pub life : Opened → List Call
life o = o.calls ++ elim o.device [ none ↦ [] | some d ↦ close_device d ]

module _ (kernel : Call → Option ℕ) where
  -- The sockets that the calls leave open.
  abbrev pub left_open : List Call → List ℕ → List ℕ
  left_open [] held = held
  left_open (open_socket ∷ calls) held =
      left_open calls (elim (kernel open_socket) [ none ↦ held | some sock ↦ sock ∷ held ])
  left_open (get_flags name ∷ calls) held = left_open calls held
  left_open (set_flags name flags ∷ calls) held = left_open calls held
  left_open (set_mtu name mtu ∷ calls) held = left_open calls held
  left_open (get_mtu name ∷ calls) held = left_open calls held
  left_open (get_index name ∷ calls) held = left_open calls held
  left_open (bind_device sock index ∷ calls) held = left_open calls held
  left_open (close_socket sock ∷ calls) held = left_open calls (filter (λ s. not (s == sock)) held)

  -- The flags of the network device after the calls.
  abbrev pub flags_after : List Call → ℕ → ℕ
  flags_after [] flags = flags
  flags_after (open_socket ∷ calls) flags = flags_after calls flags
  flags_after (get_flags name ∷ calls) flags = flags_after calls flags
  flags_after (set_flags name to ∷ calls) flags =
      flags_after calls (elim (kernel (set_flags name to)) [ none ↦ flags | some done ↦ to ])
  flags_after (set_mtu name mtu ∷ calls) flags = flags_after calls flags
  flags_after (get_mtu name ∷ calls) flags = flags_after calls flags
  flags_after (get_index name ∷ calls) flags = flags_after calls flags
  flags_after (bind_device sock index ∷ calls) flags = flags_after calls flags
  flags_after (close_socket sock ∷ calls) flags = flags_after calls flags

  -- With one open socket and the flags `now`: what follows closes the socket; with a device the flags
  -- end as `before`, and else as `failed`.
  record Ends (sock now before failed : ℕ) (o : Opened) : Type 0 where
    closes : left_open (life o) (sock ∷ []) ≡ []
    restores : (d : Device) → o.device ≡ some d → flags_after (life o) now ≡ before
    fails : o.device ≡ none → flags_after (life o) now ≡ failed

  closed : (sock : ℕ) → left_open (close_socket sock ∷ []) (sock ∷ []) ≡ []
  unfolding filter
  closed sock = ground arith

  -- A call that neither opens, closes nor sets flags.
  attempt-Ends :
      (sock now before : ℕ) (call : Call) (next : ℕ → Opened)
      → ((calls : List Call) (held : List ℕ) → left_open (call ∷ calls) held ≡ left_open calls held)
      → ((calls : List Call) (f : ℕ) → flags_after (call ∷ calls) f ≡ flags_after calls f)
      → ((value : ℕ) → Ends sock now before now (next value))
      → Ends sock now before now (attempt kernel (close_socket sock ∷ []) call next)
  attempt-Ends sock now before call next same_held same_flags later =
      elim (Option-cases (kernel call)) [
        | inl e ↦
            rw (attempt, e)
              (record {
                closes = same_held (close_socket sock ∷ []) (sock ∷ []) ∙ closed sock;
                restores = λ d h. ground arith;
                fails = λ h. same_flags (close_socket sock ∷ []) now;
              })
        | inr (value, e) ↦
            rw (attempt, e)
              (record {
                closes = same_held (life (next value)) (sock ∷ []) ∙ (later value).closes;
                restores = λ d h. same_flags (life (next value)) now ∙ (later value).restores d h;
                fails = λ h. same_flags (life (next value)) now ∙ (later value).fails h;
              })
      ]

  -- The flags that a failed constructor leaves.
  abbrev pub failed_flags : List ℕ → ℕ → ℕ
  failed_flags name flags = elim (kernel open_socket) [
    | none ↦ flags
    | some sock ↦ elim (kernel (set_flags name raw_flags)) [ none ↦ flags | some done ↦ raw_flags ]
  ]

  module _ (name : List ℕ) (flags : ℕ) (restorable : Known (kernel (set_flags name flags))) where
    abbrev device_of : ℕ → ℕ → Device
    device_of sock index = record {
      sock = sock;
      dev_id = index;
      prev_flag = flags;
      dev_name = name;
    }

    bound :
        (sock now index : ℕ)
        → 0 < sock
        → Ends sock now flags now (record { calls = []; device = some (device_of sock index) })
    unfolding close_device
    bound sock now index positive =
        let opened : ltb 0 sock ≡ true = ground arith in
        record {
          closes = rw (close_device, opened) (closed sock);
          restores = λ d h. rw (close_device, opened, restorable.1) refl;
          fails = λ h. ground arith;
        }

    configure-Ends :
        (sock now : ℕ) → 0 < sock → Ends sock now flags now (configure kernel sock flags name)
    unfolding configure
    configure-Ends sock now positive =
        attempt-Ends sock now flags (set_mtu name my_mtu) _ (λ cs h. refl) (λ cs f. refl)
          λ _.
            attempt-Ends sock now flags (get_mtu name) _ (λ cs h. refl) (λ cs f. refl)
              λ _.
                attempt-Ends sock now flags (get_index name) _ (λ cs h. refl) (λ cs f. refl)
                  λ index.
                    attempt-Ends sock now flags (bind_device sock index) _ (λ cs h. refl)
                      (λ cs f. refl) λ _. bound sock now index positive

    set_flags-Ends :
        (sock : ℕ)
        → 0 < sock
        → Ends sock flags flags
            (elim (kernel (set_flags name raw_flags)) [ none ↦ flags | some done ↦ raw_flags ])
            (attempt kernel
              (close_socket sock ∷ [])
              (set_flags name raw_flags)
              λ _. configure kernel sock flags name)
    set_flags-Ends sock positive = elim (Option-cases (kernel (set_flags name raw_flags))) [
      | inl e ↦
          rw (attempt, e)
            (record {
              closes = closed sock;
              restores = λ d h. ground arith;
              fails = λ h. rw e refl;
            })
      | inr (value, e) ↦
          let rest = configure-Ends sock raw_flags positive in
          rw (attempt, e)
            (record {
              closes = rest.closes;
              restores = λ d h. rw (flags_after, e) (rest.restores d h);
              fails = λ h. rw (flags_after, e) (rest.fails h);
            })
    ]

  positive_socket : (sock : ℕ) → sock ≢ 0 → 0 < sock
  positive_socket sock h = elim (Bool-cases (ltb 0 sock)) [
    | inl e ↦ ground arith
    | inr e ↦ absurd (h (ground arith))
  ]

  -- If the kernel tells the flags of the device and can set them again, and the socket is not 0, the
  -- constructor's calls and, if it gives a device, the destructor's leave no socket open. With a device
  -- the flags end as they were before; without one they end as `raw_flags` if the constructor got as far
  -- as to set them, and else as they were.
  pub open_device-life :
      (dev_name : List ℕ) (flags : ℕ)
      → kernel (get_flags (take if_name_size dev_name)) ≡ some flags
      → Known (kernel (set_flags (take if_name_size dev_name) flags))
      → kernel open_socket ≢ some 0
      → let o = open_device kernel dev_name in
        (left_open (life o) [] ≡ [])
        × ((d : Device) → o.device ≡ some d → flags_after (life o) flags ≡ flags)
        × (o.device ≡ none
            → flags_after (life o) flags ≡ failed_flags (take if_name_size dev_name) flags)
  unfolding open_device
  open_device-life dev_name flags known restorable nonzero =
      elim (Option-cases (kernel open_socket)) [
        | inl e ↦
            rw (open_device, attempt, e)
              (rw (left_open, e) refl, λ d h. ground arith, λ h. rw (failed_flags, e) refl)
        | inr (sock, e) ↦
            let positive : 0 < sock = positive_socket sock (λ z. nonzero (e ∙ ap some z)) in
            let rest = set_flags-Ends (take if_name_size dev_name) flags restorable sock positive in
            rw (open_device, attempt, e, known)
              (
                rw (left_open, e) rest.closes,
                rest.restores,
                λ h. rw (failed_flags, e) (rest.fails h),
              )
      ]
