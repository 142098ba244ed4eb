-- ===== src/EventOut/Descriptor.antt =====
-- The descriptor of the uinput device is neither leaked nor closed when it is not open.
use bdremote_ng.Prelude.{
  ℕ, ◌+◌, ℤ, ◌≡◌, ◌≢◌, ap, refl, false, List, [], ◌∷◌, arith, minus_one, eq_ℤ, eq_ℤ_iff, pos,
  Bool-cases, inl, inr, take,
}
use bdremote_ng.Text.{CString}
use bdremote_ng.Sys.{
  Trace, Env, open_device, perform, write_device, set_key_events, create_device, set_key_bit,
}
use bdremote_ng.Sys.Descriptors.{one_if, opened, closed}
use bdremote_ng.Keys.{KeyInfo, keys, num_keys}
use bdremote_ng.EventOut.{
  Device, event_out_send, event_out_destroy, event_out_init, open_first, give_up, enable_keys,
  set_up, device_names, send_all, device_session,
}

abbrev pub holds : ℤ → ℤ → ℕ
holds fd g = one_if (eq_ℤ g fd)

-- From the trace `t` with `h` descriptors `fd` in hand to the device `d`: what was opened meanwhile
-- is closed or held by the device.
abbrev pub IsBalanced : ℤ → ℕ → Trace → Device → Type 0
IsBalanced fd h t d =
    opened fd d.trace + closed fd t + h ≡ opened fd t + closed fd d.trace + holds fd d.event_out_fd

module _ (env : Env) (fd : ℤ) (real : fd ≢ minus_one) where
  not_minus_one : eq_ℤ minus_one fd ≡ false
  not_minus_one = ground (arith, eq_ℤ_iff minus_one fd)

  open_first-IsBalanced :
      (names : List CString) (t : Trace) → IsBalanced fd 0 t (open_first env names t)
  unfolding open_first
  open_first-IsBalanced [] t = ground (arith, not_minus_one)
  open_first-IsBalanced (name ∷ names) t =
      let fd' = env.answer t (open_device name) in
      let t' : Trace = (perform env (open_device name) t).1 in
      elim (Bool-cases (eq_ℤ fd' minus_one)) [
        | inl failed ↦
            let same : fd' ≡ minus_one = (eq_ℤ_iff fd' minus_one).0 failed in
            let other : eq_ℤ fd' fd ≡ false = rw same not_minus_one in
            simp failed (omega (arith, open_first-IsBalanced names t', ap one_if other))
        | inr opened ↦ simp opened (omega arith)
      ]

  give_up-IsBalanced : (g : ℤ) (t : Trace) → IsBalanced fd (holds fd g) t (give_up env g t)
  unfolding give_up
  give_up-IsBalanced g t = omega (arith, ap one_if not_minus_one)

  enable_keys-IsBalanced :
      (g : ℤ) (ks : List KeyInfo) (t : Trace)
      → IsBalanced fd (holds fd g) t (enable_keys env g ks t)
  unfolding enable_keys
  enable_keys-IsBalanced g [] t =
      let t' : Trace = (perform env (create_device g) t).1 in
      elim (Bool-cases (eq_ℤ (env.answer t (create_device g)) (pos 0))) [
        | inl good ↦ simp good (omega arith)
        | inr bad ↦ simp bad (omega (arith, give_up-IsBalanced g t'))
      ]
  enable_keys-IsBalanced g (k ∷ ks) t =
      let t' : Trace = (perform env (set_key_bit g k.event_code) t).1 in
      elim (Bool-cases (eq_ℤ (env.answer t (set_key_bit g k.event_code)) (pos 0))) [
        | inl good ↦ simp good (omega (arith, enable_keys-IsBalanced g ks t'))
        | inr bad ↦ simp bad (omega (arith, give_up-IsBalanced g t'))
      ]

  set_up-IsBalanced :
      (size : ℕ) (g : ℤ) (t : Trace) → IsBalanced fd (holds fd g) t (set_up env size g t)
  unfolding set_up
  set_up-IsBalanced size g t =
      let t1 : Trace = (perform env (write_device g) t).1 in
      let t2 : Trace = (perform env (set_key_events g) t1).1 in
      elim (Bool-cases (eq_ℤ (env.answer t (write_device g)) (pos size))) [
        | inl good ↦ elim (Bool-cases (eq_ℤ (env.answer t1 (set_key_events g)) (pos 0))) [
          | inl fine ↦
              simp (good, fine) (omega (arith, enable_keys-IsBalanced g (take num_keys keys) t2))
          | inr bad ↦ simp (good, bad) (omega (arith, give_up-IsBalanced g t2))
        ]
        | inr bad ↦ simp bad (omega (arith, give_up-IsBalanced g t1))
      ]

  pub init-IsBalanced : (size : ℕ) (t : Trace) → IsBalanced fd 0 t (event_out_init env size t)
  unfolding event_out_init
  init-IsBalanced size t =
      let d = open_first env device_names t in
      elim (Bool-cases (eq_ℤ d.event_out_fd minus_one)) [
        | inl none_open ↦ simp none_open (open_first-IsBalanced device_names t)
        | inr open_now ↦ simp open_now (
            omega (
              arith,
              open_first-IsBalanced device_names t,
              set_up-IsBalanced size d.event_out_fd d.trace,
            ))
      ]

  send-IsBalanced :
      (code value : ℕ) (d : Device)
      → IsBalanced fd (holds fd d.event_out_fd) d.trace (event_out_send env code value d)
  unfolding event_out_send
  send-IsBalanced code value d = elim (Bool-cases (eq_ℤ d.event_out_fd minus_one)) [
    | inl none_open ↦ simp none_open (omega arith)
    | inr open_now ↦ simp open_now (omega arith)
  ]

  pub destroy-IsBalanced :
      (d : Device) → IsBalanced fd (holds fd d.event_out_fd) d.trace (event_out_destroy env d)
  unfolding event_out_destroy
  destroy-IsBalanced d = elim (Bool-cases (eq_ℤ d.event_out_fd minus_one)) [
    | inl none_open ↦ simp none_open (omega arith)
    | inr open_now ↦ simp open_now (omega (arith, ap one_if not_minus_one))
  ]

module _ (env : Env) (fd : ℤ) (real : fd ≢ minus_one) where
  send_all-IsBalanced :
      (events : List (ℕ × ℕ)) (d : Device)
      → IsBalanced fd (holds fd d.event_out_fd) d.trace (send_all env events d)
  unfolding send_all
  send_all-IsBalanced [] d = omega arith
  send_all-IsBalanced (e ∷ events) d =
      let d' : Device = event_out_send env e.0 e.1 d in
      omega (arith, send-IsBalanced env fd real e.0 e.1 d, send_all-IsBalanced events d')

pub event_out_destroy-gone :
    (env : Env) (d : Device) → (event_out_destroy env d).event_out_fd ≡ minus_one
unfolding event_out_destroy
event_out_destroy-gone env d = elim (Bool-cases (eq_ℤ d.event_out_fd minus_one)) [
  | inl none_open ↦ simp none_open ((eq_ℤ_iff d.event_out_fd minus_one).0 none_open)
  | inr open_now ↦ simp open_now refl
]

-- Over the life of the daemon (event_out_init, any events, event_out_destroy), whatever the calls
-- answer, every descriptor other than -1 that the device functions opened they have closed as
-- often, and none is left in event_out_fd.
device_session-closes :
    (env : Env) (size : ℕ) (events : List (ℕ × ℕ)) (t : Trace) (fd : ℤ)
    → fd ≢ minus_one
    → let d = device_session env size events t in
      (d.event_out_fd ≡ minus_one)
      × (opened fd d.trace + closed fd t ≡ opened fd t + closed fd d.trace)
unfolding device_session
device_session-closes env size events t fd real =
    let d1 = event_out_init env size t in
    let d2 = send_all env events d1 in
    (
      event_out_destroy-gone env d2,
      omega (
        arith,
        init-IsBalanced env fd real size t,
        send_all-IsBalanced env fd real events d1,
        destroy-IsBalanced env fd real d2,
        ap one_if (not_minus_one env fd real),
        ap (λ g. holds fd g) (event_out_destroy-gone env d2),
      ),
    )
