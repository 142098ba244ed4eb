-- ===== src/Capture/Bluetooth/Descriptors.antt =====
-- src/capture/capture_bluez.c: what the parts of the set-up of Bluetooth open and close.
use bdremote_ng.Prelude.{
  ℕ, ℤ, pos, negsuc, eq_ℤ, ltb_ℤ, true, false, List, [], ◌∷◌, ◌≡◌, refl, arith, inl, inr,
  Bool-cases, ◌&&◌, if◌then◌else◌,
}
use bdremote_ng.Sys.{
  Env, Trace, perform, listen, hidp_socket, l2cap_socket, bind_l2cap, set_link_mode,
  set_l2cap_options, get_device_info,
}
use bdremote_ng.Sys.Descriptors.{one_if, IsBalanced}
use bdremote_ng.Capture.{CaptureData}
use bdremote_ng.Capture.Server.{same_bytes}
use bdremote_ng.Capture.Bluetooth.{
  Address, any_address, Adapter, psm_control, psm_interrupt, bind_and_listen, l2cap_listen, examine,
  find_device, open_sockets,
}

-- the descriptor that a call gave, if it gave one
abbrev pub if_open : ℤ → List ℤ
if_open r = if ltb_ℤ r (pos 0) then [] else r ∷ []

-- A negative result is no descriptor.
negative : (r : ℤ) (n : ℕ) → ltb_ℤ r (pos 0) ≡ true → one_if (eq_ℤ r (pos n)) ≡ 0
negative (pos k) n h = ground arith
negative (negsuc k) n h = refl

module _ (env : Env) (n : ℕ) where
  bind_and_listen-IsBalanced :
      (address : Address) (psm : ℕ) (sk : ℤ) (t : Trace)
      → ltb_ℤ sk (pos 0) ≡ false
      → let (r, t') = bind_and_listen env address psm sk t in
        IsBalanced (pos n) (sk ∷ []) t (if_open r) t'
  unfolding bind_and_listen
  bind_and_listen-IsBalanced address psm sk t real =
      let (bound, t1) = perform env (bind_l2cap sk address psm) t in
      let (m, t2) = perform env (set_link_mode sk) t1 in
      let (o, t3) = perform env (set_l2cap_options sk) t2 in
      let (listening, t4) = perform env (listen sk) t3 in
      elim (Bool-cases (ltb_ℤ bound (pos 0))) [
        | inl taken ↦ simp taken (omega arith)
        | inr free ↦ elim (Bool-cases (ltb_ℤ listening (pos 0))) [
          | inl deaf ↦ simp (free, deaf) (omega arith)
          | inr listens ↦ simp (free, listens, real) (omega arith)
        ]
      ]

  l2cap_listen-IsBalanced :
      (address : Address) (psm : ℕ) (t : Trace)
      → let (r, t') = l2cap_listen env address psm t in IsBalanced (pos n) [] t (if_open r) t'
  unfolding l2cap_listen
  l2cap_listen-IsBalanced address psm t =
      let (sk, t1) = perform env l2cap_socket t in
      elim (Bool-cases (ltb_ℤ sk (pos 0))) [
        | inl failed ↦ simp failed (omega (arith, negative sk n failed))
        | inr made ↦ simp made (omega (arith, bind_and_listen-IsBalanced address psm sk t1 made))
      ]

  examine-IsBalanced : (a : Adapter) (t : Trace) → IsBalanced (pos n) [] t [] (examine env a t).1
  unfolding examine
  examine-IsBalanced a t = elim (Bool-cases (a.is_raw && same_bytes a.address any_address)) [
    | inl raw ↦ simp raw (omega arith)
    | inr known ↦ simp known
  ]

  pub find_device-IsBalanced :
      (ctl : ℤ) (wanted : Address) (adapters : List Adapter) (t : Trace)
      → IsBalanced (pos n) [] t [] (find_device env ctl wanted adapters t).1
  unfolding find_device
  find_device-IsBalanced ctl wanted [] t = refl
  find_device-IsBalanced ctl wanted (a ∷ others) t =
      let (r, t1) = perform env (get_device_info ctl a.dev_id) t in
      let (address, t2) = examine env a t1 in
      let asked = examine-IsBalanced a t1 in
      elim (Bool-cases (ltb_ℤ r (pos 0))) [
        | inl failed ↦ simp failed (omega (arith, find_device-IsBalanced ctl wanted others t1))
        | inr known ↦ elim (Bool-cases (same_bytes address wanted)) [
          | inl same ↦ simp (known, same) (omega (arith, asked))
          | inr other ↦
              simp (known, other)
                (omega (arith, asked, find_device-IsBalanced ctl wanted others t2))
        ]
      ]

  pub open_sockets-IsBalanced :
      (address : Address) (cd : CaptureData) (t : Trace)
      → let (r, cd', t') = open_sockets env address cd t in
        IsBalanced (pos n) [] t (if eq_ℤ r (pos 0) then cd'.sockets else []) t'
  unfolding open_sockets
  open_sockets-IsBalanced address cd t =
      let (ctl, t1) = perform env hidp_socket t in
      let (csk, t2) = l2cap_listen env address psm_control t1 in
      let (isk, t3) = l2cap_listen env address psm_interrupt t2 in
      let control = l2cap_listen-IsBalanced address psm_control t1 in
      let interrupt = l2cap_listen-IsBalanced address psm_interrupt t2 in
      elim (Bool-cases (ltb_ℤ ctl (pos 0))) [
        | inl failed ↦ simp failed (omega (arith, negative ctl n failed))
        | inr made ↦ elim (Bool-cases (ltb_ℤ csk (pos 0))) [
          | inl failed ↦ simp (made, failed) (omega (arith, simp failed at control))
          | inr heard ↦ elim (Bool-cases (ltb_ℤ isk (pos 0))) [
            | inl failed ↦
                simp (made, heard, failed)
                  (omega (arith, simp heard at control, simp failed at interrupt))
            | inr both ↦
                simp (made, heard, both)
                  (omega (arith, simp heard at control, simp both at interrupt))
          ]
        ]
      ]
