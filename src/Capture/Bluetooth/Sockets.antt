-- ===== src/Capture/Bluetooth/Sockets.antt =====
-- src/capture/capture_bluez.c: which descriptors the set-up of Bluetooth opens and leaves open.
use bdremote_ng.Prelude.{
  ℕ, ℤ, pos, minus_one, eq_ℤ, ltb_ℤ, true, false, Option, none, some, [], ◌∷◌, ◌≡◌, refl, arith,
  ◌⊎◌, inl, inr, Bool-cases, if◌then◌else◌, Outcome, ok, stop, exited, no_memory, Option-cases,
  ◌>>=◌,
}
use bdremote_ng.Sys.{Env, Trace, perform, control_socket, hidp_socket, get_device_list}
use bdremote_ng.Sys.Descriptors.{IsBalanced, IsBalanced-trans}
use bdremote_ng.Capture.{CaptureData, is_unset}
use bdremote_ng.Capture.Bluetooth.{
  Address, Bluez, psm_control, psm_interrupt, l2cap_listen, look_up, bt_device_exists, open_sockets,
  open_if_found, init_capture_loop, with_address, own_address, first_address, write_text,
}
use bdremote_ng.Capture.Bluetooth.Descriptors.{find_device-IsBalanced, open_sockets-IsBalanced}

-- Why bt_device_exists can return without closing its socket `ctl`: there is no memory for the list
-- of devices, or the kernel does not give it.
abbrev pub NoDeviceList : Bluez → Env → ℤ → Type 0
NoDeviceList bt env ctl =
    (bt.has_memory ≡ false)
    ⊎ ((t : Trace) × (ltb_ℤ (env.answer t (get_device_list ctl)) (pos 0) ≡ true))

-- How bt_device_exists ends, from the trace `t`: with nothing left open, or with its socket.
data LookUp (bt : Bluez) (env : Env) (ctl : ℤ) (t : Trace) : ℤ × Trace → Type 0 where
  answered :
      {r : ℤ} {t' : Trace}
      → ((n : ℕ) → IsBalanced (pos n) (ctl ∷ []) t [] t')
      → LookUp bt env ctl t (r, t')
  unlisted :
      {t' : Trace}
      → NoDeviceList bt env ctl
      → ((n : ℕ) → IsBalanced (pos n) (ctl ∷ []) t (ctl ∷ []) t')
      → LookUp bt env ctl t (minus_one, t')

look_up-LookUp :
    (bt : Bluez) (env : Env) (wanted : Address) (ctl : ℤ) (t : Trace)
    → LookUp bt env ctl t (look_up bt env wanted ctl t)
unfolding look_up
look_up-LookUp bt env wanted ctl t =
    let (listed, t1) = perform env (get_device_list ctl) t in
    elim (Bool-cases bt.has_memory) [
      | inr full ↦ simp full (unlisted (inl full) (λ n. refl))
      | inl room ↦ elim (Bool-cases (ltb_ℤ listed (pos 0))) [
        | inl refused ↦ simp (room, refused) (unlisted (inr (t, refused)) (λ n. omega arith))
        | inr given ↦
            simp (room, given)
              (answered
                (λ n. omega (arith, find_device-IsBalanced env n ctl wanted bt.adapters t1)))
      ]
    ]

-- How InitcaptureLoop ends, from the trace `t`.
pub data SetUp (bt : Bluez) (env : Env) (t : Trace)
    : Outcome (ℤ × CaptureData × Trace) → Type 0 where
  ready :
      {cd : CaptureData} {t' : Trace} (ctl csk isk : ℤ)
      → cd.sockets ≡ ctl ∷ csk ∷ isk ∷ []
      → ((n : ℕ) → IsBalanced (pos n) [] t cd.sockets t')
      → SetUp bt env t (ok (pos 0, cd, t'))
  failed :
      {cd : CaptureData} {t' : Trace}
      → ((n : ℕ) → IsBalanced (pos n) [] t [] t')
      → SetUp bt env t (ok (minus_one, cd, t'))
  leaked :
      {cd : CaptureData} {t' : Trace} (ctl : ℤ)
      → NoDeviceList bt env ctl
      → ((n : ℕ) → IsBalanced (pos n) [] t (ctl ∷ []) t')
      → SetUp bt env t (ok (minus_one, cd, t'))
  no_bluetooth : SetUp bt env t (stop (exited 1))
  no_room : bt.has_text_memory ≡ false → SetUp bt env t (stop no_memory)

-- `open_sockets` gives 0, and then three sockets, or -1.
abbrev Opened : ℤ × CaptureData × Trace → Type 0
Opened (r, cd, t) =
    ((r ≡ pos 0) × ((ctl : ℤ) × (csk : ℤ) × (isk : ℤ) × (cd.sockets ≡ ctl ∷ csk ∷ isk ∷ [])))
    ⊎ (r ≡ minus_one)

open_sockets-SetUp :
    (bt : Bluez) (env : Env) (t : Trace) (o : ℤ × CaptureData × Trace)
    → Opened o
    → ((n : ℕ) → IsBalanced (pos n) [] t (if eq_ℤ o.0 (pos 0) then o.1.sockets else []) o.2)
    → SetUp bt env t (ok o)
open_sockets-SetUp bt env t (r, cd, t') (inl (good, (ctl, csk, isk, e))) b =
    simp good (ready ctl csk isk e (simp good at b))
open_sockets-SetUp bt env t (r, cd, t') (inr bad) b = simp bad (failed (simp bad at b))

open_sockets_result :
    (env : Env) (address : Address) (cd : CaptureData) (t : Trace)
    → Opened (open_sockets env address cd t)
unfolding open_sockets
open_sockets_result env address cd t =
    let (ctl, t1) = perform env hidp_socket t in
    let (csk, t2) = l2cap_listen env address psm_control t1 in
    let (isk, t3) = l2cap_listen env address psm_interrupt t2 in
    elim (Bool-cases (ltb_ℤ ctl (pos 0))) [
      | inl no_ctl ↦ simp no_ctl (inr refl)
      | inr made ↦ elim (Bool-cases (ltb_ℤ csk (pos 0))) [
        | inl no_csk ↦ simp (made, no_csk) (inr refl)
        | inr heard ↦ elim (Bool-cases (ltb_ℤ isk (pos 0))) [
          | inl no_isk ↦ simp (made, heard, no_isk) (inr refl)
          | inr both ↦ simp (made, heard, both) (inl (refl, (ctl, csk, isk, refl)))
        ]
      ]
    ]

-- What follows bt_device_exists.
open_if_found-SetUp :
    (bt : Bluez) (env : Env) (address : Address) (cd : CaptureData) (ctl : ℤ) (t t1 : Trace)
    (r : ℤ × Trace)
    → ((n : ℕ) → IsBalanced (pos n) [] t (ctl ∷ []) t1)
    → LookUp bt env ctl t1 r
    → SetUp bt env t (ok (open_if_found env address cd r))
unfolding open_if_found
open_if_found-SetUp bt env address cd ctl t t1 (r, t2) b (answered b1) =
    elim (Bool-cases (eq_ℤ r minus_one)) [
      | inl unknown ↦
          simp unknown
            (failed (λ n. IsBalanced-trans (pos n) [] (ctl ∷ []) [] t t1 t2 (b n) (b1 n)))
      | inr found ↦ simp found (
          open_sockets-SetUp bt env t (open_sockets env address cd t2)
            (open_sockets_result env address cd t2)
            (λ n. omega (arith, b n, b1 n, open_sockets-IsBalanced env n address cd t2)))
    ]
open_if_found-SetUp bt env address cd ctl t t1 (r, t2) b (unlisted why b1) =
    leaked ctl why (λ n. IsBalanced-trans (pos n) [] (ctl ∷ []) (ctl ∷ []) t t1 t2 (b n) (b1 n))

with_address-SetUp :
    (bt : Bluez) (env : Env) (cd : CaptureData) (address : Option Address) (t : Trace)
    → SetUp bt env t (with_address bt env cd address t)
unfolding with_address bt_device_exists
with_address-SetUp bt env cd none t = failed (λ n. refl)
with_address-SetUp bt env cd (some address) t =
    let (ctl, t1) = perform env control_socket t in
    elim (Bool-cases (ltb_ℤ ctl (pos 0))) [
      | inl absent ↦ simp absent no_bluetooth
      | inr made ↦ simp made (
          open_if_found-SetUp bt env address cd ctl t t1 (look_up bt env address ctl t1)
            (λ n. omega arith) (look_up-LookUp bt env address ctl t1))
    ]

-- An end before bt_device_exists is for want of memory.
abbrev Ends : {A : Type 0} → Bluez → Outcome A → Type 0
Ends bt (ok a) = Unit
Ends bt (stop fault) = (fault ≡ no_memory) × (bt.has_text_memory ≡ false)

own_address-Ends : (bt : Bluez) (cd : CaptureData) → Ends bt (own_address bt cd)
unfolding own_address first_address write_text is_unset
own_address-Ends bt cd = elim (Option-cases cd.bt_dev_address) [
  | inr (s, set) ↦ simp set tt
  | inl unset ↦ elim (Option-cases bt.first) [
    | inl absent ↦ simp (unset, absent) tt
    | inr (a, there) ↦ elim (Bool-cases bt.has_text_memory) [
      | inr full ↦ simp (unset, there, full) (refl, refl)
      | inl room ↦ elim (Option-cases (bt.ba2str a)) [
        | inl refused ↦ simp (unset, there, room, refused) tt
        | inr (s, text) ↦ simp (unset, there, room, text) tt
      ]
    ]
  ]
]

after_address-SetUp :
    (bt : Bluez) (env : Env) (t : Trace) (o : Outcome (Option Address × CaptureData))
    → Ends bt o
    → SetUp bt env t (o >>= λ (address, cd). with_address bt env cd address t)
after_address-SetUp bt env t (ok (address, cd)) h = with_address-SetUp bt env cd address t
after_address-SetUp bt env t (stop fault) (e, full) = rw e (no_room full)

-- InitcaptureLoop fails none of its asserts on bt_dev_address, whatever the kernel and BlueZ answer.
-- If it returns BDREMOTE_OK, the three sockets of the capture data are open and of all descriptors that it opened
-- no other is; if it returns BDREMOTE_FAIL, none is open, but for the control socket of
-- bt_device_exists when there is no memory for the list of devices or the kernel refuses that list;
-- without a control socket the process exits with 1; and it writes to NULL only when malloc has no
-- memory for the text of the address.
pub init_capture_loop-SetUp :
    (bt : Bluez) (env : Env) (cd : CaptureData) (t : Trace)
    → SetUp bt env t (init_capture_loop bt env cd t)
unfolding init_capture_loop
init_capture_loop-SetUp bt env cd t =
    after_address-SetUp bt env t (own_address bt cd) (own_address-Ends bt cd)
