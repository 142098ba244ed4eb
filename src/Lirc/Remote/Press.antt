-- ===== src/Lirc/Remote/Press.antt =====
-- src/lirc_thr.c: a packet of the remote, from handleKey to the clients and the device.
use bdremote_ng.Prelude.{
  ℕ, ◌+◌, ◌<◌, ◌≤◌, ◌≡◌, inr, refl, ap, ◌∙◌, arith, ℤ, pos, Bool-cases, inl, true, false, some,
  List, ◌++◌, length, get_elem?, ltb, eq_ℤ, minus_one, not, ◌&&◌, if◌then◌else◌, ◌==◌, ok,
  length-append, lt→ltb,
}
use bdremote_ng.Text.{CString}
use bdremote_ng.Sys.{Env, Trace, WritesAtMost, perform, write_event}
use bdremote_ng.EventOut.{event_out_send}
use bdremote_ng.Keys.{KeyInfo, keys, undef, keyup_code, code_to_index}
use bdremote_ng.Keys.Lookup.{code_to_index-code, key-Fits}
use bdremote_ng.Lirc.{LircData}
use bdremote_ng.Lirc.Clients.{clients}
use bdremote_ng.Lirc.Broadcast.{message}
use bdremote_ng.Lirc.Broadcast.Message.{length-message}
use bdremote_ng.Lirc.Broadcast.Delivery.{Fates}
use bdremote_ng.Lirc.Broadcast.Fates.{broadcast_to_lirc-Broadcast}
use bdremote_ng.Lirc.Remote.{
  KeyState, Machine, key_at, name_of, broadcast, send_event, announce, data_ind_key_down,
  announce_release, data_ind_key_up, dispatch, handle_key,
}
use bdremote_ng.Lirc.Remote.Thread.Safety.{IsReady, line_fits, length-name_of}

-- A report of the remote: 13 bytes, 0xa1 in front, a code at 5 and a state at 11.
pub record IsReport (code state : ℕ) (bytes : List ℕ) : Type 0 where
  pub magic : get_elem? bytes 0 ≡ some 0xa1
  pub code_byte : get_elem? bytes 5 ≡ some code
  pub state_byte : get_elem? bytes 11 ≡ some state

-- From `m` to `m1` the line went out to the clients, and nothing else changed.
pub record Announced (msg : List ℕ) (m m1 : Machine) : Type 0 where
  pub fates : Fates msg (clients m.ld) (clients m1.ld) m.device.trace m1.device.trace
  pub keys_same : m1.ks ≡ m.ks
  pub config_same : m1.ld.config ≡ m.ld.config
  pub device_same : m1.device.event_out_fd ≡ m.device.event_out_fd

pub handle_key-dispatch :
    (env : Env) (m : Machine) {code state : ℕ} {bytes : List ℕ}
    → m.ld.magic0 ≡ 0x15
    → IsReport code state bytes
    → handle_key env bytes 13 m ≡ dispatch env state code m
unfolding handle_key
handle_key-dispatch env m magic r =
    let right : (m.ld.magic0 == 0x15) ≡ true = ground (arith, magic) in
    simp (right, r.magic, r.code_byte, r.state_byte)

pub broadcast-Announced :
    (env : Env) (name : CString) (rep code : ℕ) (m : Machine)
    → WritesAtMost env
    → IsReady m
    → length (message code rep name) < 100
    → (m1 : Machine) × (broadcast env name rep code m ≡ ok m1)
      × Announced (message code rep name) m m1
unfolding broadcast
broadcast-Announced env name rep code m w v fits =
    let (d', t', e, b) =
      broadcast_to_lirc-Broadcast env m.ld name rep code m.device.trace w v.table v.distinct v.magic
        v.room fits in
    (
      record m { ld = d'; device = record m.device { trace = t' } },
      rw e refl,
      record {
        fates = b.fates;
        keys_same = refl;
        config_same = ap (λ (d : LircData). d.config) b.same;
        device_same = refl;
      },
    )

pressed : ℤ → Machine → Machine
pressed num m = record m { ks = record m.ks { key_down = true; last_key = num; repeat_count = 0 } }

announce-known :
    (env : Env) (i : ℕ) {k : KeyInfo} (m : Machine)
    → WritesAtMost env
    → IsReady m
    → get_elem? keys i ≡ some k
    → (m1 : Machine) × (announce env (pos i) (pressed (pos i) m) ≡ ok (send_event env k 1 m1))
      × Announced (message k.code 0 (name_of m.ld.config k)) (pressed (pos i) m) m1
unfolding announce key_at pressed
announce-known env i {k} m w v at =
    let name = name_of m.ld.config k in
    let ready : IsReady (pressed (pos i) m) = record {
      magic = v.magic;
      table = v.table;
      distinct = v.distinct;
      room = v.room;
      index = inr (i, k, refl, at);
      short = v.short;
    } in
    let (m1, e, a) =
      broadcast-Announced env name 0 k.code (pressed (pos i) m) w ready
        (line_fits m.ld.config i at) in
    (m1, simp (at, e), a)

-- The calls up to the event of a key: one write to the device, if events are configured and the
-- device is there.
abbrev pub with_event : Env → KeyInfo → ℕ → Machine → Trace
with_event env k value m =
    let fd = m.device.event_out_fd in
    if m.ld.config.event_out && not (eq_ℤ fd minus_one)
    then (perform env (write_event fd k.event_code value) m.device.trace).1
    else m.device.trace

pub send_event-with_event :
    (env : Env) (k : KeyInfo) (value : ℕ) (m : Machine)
    → (send_event env k value m).device.trace ≡ with_event env k value m
unfolding send_event event_out_send
send_event-with_event env k value m = elim (Bool-cases m.ld.config.event_out) [
  | inl events ↦ elim (Bool-cases (eq_ℤ m.device.event_out_fd minus_one)) [
    | inl absent ↦ simp (events, absent) refl
    | inr there ↦ simp (events, there) refl
  ]
  | inr none_wanted ↦ simp none_wanted refl
]

-- In a state that is ready for a packet (a well-formed table with fewer than MAX_CLIENTS clients,
-- all on distinct descriptors, and a release suffix of at most 61 bytes), and with a write() that
-- reports no more bytes than it was offered, handleKey, on the report that key `i` of the table
-- went down, ends normally: the line with the key's code and the name that the configuration
-- chooses goes out to the clients, each of which receives all of it or is dropped, the key is then
-- the last key and held, and then, if events are configured and there is a device, one event goes to
-- the device, with the event code of that key and the value 1.
pub handle_key-press :
    (env : Env) (m : Machine) (i : ℕ) (k : KeyInfo) (bytes : List ℕ)
    → WritesAtMost env
    → IsReady m
    → get_elem? keys i ≡ some k
    → IsReport k.code 1 bytes
    → (m1 : Machine) × (handle_key env bytes 13 m ≡ ok (send_event env k 1 m1))
      × Fates
          (message k.code 0 (name_of m.ld.config k))
          (clients m.ld)
          (clients m1.ld)
          m.device.trace
          m1.device.trace
      × (m1.ks ≡ record m.ks { key_down = true; last_key = pos i; repeat_count = 0 })
      × ((send_event env k 1 m1).device.trace ≡ with_event env k 1 m1)
unfolding dispatch data_ind_key_down pressed
handle_key-press env m i k bytes w v at r =
    let down : (k.code == keyup_code) ≡ false = ground (arith, (key-Fits i at).code_small) in
    let index : code_to_index k.code ≡ pos i = code_to_index-code i at in
    let (m1, e, a) = announce-known env i m w v at in
    (
      m1,
      handle_key-dispatch env m v.magic r ∙ rw (down, index) e,
      a.fates,
      a.keys_same,
      send_event-with_event env k 1 m1,
    )

-- The device is told nothing about the state of the keys.
pub send_event_keys :
    (env : Env) (k : KeyInfo) (value : ℕ) (m : Machine) → (send_event env k value m).ks ≡ m.ks
unfolding send_event
send_event_keys env k value m = elim (Bool-cases m.ld.config.event_out) [
  | inl events ↦ simp events refl
  | inr none_wanted ↦ simp none_wanted refl
]

-- In a state that is ready for a packet (a well-formed table with fewer than MAX_CLIENTS clients,
-- all on distinct descriptors, and a release suffix of at most 61 bytes), and with a write() that
-- reports no more bytes than it was offered, handleKey, on the report that the key went up, while
-- key `i` is the last key and a release suffix is configured, ends normally: the line with the name
-- and the suffix goes out to the clients, each of which receives all of it or is dropped, then, if
-- events are configured and there is a device, one event goes to the device, with the event code of
-- that key and the value 0; of the state of the keys, no key
-- is held any more, there is no last key, and the repeat count is 0.
pub handle_key-release :
    (env : Env) (m : Machine) (i : ℕ) (k : KeyInfo) (suffix : CString) (bytes : List ℕ)
    → WritesAtMost env
    → IsReady m
    → get_elem? keys i ≡ some k
    → m.ks.last_key ≡ pos i
    → m.ld.config.release ≡ some suffix
    → IsReport keyup_code 0 bytes
    → (m1 : Machine) × (handle_key env bytes 13 m
        ≡ ok (record (send_event env k 0 m1) {
          ks = record m.ks { key_down = false; last_key = undef; repeat_count = 0 };
        }))
      × Fates
          (message keyup_code 0 (name_of m.ld.config k ++ suffix))
          (clients m.ld)
          (clients m1.ld)
          m.device.trace
          m1.device.trace
      × ((send_event env k 0 m1).device.trace ≡ with_event env k 0 m1)
unfolding dispatch data_ind_key_up announce_release key_at
handle_key-release env m i k suffix bytes w v at last configured r =
    let name = name_of m.ld.config k ++ suffix in
    let short : length suffix ≤ 61 = v.short suffix configured in
    let small = length-name_of m.ld.config i at in
    let room : ltb (length (name_of m.ld.config k) + length suffix) 100 ≡ true =
      lt→ltb _ _ (omega (arith, short, small)) in
    let fits : length (message keyup_code 0 name) < 100 = omega (
      arith,
      length-message keyup_code name (omega arith),
      length-append (name_of m.ld.config k) suffix,
      small,
      short,
    ) in
    let (m1, e, a) = broadcast-Announced env name 0 keyup_code m w v fits in
    let kept : (send_event env k 0 m1).ks ≡ m.ks = send_event_keys env k 0 m1 ∙ a.keys_same in
    (
      m1,
      handle_key-dispatch env m v.magic r
          ∙ simp (last, at, configured, room, e)
              (ap
                (λ (ks : KeyState). ok (record (send_event env k 0 m1) {
                  ks = record ks { key_down = false; last_key = undef; repeat_count = 0 };
                }))
                kept),
      a.fates,
      send_event-with_event env k 0 m1,
    )
