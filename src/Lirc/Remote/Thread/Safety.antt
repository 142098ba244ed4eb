-- ===== src/Lirc/Remote/Thread/Safety.antt =====
-- src/lirc_thr.c: what the LIRC thread keeps from packet to packet, and the steps of a key press and
-- of a release that keep it.
use bdremote_ng.Prelude.{
  ℕ, ◌+◌, ◌<◌, ◌≤◌, ◌≡◌, ◌⊎◌, inl, inr, refl, ap, sym, ◌∙◌, arith, ℤ, pos, true, false, Option,
  none, some, ◌++◌, length, get_elem?, eq_ℤ, eq_ℤ_iff, ltb, ◌==◌, Returns, Returns-bind,
  Returns-mono, Bool-cases, length-append,
}
use bdremote_ng.Text.{CString}
use bdremote_ng.Sys.{Env, WritesAtMost}
use bdremote_ng.Keys.{KeyInfo, keys, undef, keyup_code, code_to_index}
use bdremote_ng.Keys.Lookup.{Found, unknown, known, code_to_index-Found, key-Fits}
use bdremote_ng.Config.{Configuration}
use bdremote_ng.Lirc.{LircData, max_clients}
use bdremote_ng.Lirc.Clients.{clients}
use bdremote_ng.Lirc.Clients.Bounds.{IsTable}
use bdremote_ng.Lirc.Broadcast.{message}
use bdremote_ng.Lirc.Broadcast.Message.{length-message}
use bdremote_ng.Lirc.Broadcast.Pass.{Distinct}
use bdremote_ng.Lirc.Broadcast.Fates.{broadcast_to_lirc-Broadcast}
use bdremote_ng.Lirc.Remote.{
  Machine, name_of, broadcast, send_event, announce, data_ind_key_down, announce_release,
}

-- An index that `ps3remote_keys` can be read at, or undef.
abbrev pub IsIndex : ℤ → Type 0
IsIndex num =
    (num ≡ undef) ⊎ ((i : ℕ) × (k : KeyInfo) × (num ≡ pos i) × (get_elem? keys i ≡ some k))

-- A suffix with which no line is too long for msg[100].
abbrev pub IsShortRelease : Configuration → Type 0
IsShortRelease c = (s : CString) → c.release ≡ some s → length s ≤ 61

-- What the thread relies on, packet after packet.
pub record IsReady (m : Machine) : Type 0 where
  pub magic : m.ld.magic0 ≡ 0x15
  pub table : IsTable m.ld
  pub distinct : Distinct (clients m.ld)
  pub room : m.ld.clin < max_clients
  pub index : IsIndex m.ks.last_key
  pub short : IsShortRelease m.ld.config

pub length-name_of :
    (c : Configuration) (i : ℕ) {k : KeyInfo}
    → get_elem? keys i ≡ some k
    → length (name_of c k) ≤ 16
length-name_of c i e = ground (arith, key-Fits i e)

pub line_fits :
    (c : Configuration) (i : ℕ) {k : KeyInfo}
    → get_elem? keys i ≡ some k
    → length (message k.code 0 (name_of c k)) < 100
line_fits c i {k} e = omega (
  arith,
  length-name_of c i e,
  length-message k.code (name_of c k) (omega (arith, (key-Fits i e).code_small)),
)

module _ (env : Env) (w : WritesAtMost env) where
  -- A broadcast of a line that fits its array.
  pub broadcast-IsReady :
      (name : CString) (rep code : ℕ) (m : Machine)
      → IsReady m
      → length (message code rep name) < 100
      → Returns
          (λ m'. IsReady m' × (m'.ks ≡ m.ks) × (m'.ld.config ≡ m.ld.config))
          (broadcast env name rep code m)
  unfolding broadcast
  broadcast-IsReady name rep code m v fits =
      let (d', t', e, b) =
        broadcast_to_lirc-Broadcast env m.ld name rep code m.device.trace w v.table v.distinct
          v.magic v.room fits in
      rw e (
        record {
          magic = ap (λ (d : LircData). d.magic0) b.same ∙ v.magic;
          table = b.table;
          distinct = b.distinct;
          room = omega (arith, b.fewer, v.room);
          index = v.index;
          short = λ s q. v.short s (ap (λ (d : LircData). d.config.release) (sym b.same) ∙ q);
        },
        refl,
        ap (λ (d : LircData). d.config) b.same,
      )

  pub send_event-IsReady :
      (k : KeyInfo) (value : ℕ) (m : Machine) → IsReady m → IsReady (send_event env k value m)
  unfolding send_event
  send_event-IsReady k value m v = elim (Bool-cases m.ld.config.event_out) [
    | inl on ↦ simp on (record {
      magic = v.magic;
      table = v.table;
      distinct = v.distinct;
      room = v.room;
      index = v.index;
      short = v.short;
    })
    | inr off ↦ simp off v
  ]

  announce-IsReady :
      (num : ℤ) (m : Machine) → IsReady m → IsIndex num → Returns IsReady (announce env num m)
  unfolding announce
  announce-IsReady num m v (inl none_found) =
      let e : eq_ℤ num undef ≡ true = (eq_ℤ_iff num undef).1 none_found in rw e v
  announce-IsReady num m v (inr (i, k, at, e)) =
      let other : eq_ℤ (pos i) undef ≡ false = refl in
      rw (at, e)
        (Returns-bind _ IsReady (broadcast env (name_of m.ld.config k) 0 k.code m) _
          (broadcast-IsReady (name_of m.ld.config k) 0 k.code m v (line_fits m.ld.config i e))
          (λ m1 r. send_event-IsReady k 1 m1 r.0))

  pub data_ind_key_down-IsReady :
      (code : ℕ) (m : Machine) → IsReady m → Returns IsReady (data_ind_key_down env code m)
  unfolding data_ind_key_down
  data_ind_key_down-IsReady code m v = elim (Bool-cases (code == keyup_code)) [
    | inl up ↦ simp up (announce-IsReady undef m v (inl refl))
    | inr down ↦
        let found = code_index code in
        simp down (
          announce-IsReady (code_to_index code) _
            (record {
              magic = v.magic;
              table = v.table;
              distinct = v.distinct;
              room = v.room;
              index = found;
              short = v.short;
            })
            found)
  ]
    where
      from_found : {c : ℕ} {r : ℤ} → Found c r → IsIndex r
      from_found (unknown e all) = inl e
      from_found (known i k e lt at same) = inr (i, k, e, at)

      code_index : (c : ℕ) → IsIndex (code_to_index c)
      code_index c = from_found (code_to_index-Found c)

  pub announce_release-IsReady :
      (code i : ℕ) (k : KeyInfo) (m : Machine)
      → IsReady m
      → code < 256
      → get_elem? keys i ≡ some k
      → (suffix : Option CString) → m.ld.config.release ≡ suffix
      → Returns IsReady (announce_release env code k suffix m)
  unfolding announce_release
  announce_release-IsReady code i k m v small e none eq = v
  announce_release-IsReady code i k m v small e (some suffix) eq =
      let name = name_of m.ld.config k ++ suffix in
      let fits : length (message code 0 name) < 100 = omega (
        arith,
        length-message code name (omega arith),
        length-append (name_of m.ld.config k) suffix,
        length-name_of m.ld.config i e,
        v.short suffix eq,
      ) in
      elim (Bool-cases (ltb (length (name_of m.ld.config k) + length suffix) 100)) [
        | inl room ↦ simp room (
            Returns-mono _ IsReady (broadcast env name 0 code m)
              (broadcast-IsReady name 0 code m v fits) (λ m1 r. r.0))
        | inr none_left ↦ simp none_left v
      ]
