-- ===== src/Lirc/Pump/Press.antt =====
-- One key press, from the socket of the remote to the clients and the device.
use bdremote_ng.Prelude.{
  refl, ap, ◌∙◌, ℕ, ℤ, ◌≤◌, ◌≡◌, ◌≢◌, ap₂, sym, subst, arith, false, List, [], ◌∷◌, length, take,
  get_elem?, some, ok, ok-injective,
}
use bdremote_ng.Sys.{Env, Trace, WritesAtMost}
use bdremote_ng.Keys.{KeyInfo, keys}
use bdremote_ng.Config.{Configuration}
use bdremote_ng.Queue.{queue_data_de_init}
use bdremote_ng.Queue.Holds.{Holds}
use bdremote_ng.Capture.{Callback, Poll, canceled}
use bdremote_ng.Lirc.{LircData}
use bdremote_ng.Lirc.Clients.{clients}
use bdremote_ng.Lirc.Callback.{notify_all}
use bdremote_ng.Lirc.Callback.Packets.{packet}
use bdremote_ng.Lirc.Broadcast.{message}
use bdremote_ng.Lirc.Broadcast.Delivery.{Fates, Fates-earlier}
use bdremote_ng.Lirc.Callback.Silence.{notify_all-delivered}
use bdremote_ng.Sys.Delivery.{delivered}
use bdremote_ng.Lirc.Remote.{Machine, name_of, send_event, handle_key}
use bdremote_ng.Lirc.Remote.Press.{IsReport, with_event, handle_key-press}
use bdremote_ng.Lirc.Remote.Thread.{round, take_packet, repeat_key}
use bdremote_ng.Lirc.Remote.Thread.Safety.{IsReady}
use bdremote_ng.Lirc.Pump.{with_queue, queue_rounds}
use bdremote_ng.Lirc.Pump.Drain.{Handled, all_done, then_round, with_queue-IsReady}
use bdremote_ng.Lirc.Pump.EndToEnd.{
  heard, after_callbacks, after_callbacks-IsReady, callbacks-SameClients, session-Handled,
}

-- The machine after the press of the key `k`: each client has the line or is dropped, and then the
-- device has the press, by one write if events are configured and the device is there.
abbrev pub Pressed : Env → KeyInfo → Configuration → Machine → Machine → Type 0
Pressed env k config m m' =
    (m1 : Machine) × (m' ≡ send_event env k 1 m1)
    × (m'.device.trace ≡ with_event env k 1 m1)
    × Fates (message k.code 0 (name_of config k)) (clients m.ld) (clients m1.ld) m.device.trace
        m1.device.trace

round-handled :
    (env : Env) (bytes : List ℕ) (m m1 m2 : Machine)
    → length bytes ≡ 13
    → handle_key env bytes 13 m ≡ ok m1
    → round false env (some (packet bytes)) m ≡ ok m2
    → m2 ≡ m1
unfolding round take_packet repeat_key queue_data_de_init
round-handled env bytes m m1 m2 size e r = sym (ok-injective (simp (size, e) at r))

Handled-Pressed :
    (env : Env) (m m' : Machine) (i : ℕ) (k : KeyInfo) (bytes : List ℕ)
    → WritesAtMost env
    → IsReady m
    → get_elem? keys i ≡ some k
    → IsReport k.code 1 bytes
    → length bytes ≡ 13
    → Handled env (packet bytes ∷ []) m m'
    → Pressed env k m.ld.config m m'
Handled-Pressed env m m' i k bytes w v at report size (then_round q e all_done) =
    let (m1, pressed, fates, keys_after, sent) =
      handle_key-press env (with_queue q m) i k bytes w (with_queue-IsReady q m v) at report in
    let same = round-handled env bytes (with_queue q m) (send_event env k 1 m1) m' size pressed e in
    (m1, same, ap (λ (w : Machine). w.device.trace) same ∙ sent, fates)

-- The callbacks before a press send nothing, and leave the clients.
Pressed-earlier :
    (env : Env) (k : KeyInfo) (config : Configuration) (m m0 m' : Machine)
    → clients m.ld ≡ clients m0.ld
    → ((g : ℤ) → delivered g m.device.trace ≡ delivered g m0.device.trace)
    → Pressed env k config m m'
    → Pressed env k config m0 m'
Pressed-earlier env k config m m0 m' same silent (m1, e, sent, fates) =
    let msg = message k.code 0 (name_of config k) in
    (
      m1,
      e,
      sent,
      subst (λ fds. Fates msg fds (clients m1.ld) m0.device.trace m1.device.trace) same
          (Fates-earlier silent fates),
    )

callbacks-delivered :
    (env : Env) (g : ℤ) (cs : List Callback) (m : Machine) {d : LircData} {t : Trace}
    → notify_all env cs m.ld m.device.trace ≡ ok ([], d, t)
    → delivered g t ≡ delivered g m.device.trace
callbacks-delivered env g cs m e =
    rw e at (notify_all-delivered env g m.device.trace cs m.ld m.device.trace refl)

-- A key press, from end to end, in a build without key repeat: the remote sends the report that key
-- `i` of the table went down, of 13 bytes, after at most as many silent seconds as the time-out, then
-- nothing more until the time-out, and the daemon is not ended meanwhile. If the LIRC side is ready
-- for a packet (a well-formed table with fewer than MAX_CLIENTS clients on distinct descriptors, a
-- release suffix of at most 61 bytes, a last key that is an index of the key table or undef), its
-- queue is empty, and write() reports no more bytes than it was offered, then every callback returns
-- without a wait, and one round of the LIRC thread ends normally; from before the callbacks to the
-- press that the device is sent at the end of the round, by one event with the code of the key and
-- the value 1 if events are configured and there is a device, each client has
-- received just the line with the key's code and the name that the configuration chooses, or it has
-- received a proper prefix of it and is dropped, and nobody else has received anything.
pub press-Pressed :
    (env : Env) (m : Machine) (t n i : ℕ) (k : KeyInfo) (bytes : List ℕ) (p : Poll)
    (polls : List Poll)
    → WritesAtMost env
    → IsReady m
    → Holds m.ld.qu []
    → n ≤ t
    → p ≢ canceled
    → get_elem? keys i ≡ some k
    → IsReport k.code 1 bytes
    → length bytes ≡ 13
    → (d : LircData) × (t1 : Trace) × (m' : Machine) × (notify_all env
          (heard t ((n, bytes) ∷ []) p polls)
          m.ld
          m.device.trace
        ≡ ok ([], d, t1))
      × (queue_rounds false env ([] ∷ []) (after_callbacks m d t1) ≡ ok m')
      × Pressed env k m.ld.config m m'
press-Pressed env m t n i k bytes p polls w v empty timely going at report size =
    let cs = heard t ((n, bytes) ∷ []) p polls in
    let (d, t1, m', told, rounds, handled, left, ready) =
      session-Handled env m t ((n, bytes) ∷ []) p polls w v empty
        ((timely, omega (arith, size)), tt) going (omega arith) in
    let same = callbacks-SameClients env cs m told in
    let after = after_callbacks m d t1 in
    let pressed =
      Handled-Pressed env after m' i k bytes w (after_callbacks-IsReady m d t1 v same) at report
        size handled in
    (
      d,
      t1,
      m',
      told,
      rounds,
      Pressed-earlier env k m.ld.config after m m' (ap₂ take same.3 same.2)
          (λ g. callbacks-delivered env g cs m told)
          (subst (λ c. Pressed env k c after m') same.1 pressed),
    )
