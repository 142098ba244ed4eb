-- ===== src/Examples/Remotes.antt =====
-- Packets of the remote that reach the LIRC thread.
use bdremote_ng.Prelude.{
  stop, out_of_bounds, replicate, ◌<◌, ◌≤◌, ℕ, ◌≡◌, refl, inl, inr, ◌-◌, ◌*◌, ◌≢◌, assertion,
  length, ◌/◌, ◌==◌, arith, ℤ, pos, Bool, true, false, none, some, List, [], ◌∷◌, ◌++◌, map,
  replicate, get_elem?, if◌then◌else◌, ok, stop, out_of_bounds, Returns,
}
use bdremote_ng.Text.{CString, codes}
use bdremote_ng.Keys.{KeyInfo, keys, undef, code_to_index}
use bdremote_ng.Queue.{QueueData, queue_data_de_init}
use bdremote_ng.Queue.Holds.{Holds, Holds-queue_init}
use bdremote_ng.Sys.{Env, Trace, get_time_of_day}
use bdremote_ng.Capture.{hung_up}
use bdremote_ng.Lirc.{LircData}
use bdremote_ng.Lirc.Callback.{notify_all}
use bdremote_ng.Lirc.Callback.Packets.{packet}
use bdremote_ng.Lirc.Pump.{queue_rounds}
use bdremote_ng.Lirc.Pump.Drain.{Handled}
use bdremote_ng.Lirc.Pump.Press.{Pressed, press-Pressed}
use bdremote_ng.Lirc.Pump.EndToEnd.{heard, after_callbacks, session-Handled}
use bdremote_ng.Lirc.Broadcast.{message}
use bdremote_ng.Lirc.Broadcast.Delivery.{Fates}
use bdremote_ng.Lirc.Clients.{clients, add_client}
use bdremote_ng.Lirc.Remote.{
  Machine, name_of, send_event, released, handle_key, dispatch, data_ind_key_down, announce,
}
use bdremote_ng.Lirc.Remote.Clock.{counted_ms, counted_ms_lem, init_time, update_time}
use bdremote_ng.Lirc.Remote.Overflow.{handle_key-overflow}
use bdremote_ng.Lirc.Remote.Press.{IsReport, with_event, handle_key-press, handle_key-release}
use bdremote_ng.Lirc.Remote.Thread.{
  round, rounds, take_packet, repeat_key, timed, hold, restart, rate_delay, send_after_ms,
}
use bdremote_ng.Lirc.Remote.Thread.Safety.{IsReady}
use bdremote_ng.Lirc.Remote.Thread.Sessions.{
  Session, opening, then_turn, client_connects, with_client, round-IsReady,
}
use bdremote_ng.Keys.Lookup.{code_to_index-code}
use bdremote_ng.Lirc.Remote.Thread.Repeats.{NeverBack}
use bdremote_ng.Lirc.Remote.Thread.Holding.{
  IsUsual, at_first, then_round, then_client, held_round-IsReady,
}
use bdremote_ng.Lirc.Remote.Thread.Rhythm.{IsHeld, round-repeat}
use bdremote_ng.Lirc.Remote.Thread.Unknown.{rounds-unknown}
use bdremote_ng.Lirc.Remote.Crowded.{handle_key-full}
use bdremote_ng.Examples.{world, world-WritesAtMost, noon, house, lirc, machine, machine-IsReady}

abbrev report : ℕ → ℕ → List ℕ
report code state = 0xa1 ∷ 1 ∷ 0 ∷ 0 ∷ 0 ∷ code ∷ 0xff ∷ 0xff ∷ 0xff ∷ 0xff ∷ 1 ∷ state ∷ 5 ∷ []

abbrev report_packet : ℕ → ℕ → QueueData
report_packet code state = record { buffer = report code state; size = 13 }

report-IsReport : (code state : ℕ) → IsReport code state (report code state)
report-IsReport code state = record { magic = refl; code_byte = refl; state_byte = refl }

abbrev play : KeyInfo
play = record {
  name_orig = codes "play";
  name_lirc = codes "KEY_PLAY";
  event_code = 207;
  code = 0x32;
  mask = 0;
}

play_at : get_elem? keys 35 ≡ some play
unfolding keys
play_at = refl

one_connects : Session world machine (with_client world machine)
one_connects = then_turn opening (client_connects (omega arith) refl)

round-IsReady_example :
    Returns IsReady (round false world (some (report_packet 0x32 1)) (with_client world machine))
round-IsReady_example =
    round-IsReady world (some (report_packet 0x32 1)) world-WritesAtMost machine-IsReady
      one_connects (refl, omega arith)

handle_key-press_example :
    (m1 : Machine) × (handle_key world (report 0x32 1) 13 machine ≡ ok (send_event world play 1 m1))
    × Fates (message 0x32 0 (name_of house play)) (clients lirc) (clients m1.ld) [] m1.device.trace
    × (m1.ks ≡ record machine.ks { key_down = true; last_key = pos 35; repeat_count = 0 })
    × ((send_event world play 1 m1).device.trace ≡ with_event world play 1 m1)
handle_key-press_example =
    handle_key-press world machine 35 play (report 0x32 1) world-WritesAtMost machine-IsReady
      play_at (report-IsReport 0x32 1)

-- the key that is held, at a later moment
abbrev held : ℤ → Bool → ℕ → Machine
held num waited ms = record machine {
  ks = record machine.ks { key_down = true; last_key = num; done_waiting = waited; elapsed = ms };
}

play_held-IsReady : (waited : Bool) (ms : ℕ) → IsReady (held (pos 35) waited ms)
play_held-IsReady waited ms = record {
  magic = refl;
  table = machine-IsReady.table;
  distinct = machine-IsReady.distinct;
  room = machine-IsReady.room;
  index = inr (35, play, refl, play_at);
  short = machine-IsReady.short;
}

held-IsHeld : (num : ℤ) (waited : Bool) (ms : ℕ) → IsHeld world (held num waited ms)
held-IsHeld num waited ms = record { down = refl; onward = omega arith }

handle_key-release_example :
    (m1 : Machine) × (handle_key world (report 0xff 0) 13 (held (pos 35) false 0)
      ≡ ok (record (send_event world play 0 m1) {
        ks = record (held (pos 35) false 0).ks {
          key_down = false;
          last_key = undef;
          repeat_count = 0;
        };
      }))
    × Fates
        (message 0xff 0 (name_of house play ++ codes "UP"))
        (clients lirc)
        (clients m1.ld)
        []
        m1.device.trace
    × ((send_event world play 0 m1).device.trace ≡ with_event world play 0 m1)
handle_key-release_example =
    handle_key-release world (held (pos 35) false 0) 35 play (codes "UP") (report 0xff 0)
      world-WritesAtMost (play_held-IsReady false 0) play_at refl refl (report-IsReport 0xff 0)

period : send_after_ms house ≡ 100
unfolding send_after_ms
period = refl

round-repeat_example :
    (m1 : Machine) × (round true world none (held (pos 35) true 120)
      ≡ ok (record (send_event world play 2 m1) {
        ks = record (held (pos 35) true 120).ks {
          cl0 = noon;
          cl1 = noon;
          elapsed = 0;
          repeat_count = 1;
        };
      }))
    × Fates (message 0x32 0 (name_of house play)) (clients lirc) (clients m1.ld) [] m1.device.trace
    × ((send_event world play 2 m1).device.trace ≡ with_event world play 2 m1)
round-repeat_example =
    round-repeat world (held (pos 35) true 120) 35 play world-WritesAtMost
      (play_held-IsReady true 120) (held-IsHeld (pos 35) true 120) refl (omega (arith, period))
      play_at refl (omega arith)

-- 120 milliseconds between two looks at the clock
abbrev ticking : Env
ticking = record world { clock = λ t. record noon { tv_usec = 120000 * length t } }

-- what follows the press of a key with the code 200, and a silent round
abbrev looks : ℕ → Trace
looks n = replicate n (record { call = get_time_of_day; result = pos 0 })

abbrev stuck : Machine
stuck = record machine {
  ks = record machine.ks {
    key_down = true;
    last_key = undef;
    cl0 = record noon { tv_usec = 240000 };
    cl1 = record noon { tv_usec = 240000 };
    done_waiting = true;
  };
  device = record machine.device { trace = looks 3 };
}

to_stuck : rounds true ticking (some (report_packet 200 1) ∷ replicate 1 none) machine ≡ ok stuck
unfolding rounds round take_packet repeat_key timed hold restart init_time update_time handle_key
    dispatch data_ind_key_down announce code_to_index queue_data_de_init rate_delay keys
to_stuck = refl

no_200 : code_to_index 200 ≡ undef
unfolding code_to_index keys
no_200 = refl

absent_200 : (i : ℕ) (k : KeyInfo) → get_elem? keys i ≡ some k → k.code ≢ 200
absent_200 i k at e = cc (code_to_index-code i at, no_200)

rounds-unknown_example : round true ticking none stuck ≡ stop out_of_bounds
rounds-unknown_example =
    rounds-unknown ticking machine 1 refl (omega arith) absent_200 (report-IsReport 200 1) to_stuck
      (omega arith) refl (omega (arith, period))

-- one slot left, in which client 7 connects
abbrev nearly_full : Machine
nearly_full = record machine {
  ld = record lirc {
    clis =
        pos 10
        ∷ pos 11
        ∷ pos 12
        ∷ pos 13
        ∷ pos 14
        ∷ pos 15
        ∷ pos 16
        ∷ pos 17
        ∷ pos 18
        ∷ pos 19
        ∷ pos 20
        ∷ pos 21
        ∷ pos 22
        ∷ pos 23
        ∷ pos 24
        ∷ pos 25
        ∷ [];
    clin = 15;
  };
}

nearly_full-IsReady : IsReady nearly_full
nearly_full-IsReady = record {
  magic = refl;
  table = record { slots = refl; used = omega arith };
  distinct = (
    refl,
    (
      refl,
      (
        refl,
        (
          refl,
          (
            refl,
            (refl, (refl, (refl, (refl, (refl, (refl, (refl, (refl, (refl, (refl, tt)))))))))),
          ),
        ),
      ),
    ),
  );
  room = omega arith;
  index = inl refl;
  short = machine-IsReady.short;
}

handle_key-full_example :
    handle_key world
      (report 0x32 1)
      13
      (record nearly_full { ld = (add_client world nearly_full.ld []).0 })
    ≡ stop assertion
handle_key-full_example =
    handle_key-full world nearly_full [] 35 play (report 0x32 1) nearly_full-IsReady refl refl
      play_at (report-IsReport 0x32 1)

counted_ms_lem_example :
    counted_ms noon (record noon { tv_usec = 900000 })
    ≡ (if 43200 == 43200 then (43200900000 - 43200500000) / 1000 else 0)
counted_ms_lem_example =
    counted_ms_lem noon (record noon { tv_usec = 900000 }) (omega arith) (omega arith) (omega arith)
      (omega arith)

clock_onward : NeverBack world
clock_onward = record { onward = λ t e. omega arith }

silence-IsUsual : IsUsual world machine none
silence-IsUsual = record { input = tt; named = tt; on_time = omega arith; few = omega arith }

silent_round : round true world none machine ≡ ok machine
unfolding round take_packet repeat_key
silent_round = refl

press-IsUsual : IsUsual world (with_client world machine) (some (report_packet 0x32 1))
unfolding with_client
press-IsUsual = record {
  input = (refl, omega arith);
  named = inr (0x32, refl, inr (λ e. cc (code_to_index-code 35 play_at)));
  on_time = omega arith;
  few = omega arith;
}

held_round-IsReady_example :
    Returns IsReady (round true world (some (report_packet 0x32 1)) (with_client world machine))
held_round-IsReady_example =
    held_round-IsReady world (some (report_packet 0x32 1)) world-WritesAtMost clock_onward
      machine-IsReady (inl refl)
      (then_client (then_round none at_first silence-IsUsual silent_round) (omega arith) refl)
      press-IsUsual

-- two packets, the second after a silent second
abbrev sent : List (ℕ × List ℕ)
sent = (0, report 0x32 1) ∷ (1, report 0xff 0) ∷ []

session-Handled_example :
    (d : LircData) × (t1 : Trace) × (m' : Machine) × (notify_all world
        (heard 2 sent hung_up [])
        machine.ld
        machine.device.trace
      ≡ ok ([], d, t1))
    × (queue_rounds false world (replicate 2 []) (after_callbacks machine d t1) ≡ ok m')
    × Handled world
        (map packet (map (λ (b : ℕ × List ℕ). b.1) sent))
        (after_callbacks machine d t1)
        m'
    × Holds m'.ld.qu []
    × IsReady m'
session-Handled_example =
    session-Handled world machine 2 sent hung_up [] world-WritesAtMost machine-IsReady
      Holds-queue_init ((omega arith, omega arith), ((omega arith, omega arith), tt)) (λ e. cc)
      (omega arith)

press-Pressed_example :
    (d : LircData) × (t1 : Trace) × (m' : Machine) × (notify_all world
        (heard 2 ((1, report 0x32 1) ∷ []) hung_up [])
        machine.ld
        machine.device.trace
      ≡ ok ([], d, t1))
    × (queue_rounds false world ([] ∷ []) (after_callbacks machine d t1) ≡ ok m')
    × Pressed world play house machine m'
press-Pressed_example =
    press-Pressed world machine 2 1 35 play (report 0x32 1) hung_up [] world-WritesAtMost
      machine-IsReady Holds-queue_init (omega arith) (λ e. cc) play_at (report-IsReport 0x32 1) refl

-- `-R` with 80 bytes
abbrev eighty : CString
eighty = replicate 80 b'x'

abbrev long_held : Machine
long_held = record (held (pos 35) false 0) {
  ld = record lirc { config = record house { release = some eighty } };
}

handle_key-overflow_example :
    (78 ≤ 84 → 84 < 100 → handle_key world (report 0xff 0) 13 long_held ≡ stop out_of_bounds)
    × (100 ≤ 84
        → handle_key world (report 0xff 0) 13 long_held
          ≡ ok (released (send_event world play 0 long_held)))
handle_key-overflow_example =
    handle_key-overflow world long_held refl play_at refl refl (report-IsReport 0xff 0)
