-- ===== src/Capture/Packets.antt =====
-- readFromSocket of src/capture/capture_bluez.c: which packets it hands on, and when it gives up.
use bdremote_ng.Prelude.{
  ℕ, zero, suc, ◌+◌, ◌%◌, ◌<◌, ◌≤◌, ◌≡◌, ◌≢◌, refl, ap, ◌∙◌, arith, ℤ, pos, true, false, Option,
  none, some, List, [], ◌∷◌, ◌++◌, map, replicate, length, get_elem?, ltb, leb, ltb_ℤ, ◌==◌, All,
  Bool-cases, inl, inr, append-nil, All-append,
}
use bdremote_ng.Capture.{
  Callback, remote_battery_charge, data_ind, Poll, canceled, silent, hung_up, received, Reading,
  timed_out, battery_status, on_data, read_from_socket,
}

-- the packets that DataInd is called with
abbrev pub packets : List Callback → List (List ℕ)
packets [] = []
packets (remote_battery_charge v ∷ cs) = packets cs
packets (data_ind bytes ∷ cs) = bytes ∷ packets cs

-- some silent seconds, then a packet, and so on, before `polls`
abbrev pub bursts : List (ℕ × List ℕ) → List Poll → List Poll
bursts [] polls = polls
bursts ((n, bytes) ∷ bs) polls = replicate n silent ++ (received bytes ∷ bursts bs polls)

-- A packet that holds something, after at most `t` silent seconds.
abbrev pub InTime : ℕ → ℕ × List ℕ → Type 0
InTime t b = (b.0 ≤ t) × (0 < length b.1)

-- Seconds of silence within the limit are counted.
read-silence :
    (t s n : ℕ) (polls : List Poll)
    → s + n ≤ t + 1
    → read_from_socket (pos t) s (replicate n silent ++ polls)
      ≡ read_from_socket (pos t) (s + n) polls
unfolding read_from_socket
read-silence t s zero polls h = ap (λ k. read_from_socket (pos t) k polls) (omega arith)
read-silence t s (suc n) polls h =
    let below : ltb t s ≡ false = ground arith in
    simp below (
      read-silence t (s + 1) n polls (omega arith)
      ∙ ap (λ k. read_from_socket (pos t) k polls) (omega arith))

read-silence_first :
    (t n : ℕ) (polls : List Poll)
    → n ≤ t + 1
    → read_from_socket (pos t) 0 (replicate n silent ++ polls) ≡ read_from_socket (pos t) n polls
read-silence_first t n polls h =
    read-silence t 0 n polls (omega arith)
    ∙ ap (λ k. read_from_socket (pos t) k polls) (omega arith)

packets-on_data :
    (bytes : List ℕ) (later : List Callback) → packets (on_data bytes later) ≡ bytes ∷ packets later
unfolding on_data battery_status
packets-on_data bytes later = by_status (get_elem? bytes 12)
  where
    by_status :
        (o : Option ℕ)
        → packets (battery_status o ++ (data_ind bytes ∷ later)) ≡ bytes ∷ packets later
    by_status none = refl
    by_status (some b) = elim (Bool-cases (leb b 5)) [ inl low ↦ simp low | inr high ↦ simp high ]

-- What a part of a session adds: its packets come first, and the rest decides how it ends.
abbrev Adds : List (List ℕ) → List Callback × Reading → List Callback × Reading → Type 0
Adds bs r later = (packets r.0 ≡ bs ++ packets later.0) × (r.1 ≡ later.1)

read-received :
    (t n : ℕ) (bytes : List ℕ) (polls : List Poll)
    → n ≤ t
    → 0 < length bytes
    → Adds
        (bytes ∷ [])
        (read_from_socket (pos t) n (received bytes ∷ polls))
        (read_from_socket (pos t) 0 polls)
unfolding read_from_socket
read-received t n bytes polls h some_bytes =
    let below : ltb t n ≡ false = ground arith in
    let full : (length bytes == 0) ≡ false = ground (arith, some_bytes) in
    simp (below, full) (packets-on_data bytes (read_from_socket (pos t) 0 polls).0, refl)

read-bursts :
    (t : ℕ) (bs : List (ℕ × List ℕ)) (polls : List Poll)
    → All (InTime t) bs
    → Adds
        (map (λ b. b.1) bs)
        (read_from_socket (pos t) 0 (bursts bs polls))
        (read_from_socket (pos t) 0 polls)
read-bursts t [] polls h = (refl, refl)
read-bursts t ((n, bytes) ∷ bs) polls h =
    let (here, end) = read-received t n bytes (bursts bs polls) h.0.0 h.0.1 in
    let (later, same) = read-bursts t bs polls h.1 in
    rw (read-silence_first t n (received bytes ∷ bursts bs polls) (omega (arith, h.0.0)))
      (here ∙ ap (◌∷◌ bytes) later, end ∙ same)

-- More than the limit of silent seconds is the time-out, at whatever the loop would do next but
-- for the end of the daemon.
read-late :
    (t : ℕ) (p : Poll) (polls : List Poll)
    → p ≢ canceled
    → read_from_socket (pos t) (t + 1) (p ∷ polls) ≡ ([], timed_out)
unfolding read_from_socket
read-late t canceled polls h = elim (h refl) [ ]
read-late t silent polls h = let late : ltb t (t + 1) ≡ true = ground arith in simp late
read-late t hung_up polls h = let late : ltb t (t + 1) ≡ true = ground arith in simp late
read-late t (received bytes) polls h = let late : ltb t (t + 1) ≡ true = ground arith in simp late

-- readFromSocket, when packets that are not empty arrive and none after more silent seconds than
-- the time-out `t`, hands every one of them to DataInd, in order and unchanged; and when after them
-- nothing arrives for `t` + 1 seconds, and the daemon is not ended, it then returns 2, the time-out.
pub read_from_socket-bursts :
    (t : ℕ) (bs : List (ℕ × List ℕ)) (p : Poll) (polls : List Poll)
    → All (InTime t) bs
    → p ≢ canceled
    → (packets (read_from_socket (pos t) 0 (bursts bs (replicate (t + 1) silent ++ (p ∷ polls)))).0
        ≡ map (λ b. b.1) bs)
      × ((read_from_socket (pos t) 0 (bursts bs (replicate (t + 1) silent ++ (p ∷ polls)))).1
          ≡ timed_out)
read_from_socket-bursts t bs p polls h go_on =
    let (all, end) = read-bursts t bs (replicate (t + 1) silent ++ (p ∷ polls)) h in
    let late = read-silence_first t (t + 1) (p ∷ polls) (omega arith) ∙ read-late t p polls go_on in
    (all ∙ ap (λ r. map (λ b. b.1) bs ++ packets r.0) late ∙ append-nil _, end ∙ ap (λ r. r.1) late)

-- A charge that the remote can report: 0, 20, 40, 60, 80 or 100 percent.
abbrev pub IsCharge : Callback → Type 0
IsCharge (remote_battery_charge v) = (v ≤ 100) × (v % 20 ≡ 0)
IsCharge (data_ind bytes) = Unit

battery_status-IsCharge : (o : Option ℕ) → All IsCharge (battery_status o)
unfolding battery_status
battery_status-IsCharge none = tt
battery_status-IsCharge (some b) = elim (Bool-cases (leb b 5)) [
  | inl low ↦ simp low ((ground arith, omega arith), tt)
  | inr high ↦ simp high tt
]

-- Whatever the socket gives it, readFromSocket reports no charge but 0, 20, 40, 60, 80 and 100
-- percent.
pub read_from_socket-IsCharge :
    (timeout : ℤ) (seconds : ℕ) (polls : List Poll)
    → All IsCharge (read_from_socket timeout seconds polls).0
unfolding read_from_socket on_data
read_from_socket-IsCharge timeout seconds [] = tt
read_from_socket-IsCharge timeout seconds (canceled ∷ polls) = tt
read_from_socket-IsCharge timeout seconds (silent ∷ polls) =
    elim (Bool-cases (ltb_ℤ timeout (pos seconds))) [
      | inl late ↦ simp late tt
      | inr going ↦ simp going (read_from_socket-IsCharge timeout (seconds + 1) polls)
    ]
read_from_socket-IsCharge timeout seconds (hung_up ∷ polls) =
    elim (Bool-cases (ltb_ℤ timeout (pos seconds))) [
      | inl late ↦ simp late tt
      | inr going ↦ simp going tt
    ]
read_from_socket-IsCharge timeout seconds (received bytes ∷ polls) =
    elim (Bool-cases (ltb_ℤ timeout (pos seconds))) [
      | inl late ↦ simp late tt
      | inr going ↦ elim (Bool-cases (length bytes == 0)) [
        | inl nothing ↦ simp (going, nothing) tt
        | inr some_bytes ↦
            simp (going, some_bytes)
              (All-append _ (battery_status (get_elem? bytes 12)) _
                (battery_status-IsCharge (get_elem? bytes 12))
                (tt, read_from_socket-IsCharge timeout 0 polls))
      ]
    ]
