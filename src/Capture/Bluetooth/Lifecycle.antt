-- ===== src/Capture/Bluetooth/Lifecycle.antt =====
-- src/capture/capture_bluez.c: the sockets from InitcaptureLoop to the end of captureLoop.
use bdremote_ng.Prelude.{ℕ, ℤ, pos, Option, none, some, List, [], ◌∷◌, ◌≡◌, refl, arith}
use bdremote_ng.Sys.{Env, Trace}
use bdremote_ng.Sys.Descriptors.{IsBalanced}
use bdremote_ng.Capture.{CaptureData}
use bdremote_ng.Capture.Server.{Meeting}
use bdremote_ng.Capture.Server.Connections.{run_server-ClosesAccepted}
use bdremote_ng.Capture.Bluetooth.{Address, Bluez, serve_address, capture_loop, parsed}

serve_address-IsBalanced :
    (env : Env) (csk isk timeout : ℤ) (address : Option Address) (ms : List Meeting) (t : Trace)
    (n : ℕ)
    → IsBalanced (pos n) [] t [] (serve_address env csk isk timeout address ms t).1
unfolding serve_address
serve_address-IsBalanced env csk isk timeout none ms t n = refl
serve_address-IsBalanced env csk isk timeout (some address) ms t n =
    omega (arith, run_server-ClosesAccepted env csk isk timeout address ms t n)

-- captureLoop closes the three sockets, and leaves nothing else open.
pub capture_loop-IsBalanced :
    (bt : Bluez) (env : Env) (cd : CaptureData) (ms : List Meeting) (t : Trace) (ctl csk isk : ℤ)
    (n : ℕ)
    → cd.sockets ≡ ctl ∷ csk ∷ isk ∷ []
    → IsBalanced (pos n) cd.sockets t [] (capture_loop bt env cd ms t).1
unfolding capture_loop
capture_loop-IsBalanced bt env cd ms t ctl csk isk n e = simp e (
    omega
      (arith, serve_address-IsBalanced env csk isk cd.timeout (parsed bt cd.dest_address) ms t n))
