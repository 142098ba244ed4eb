-- ===== src/Queue/Deadline.antt =====
-- src/q.c: the deadline of queueRemNonBlock.
use bdremote_ng.Prelude.{◌+◌, ◌*◌, ◌<◌, ◌≤◌, ◌≡◌, ◌↔◌, arith}
use bdremote_ng.Prelude.{ℕ}
use bdremote_ng.Sys.{Timeval}
use bdremote_ng.Queue.{deadline}

-- For a wait of at most 2147 milliseconds, whose nanoseconds an int holds, the deadline lies the given number of milliseconds after the time of day, and it is one that
-- pthread_cond_timedwait takes, with less than a second of nanoseconds, exactly when the microseconds
-- of the time of day and the wait together stay below one second.
pub deadline_lem :
    (tp : Timeval) (n : ℕ)
    → n ≤ 2147
    → ((deadline tp n).tv_sec * 1000000000 + (deadline tp n).tv_nsec
        ≡ (tp.tv_sec * 1000000 + tp.tv_usec + n * 1000) * 1000)
      × (((deadline tp n).tv_nsec < 1000000000) ↔ (tp.tv_usec + n * 1000 < 1000000))
unfolding deadline
deadline_lem tp n small = (omega arith, (λ h. omega (arith, h), λ h. omega (arith, h)))
