-- ===== src/OwDev/Polling.antt =====
-- When a device is due.
use in10dhost.Prelude.{ℕ, ◌-◌, ◌*◌, ◌<◌, ◌≡◌, ◌↔◌, arith, some}
use in10dhost.OwDev.{OwDev, poll_check, poll_next, due, not_due, second}

-- A device is due at a time exactly if `poll_next` gives 0 milliseconds at that time.
pub poll_next_due :
    (now then_now : ℕ) (d : OwDev)
    → ((poll_check now then_now d).0 ≡ due) ↔ (poll_next now d ≡ some 0)
unfolding poll_check poll_next
poll_next_due now then_now d = (λ h. ground arith, λ h. ground arith)

-- A device that was due is not due again until its interval has passed since the time that was
-- noted as its last poll.
pub poll_check_again :
    (now then_now later then_later : ℕ) (d : OwDev)
    → (poll_check now then_now d).0 ≡ due
    → later - then_now < second * d.poll_interval
    → (poll_check later then_later (poll_check now then_now d).1).0 ≡ not_due
unfolding poll_check
poll_check_again now then_now later then_later d h l = ground arith
