-- ===== src/Chip/Tests.antt =====
-- A chip that is busy for two reads.
use in10dhost.Prelude.{ℕ, ◌+◌, ◌<◌, false, ltb, if◌then◌else◌, [], arith}
use in10dhost.Prelude.Int.{pos}
use in10dhost.Chip.{I2c, Chip, busy_wait, read_byte, set_read_ptr, ptr_status}
use in10dhost.Chip.Wait.{IsAnswer, IsAfter, busy_wait-IsAnswer}

pub slow-lt : (s : ℕ) → (if ltb s 2 then 1 else 2) < 256
slow-lt s = ground arith

abbrev slow : I2c
slow = record {
  St = ℕ;
  send = λ xs s. (pos 1, s);
  receive = λ s. ((pos 1, if ltb s 2 then 1 else 2), s + 1);
  receive-lt = slow-lt;
}

abbrev started : Chip slow
started = record {
  adapter = 0;
  last_err = 0;
  read_ptr = 0;
  channel = 0xff;
  address = [];
  last_discrepancy = 0;
  family_discrepancy = 0;
  exhausted = false;
}

busy_wait-IsAnswer_example :
    IsAnswer slow (busy_wait slow started)
    × ((n : ℕ) × IsAfter slow 500
          (read_byte slow (set_read_ptr slow ptr_status started)).1
          (busy_wait slow started)
          n)
busy_wait-IsAnswer_example = busy_wait-IsAnswer slow started (omega arith)
