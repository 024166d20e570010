-- ===== src/Clock.antt =====
-- Kernel/kernel/Time.c: the reading of the clock. Its registers are a parameter, a function from their
-- numbers to their bytes, at a time when the clock does not update them.
pub mod Encoded
mod Tests
use os.Base.{
  ℕ, ◌+◌, ◌-◌, ◌*◌, ◌/◌, ◌%◌, Bool, not, ◌&&◌, ltb, ◌==◌, if◌then◌else◌, u8, bit_and, bit_or,
}

-- struct rtc_time
pub record RtcTime : Type 0 where
  pub second : ℕ
  pub minute : ℕ
  pub hour : ℕ
  pub day : ℕ
  pub month : ℕ
  pub year : ℕ

-- A byte of two decimal digits, and an hour of two with the bit for the afternoon
unfoldable pub from_bcd : ℕ → ℕ
from_bcd b = u8 (bit_and b 0x0F + b / 16 * 10)

unfoldable pub hour_from_bcd : ℕ → ℕ
hour_from_bcd b = u8 (bit_or (bit_and b 0x0F + bit_and b 0x70 / 16 * 10) (bit_and b 0x80))

-- The hour in the afternoon of a 12-hour clock
unfoldable pub afternoon : ℕ → ℕ
afternoon b = (bit_and b 0x7F + 12) % 24

unfoldable pub get_rtc_time : (ℕ → ℕ) → RtcTime
get_rtc_time cmos =
    let reg_b = cmos 0x0B in
    let bcd = bit_and reg_b 0x04 == 0 in
    let hour = if bcd then hour_from_bcd (cmos 4) else cmos 4 in
    let day = if bcd then from_bcd (cmos 7) else cmos 7 in
    let hour' =
      if (bit_and reg_b 0x02 == 0) && not (bit_and hour 0x80 == 0) then afternoon hour else hour in
    record {
      second = if bcd then from_bcd (cmos 0) else cmos 0;
      minute = if bcd then from_bcd (cmos 2) else cmos 2;
      hour = if ltb 24 hour' then hour' - 24 else hour';
      day = if ltb 24 hour' then u8 (day + 1) else day;
      month = if bcd then from_bcd (cmos 8) else cmos 8;
      year = if bcd then from_bcd (cmos 9) else cmos 9;
    }
