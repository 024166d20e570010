-- ===== src/Clock/Tests.antt =====
-- The clock at 23:59:58 on the last day of a year, in decimal digits, with 0x42 in register B, as
-- init_rtc leaves it.
use os.Base.{◌≡◌, refl, arith}
use os.Clock.{RtcTime, get_rtc_time}
use os.Clock.Encoded.{registers, get_rtc_time-registers}

abbrev new_year : RtcTime
new_year = record { second = 58; minute = 59; hour = 23; day = 31; month = 12; year = 26 }

get_rtc_time-registers_example : get_rtc_time (registers 0x42 new_year) ≡ new_year
get_rtc_time-registers_example = get_rtc_time-registers 0x42 new_year refl (record {
  second = omega arith;
  minute = omega arith;
  hour = omega arith;
  day = omega arith;
  month = omega arith;
  year = omega arith;
})
