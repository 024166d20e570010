-- ===== src/Clock/Encoded.antt =====
-- get_rtc_time reads back a time that the registers hold in either form of a 24-hour clock.
use os.Base.{
  ℕ, ◌+◌, ◌*◌, ◌/◌, ◌%◌, ◌<◌, ◌≡◌, refl, Bool, true, false, ltb, ◌==◌, if◌then◌else◌, arith,
  bit_and, passes, passes_at,
}
use os.Clock.{RtcTime, from_bcd, hour_from_bcd, get_rtc_time}

-- A number of two digits as a byte
abbrev pub to_bcd : ℕ → ℕ
to_bcd n = n / 10 * 16 + n % 10

abbrev pub coded : Bool → ℕ → ℕ
coded bcd n = if bcd then to_bcd n else n

-- The registers of a clock with the byte `b` in register B and the time `t`, in decimal digits or not
abbrev pub registers_in : Bool → ℕ → RtcTime → ℕ → ℕ
registers_in bcd b t r =
    if r == 0
    then coded bcd t.second
    else (if r == 2
        then coded bcd t.minute
        else (if r == 4
            then coded bcd t.hour
            else (if r == 7
                then coded bcd t.day
                else (if r == 8
                    then coded bcd t.month
                    else (if r == 9 then coded bcd t.year else (if r == 0x0B then b else 0))))))

-- Bit 2 of register B says whether the numbers are binary.
abbrev pub registers : ℕ → RtcTime → ℕ → ℕ
registers b = registers_in (bit_and b 0x04 == 0) b

pub record IsTime (t : RtcTime) : Type 0 where
  pub second : t.second < 60
  pub minute : t.minute < 60
  pub hour : t.hour < 24
  pub day : t.day < 32
  pub month : t.month < 13
  pub year : t.year < 100

bcd_table : passes (λ n. from_bcd (to_bcd n) == n) 100 ≡ true
unfolding passes from_bcd
bcd_table = refl

hour_table : passes (λ n. hour_from_bcd (to_bcd n) == n) 24 ≡ true
unfolding passes hour_from_bcd
hour_table = refl

from_bcd-to_bcd : (n : ℕ) → n < 100 → from_bcd (to_bcd n) ≡ n
from_bcd-to_bcd n lt =
    let found = passes_at (λ k. from_bcd (to_bcd k) == k) 100 lt bcd_table in ground (arith, found)

hour_from_bcd-to_bcd : (n : ℕ) → n < 24 → hour_from_bcd (to_bcd n) ≡ n
hour_from_bcd-to_bcd n lt =
    let found = passes_at (λ k. hour_from_bcd (to_bcd k) == k) 24 lt hour_table in
    ground (arith, found)

get_rtc_time-registers_in :
    (bcd : Bool) (b : ℕ) (t : RtcTime)
    → (bit_and b 0x04 == 0) ≡ bcd
    → (bit_and b 0x02 == 0) ≡ false
    → IsTime t
    → get_rtc_time (registers_in bcd b t) ≡ t
unfolding get_rtc_time
get_rtc_time-registers_in true b t form day_hours is =
    let late : ltb 24 t.hour ≡ false = ground (arith, is.hour) in
    rw
      (
        get_rtc_time,
        form,
        day_hours,
        from_bcd-to_bcd t.second (omega (arith, is.second)),
        from_bcd-to_bcd t.minute (omega (arith, is.minute)),
        hour_from_bcd-to_bcd t.hour is.hour,
        from_bcd-to_bcd t.day (omega (arith, is.day)),
        from_bcd-to_bcd t.month (omega (arith, is.month)),
        from_bcd-to_bcd t.year is.year,
        late,
      )
      refl
get_rtc_time-registers_in false b t form day_hours is =
    let late : ltb 24 t.hour ≡ false = ground (arith, is.hour) in
    rw (get_rtc_time, form, day_hours, late) refl

-- From a 24-hour clock that holds a time of the calendar, get_rtc_time reads this time, whatever
-- the byte in register B with its bit 1, for 24 hours, set: bit 2 of it says whether the numbers
-- are binary or decimal digits. Seconds and minutes are below 60, the hour is below 24, the day at
-- most 31, the month at most 12 and the year below 100.
pub get_rtc_time-registers :
    (b : ℕ) (t : RtcTime)
    → (bit_and b 0x02 == 0) ≡ false
    → IsTime t
    → get_rtc_time (registers b t) ≡ t
get_rtc_time-registers b t day_hours is =
    get_rtc_time-registers_in (bit_and b 0x04 == 0) b t refl day_hours is
