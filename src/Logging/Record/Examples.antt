-- ===== src/Logging/Record/Examples.antt =====
-- Instances of the theorems on the texts of records.
use https_http_server.Shared.{ℕ, ◌/◌, ◌%◌, ◌≡◌, ◌↔◌, arith, length}
use https_http_server.Logging.Record.Time.{
  Tm, micro, seconds, millis, time_to_string, time_to_string_lem,
}

-- The first day of 1970, in Greenwich.
abbrev first_day : ℕ → Tm
first_day t = record {
  year = 70;
  mon = 0;
  mday = 1;
  hour = t / 3600 % 24;
  min = t / 60 % 60;
  sec = t % 60;
}

time_to_string_lem_example :
    (length (time_to_string micro first_day 3601002003) ≡ 23)
    × ((time_to_string micro first_day 3601002003 ≡ time_to_string micro first_day 3601003003) ↔ (
        (first_day (seconds micro 3601002003) ≡ first_day (seconds micro 3601003003))
        × (millis micro 3601002003 ≡ millis micro 3601003003)))
time_to_string_lem_example =
    time_to_string_lem micro first_day 3601002003 3601003003
      (omega arith, omega arith, omega arith, omega arith, omega arith, omega arith)
      (omega arith, omega arith, omega arith, omega arith, omega arith, omega arith)
