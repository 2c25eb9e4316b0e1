-- ===== src/Logging/Record/Time.antt =====
-- `time_to_string`, of src/logging/src/logging.cc. A time is the number of the clock's ticks since
-- 1970. `localtime_r` is a parameter; `fmt` prints a number of `%Y`, `%m` and the like, and of `{:03}`,
-- with zeros before it up to its width.
use https_http_server.Shared.{
  ℕ, zero, suc, ◌+◌, ◌-◌, ◌*◌, ◌/◌, ◌%◌, ◌^◌, ◌≤◌, ◌<◌, ◌≡◌, ◌↔◌, refl, sym, ap, ap₂, ◌∙◌, [], ◌∷◌,
  ◌++◌, parts, Text, length, length-append, drop, arith,
}
use native.Mathlib.Nat.{pow-suc}
use https_http_server.Codec.Serialize.{digits, to_decimal}
use https_http_server.Codec.Serialize.Reading.{
  read_decimal, read_decimal-to_decimal, read_decimal-zero,
}

-- `std::tm`: the year counts from 1900, and the month from 0.
pub record Tm : Type 0 where
  pub year : ℕ
  pub mon : ℕ
  pub mday : ℕ
  pub hour : ℕ
  pub min : ℕ
  pub sec : ℕ

abbrev pub zeros : ℕ → Text
zeros zero = []
zeros (suc n) = b'0' ∷ zeros n

-- A number with zeros before it up to a width.
unfoldable pub pad : ℕ → ℕ → Text
unfolding to_decimal
pad w n = let s = to_decimal n in zeros (w - length s) ++ s

-- `{:%Y-%m-%d %H:%M:%S}`
unfoldable pub date_text : Tm → Text
unfolding pad
date_text t =
    pad 4 (t.year + 1900)
    ++ (b'-'
        ∷ (pad 2 (t.mon + 1)
            ++ (b'-'
                ∷ (pad 2 t.mday
                    ++ (b' ' ∷ (pad 2 t.hour ++ (b':' ∷ (pad 2 t.min ++ (b':' ∷ pad 2 t.sec)))))))))

-- The clocks of the two libraries, with ticks of a microsecond and of a nanosecond.
pub data Clock : Type 0 where
  micro nano : Clock

-- The ticks of a millisecond.
abbrev pub ticks : Clock → ℕ
ticks micro = 1000
ticks nano = 1000000

-- `floor`, and `duration_cast` of what is left.
abbrev pub seconds : Clock → ℕ → ℕ
seconds k tp = tp / (1000 * ticks k)

abbrev pub millis : Clock → ℕ → ℕ
millis k tp = (tp - seconds k tp * (1000 * ticks k)) / ticks k

-- `time_to_string`
unfoldable pub time_to_string : Clock → (ℕ → Tm) → ℕ → Text
unfolding date_text pad
time_to_string k localtime tp =
    let sec = seconds k tp in let ms = millis k tp in date_text (localtime sec) ++ (b'.' ∷ pad 3 ms)

length-digits : (w fuel n : ℕ) → n < 10 ^ suc w → length (digits fuel n) ≤ suc w
unfolding digits
length-digits w zero n h = omega arith
length-digits zero (suc fuel) n h = ground arith
length-digits (suc w) (suc fuel) n h = ground (
  arith,
  pow-suc 10 (suc w),
  length-digits w fuel (n / 10),
  length-append (digits fuel (n / 10)) ((48 + n % 10) ∷ []),
)

length-zeros : (n : ℕ) → length (zeros n) ≡ n
length-zeros zero = refl
length-zeros (suc n) = ap suc (length-zeros n)

length-pad : (w n : ℕ) → n < 10 ^ suc w → length (pad (suc w) n) ≡ suc w
unfolding pad to_decimal
length-pad w n h =
    let front = zeros (suc w - length (to_decimal n)) in
    omega (
      arith,
      length-append front (to_decimal n),
      length-zeros (suc w - length (to_decimal n)),
      length-digits w (suc n) n h,
    )

read-zeros : (k : ℕ) (s : Text) → read_decimal (zeros k ++ s) ≡ read_decimal s
read-zeros zero s = refl
read-zeros (suc k) s = read_decimal-zero (zeros k ++ s) ∙ read-zeros k s

read-pad : (w n : ℕ) → read_decimal (pad w n) ≡ n
unfolding pad
read-pad w n = read-zeros (w - length (to_decimal n)) (to_decimal n) ∙ read_decimal-to_decimal n

pad-injective : (w n m : ℕ) → pad w n ≡ pad w m → n ≡ m
pad-injective w n m e = sym (read-pad w n) ∙ (ap read_decimal e ∙ read-pad w m)

-- A number, a character behind it, and the rest.
next_number :
    (w n m c : ℕ) (rest rest' : Text)
    → n < 10 ^ suc w
    → m < 10 ^ suc w
    → pad (suc w) n ++ (c ∷ rest) ≡ pad (suc w) m ++ (c ∷ rest')
    → (n ≡ m) × (rest ≡ rest')
next_number w n m c rest rest' hn hm e =
    let (front, back) =
      parts (pad (suc w) n) (pad (suc w) m) (c ∷ rest) (c ∷ rest')
        (length-pad w n hn ∙ sym (length-pad w m hm)) e in
    (pad-injective (suc w) n m front, ap (drop 1) back)

length-next :
    (w n c : ℕ) (rest : Text)
    → n < 10 ^ suc w
    → length (pad (suc w) n ++ (c ∷ rest)) ≡ suc w + suc (length rest)
length-next w n c rest h =
    length-append (pad (suc w) n) (c ∷ rest) ∙ ap (λ k. k + suc (length rest)) (length-pad w n h)

-- A time in the years 1900 to 9999, as `localtime_r` gives it; a minute may have a leap second.
abbrev pub IsTm : Tm → Type 0
IsTm t =
    (t.year + 1900 < 10000)
    × (t.mon < 12)
    × (t.mday < 32)
    × (t.hour < 24)
    × (t.min < 60)
    × (t.sec < 61)

length-date_text : (t : Tm) → IsTm t → length (date_text t) ≡ 19
unfolding date_text
length-date_text t (y, mo, d, h, mi, s) = omega (
  arith,
  length-next 3 (t.year + 1900) b'-' _ y,
  length-next 1 (t.mon + 1) b'-' _ (omega arith),
  length-next 1 t.mday b' ' _ (omega arith),
  length-next 1 t.hour b':' _ (omega arith),
  length-next 1 t.min b':' _ (omega arith),
  length-pad 1 t.sec (omega arith),
)

date_text-injective : (t u : Tm) → IsTm t → IsTm u → date_text t ≡ date_text u → t ≡ u
unfolding date_text
date_text-injective t u (y, mo, d, h, mi, s) (y', mo', d', h', mi', s') e =
    let (year, e1) = next_number 3 (t.year + 1900) (u.year + 1900) b'-' _ _ y y' e in
    let (mon, e2) = next_number 1 (t.mon + 1) (u.mon + 1) b'-' _ _ (omega arith) (omega arith) e1 in
    let (mday, e3) = next_number 1 t.mday u.mday b' ' _ _ (omega arith) (omega arith) e2 in
    let (hour, e4) = next_number 1 t.hour u.hour b':' _ _ (omega arith) (omega arith) e3 in
    let (min, e5) = next_number 1 t.min u.min b':' _ _ (omega arith) (omega arith) e4 in
    same_tm t u (omega (arith, year)) (omega (arith, mon)) mday hour min
      (pad-injective 2 t.sec u.sec e5)
  where
    same_tm :
        (t u : Tm)
        → t.year ≡ u.year
        → t.mon ≡ u.mon
        → t.mday ≡ u.mday
        → t.hour ≡ u.hour
        → t.min ≡ u.min
        → t.sec ≡ u.sec
        → t ≡ u
    same_tm t u a b c d e f =
        λ i. record { year = a i; mon = b i; mday = c i; hour = d i; min = e i; sec = f i }

millis_lt : (k : Clock) (tp : ℕ) → millis k tp < 1000
millis_lt micro tp = omega arith
millis_lt nano tp = omega arith

-- The text of a time has 23 characters, where the local time is in the years 1900 to 9999; and two
-- times have the same text exactly if they have the same local time, to the second, and the same
-- milliseconds.
pub time_to_string_lem :
    (k : Clock) (localtime : ℕ → Tm) (tp tp' : ℕ)
    → IsTm (localtime (seconds k tp))
    → IsTm (localtime (seconds k tp'))
    → (length (time_to_string k localtime tp) ≡ 23)
      × ((time_to_string k localtime tp ≡ time_to_string k localtime tp')
          ↔ ((localtime (seconds k tp) ≡ localtime (seconds k tp')) × (millis k tp ≡ millis k tp')))
unfolding time_to_string
time_to_string_lem k localtime tp tp' h h' =
    let t = localtime (seconds k tp) in
    let t' = localtime (seconds k tp') in
    let date = length-date_text t h in
    let small = millis_lt k tp in
    (
      omega (
        arith,
        length-append (date_text t) (b'.' ∷ pad 3 (millis k tp)),
        date,
        length-pad 2 (millis k tp) small,
      ),
      (
        λ e.
            let (front, back) =
              parts (date_text t) (date_text t') _ _ (date ∙ sym (length-date_text t' h')) e in
            (
              date_text-injective t t' h h' front,
              pad-injective 3 (millis k tp) (millis k tp') (ap (drop 1) back),
            ),
        λ e. ap₂ (λ x m. date_text x ++ (b'.' ∷ pad 3 m)) e.0 e.1,
      ),
    )
