-- ===== src/Civil/Calendar.antt =====
-- The Gregorian calendar, day by day, and what the formula of the git shim makes of it.
use pipek.Prelude.{
  ℕ, zero, suc, ◌+◌, ◌-◌, ◌*◌, ◌/◌, ◌%◌, ◌≤◌, ◌<◌, ◌≡◌, refl, ap, sym, ◌∙◌, Bool, true, not, ◌&&◌,
  ◌||◌, ltb, leb, ◌==◌, if◌then◌else◌, arith, Bool-cases, inl, inr, ==_iff, ltb→lt,
}
use pipek.Civil.{Date, date, u32_mod, sub32, year_of_era, day_of_year, civil_date}

unfoldable pub is_leap : ℕ → Bool
is_leap y = y % 4 == 0 && (not (y % 100 == 0) || y % 400 == 0)

unfoldable pub days_in_month : ℕ → ℕ → ℕ
unfolding is_leap
days_in_month y m =
    if m == 4 || m == 6 || m == 9 || m == 11
    then 30
    else if not (m == 2)
    then 31
    else if is_leap y
    then 29
    else 28

unfoldable pub next_day : Date → Date
unfolding days_in_month
next_day t =
    if ltb t.day (days_in_month t.year t.month)
    then date t.year t.month (t.day + 1)
    else if ltb t.month 12
    then date t.year (t.month + 1) 1
    else date (t.year + 1) 1 1

-- The date that many days after 1 January 1970.
unfoldable pub date_after : ℕ → Date
unfolding next_day
date_after zero = date 1970 1 1
date_after (suc n) = next_day (date_after n)

-- Years that begin with March: their number, and the place of a date in them.
abbrev pub march_year : Date → ℕ
march_year t = if leb t.month 2 then t.year - 1 else t.year

abbrev pub march_month : Date → ℕ
march_month t = if leb t.month 2 then t.month + 9 else t.month - 3

abbrev pub march_day : Date → ℕ
march_day t = (153 * march_month t + 2) / 5 + (t.day - 1)

abbrev pub days_before : ℕ → ℕ
days_before y = 365 * y + y / 4 - y / 100 + y / 400

abbrev pub number_of : Date → ℕ
number_of t = days_before (march_year t) + march_day t

pub record IsDate (t : Date) : Type 0 where
  pub day_in : (1 ≤ t.day) × (t.day ≤ days_in_month t.year t.month)
  pub month_in : (1 ≤ t.month) × (t.month ≤ 12)
  pub year_in : 1970 ≤ t.year

next_day-IsDate : (t : Date) → IsDate t → IsDate (next_day t)
unfolding next_day days_in_month
next_day-IsDate t v = ground arith

-- The last day of a month other than February, and of February.
month_end :
    (m : ℕ)
    → m < 12
    → not (m == 2) ≡ true
    → (y : ℕ) → 1 ≤ m
    → number_of (date y (m + 1) 1) ≡ number_of (date y m (days_in_month y m)) + 1
unfolding days_in_month
month_end m h1 h2 y h3 = ground arith

february_end :
    (y : ℕ) → 1970 ≤ y → number_of (date y 3 1) ≡ number_of (date y 2 (days_in_month y 2)) + 1
unfolding days_in_month is_leap
february_end y h = ground arith

year_end : (y : ℕ) → number_of (date (y + 1) 1 1) ≡ number_of (date y 12 31) + 1
year_end y = ground arith

year_of_era_lem :
    (k doy : ℕ)
    → k < 400
    → doy ≤ 305
    → (k ≡ 3 → 1 ≤ doy)
    → year_of_era (365 * k + k / 4 - k / 100 + doy) ≡ k
unfolding year_of_era
year_of_era_lem k doy h1 h2 h3 = ground arith

number_of-within : (y m d : ℕ) → 1 ≤ d → number_of (date y m (d + 1)) ≡ number_of (date y m d) + 1
number_of-within y m d h = omega arith

month_step :
    (y m : ℕ)
    → 1970 ≤ y
    → 1 ≤ m
    → m < 12
    → number_of (date y (m + 1) 1) ≡ number_of (date y m (days_in_month y m)) + 1
month_step y m h1 h2 h3 = elim (Bool-cases (m == 2)) [
  | inl e ↦ let two : m ≡ 2 = (==_iff m 2).0 e in rw two (february_end y h1)
  | inr e ↦ month_end m h3 (rw e) y h2
]

days_in_december : (y : ℕ) → days_in_month y 12 ≡ 31
unfolding days_in_month
days_in_december y = refl

number_of-next : (t : Date) → IsDate t → number_of (next_day t) ≡ number_of t + 1
unfolding next_day
number_of-next t v = elim (Bool-cases (ltb t.day (days_in_month t.year t.month))) [
  | inl e ↦ rw e (number_of-within t.year t.month t.day v.day_in.0)
  | inr e ↦ rw e (
      let last : t.day ≡ days_in_month t.year t.month = ground (arith, v.day_in) in
      elim (Bool-cases (ltb t.month 12)) [
        | inl f ↦ rw f (
            month_step t.year t.month v.year_in v.month_in.0 (ltb→lt _ _ f)
            ∙ ap (λ d. number_of (date t.year t.month d) + 1) (sym last))
        | inr f ↦ rw f (
            let december : t.month ≡ 12 = ground (arith, v.month_in) in
            let d31 : t.day ≡ 31 =
              last ∙ ap (days_in_month t.year) december ∙ days_in_december t.year in
            year_end t.year
            ∙ ap (λ p. number_of p + 1)
                (ap (λ m. date t.year m 31) (sym december) ∙ ap (date t.year t.month) (sym d31)))
      ])
]

pub date_after-IsDate : (n : ℕ) → IsDate (date_after n)
unfolding date_after days_in_month
date_after-IsDate zero = ground arith
date_after-IsDate (suc n) = next_day-IsDate (date_after n) (date_after-IsDate n)

pub number_of-date_after : (n : ℕ) → number_of (date_after n) ≡ n + 719468
unfolding date_after
number_of-date_after zero = refl
number_of-date_after (suc n) =
    omega (arith, number_of-next (date_after n) (date_after-IsDate n), number_of-date_after n)

era_split :
    (y doy days : ℕ)
    → doy ≤ 305
    → days_before y + doy ≡ days
    → (days / 146097 ≡ y / 400)
      × (days - y / 400 * 146097 ≡ 365 * (y % 400) + y % 400 / 4 - y % 400 / 100 + doy)
era_split y doy days h e = omega arith

day_of_year_lem :
    (k doy : ℕ) → k < 400 → doy ≤ 365 → day_of_year (365 * k + k / 4 - k / 100 + doy) k ≡ doy
unfolding day_of_year
day_of_year_lem k doy h1 h2 = omega arith

-- March to December.
month_of_day :
    (m d y : ℕ)
    → 3 ≤ m
    → m ≤ 12
    → 1 ≤ d
    → d ≤ days_in_month y m
    → let doy = (153 * (m - 3) + 2) / 5 + (d - 1) in
      ((5 * doy + 2) % u32_mod / 153 ≡ m - 3)
      × (doy ≤ 305)
      × (sub32 doy ((153 * (m - 3) + 2) / 5) ≡ d - 1)
unfolding days_in_month
month_of_day m d y h1 h2 h3 h4 = ground arith

-- On every date from March to December the shim's date is that of the calendar, but for 1 March of
-- a year that leaves 3 when it is divided by 400.
pub civil_date-date_after :
    (n : ℕ)
    → 3 ≤ (date_after n).month
    → ((date_after n).year % 400 ≡ 3 → (date_after n).month ≡ 3 → 1 < (date_after n).day)
    → civil_date n ≡ date_after n
unfolding civil_date
civil_date-date_after n h ok =
    let t : Date = date_after n in
    let v = date_after-IsDate n in
    let doy : ℕ = (153 * (t.month - 3) + 2) / 5 + (t.day - 1) in
    let k : ℕ = t.year % 400 in
    let (mp, small, d) = month_of_day t.month t.day t.year h v.month_in.1 v.day_in.0 v.day_in.1 in
    let number : days_before t.year + doy ≡ n + 719468 = ground (arith, number_of-date_after n) in
    let (era, doe) = era_split t.year doy (n + 719468) small number in
    let yoe : year_of_era (365 * k + k / 4 - k / 100 + doy) ≡ k =
      year_of_era_lem k doy (omega arith) small (ground arith) in
    rw (era, doe, yoe, day_of_year_lem k doy (omega arith) (omega arith), mp, d) (ground arith)

day_of_year-lt : (doe yoe : ℕ) → day_of_year doe yoe < u32_mod
unfolding day_of_year
day_of_year-lt doe yoe = omega arith

february_era :
    (y days : ℕ)
    → days_before y + 364 ≡ days
    → (days / 146097 ≡ y / 400)
      × (days - y / 400 * 146097 ≡ 365 * (y % 400) + y % 400 / 4 - y % 400 / 100 + 364)
february_era y days e = omega arith

late_year : (k : ℕ) → 12 ≤ k → k < 400 → year_of_era (365 * k + k / 4 - k / 100 + 364) ≡ k + 1
unfolding year_of_era
late_year k h1 h2 = ground arith

wrapped_day : (k : ℕ) → k < 400 → 4294967200 ≤ day_of_year (365 * k + k / 4 - k / 100 + 364) (k + 1)
unfolding day_of_year
wrapped_day k h = omega arith

wrapped_month : (doy : ℕ) → 4294967200 ≤ doy → doy < u32_mod → 1000 ≤ (5 * doy + 2) % u32_mod / 153
wrapped_month doy h1 h2 = omega arith

-- On 28 February of a year whose predecessor leaves 12 or more when it is divided by 400, the shim's
-- date has a month above 12.
pub civil_date_february :
    (n y : ℕ) → date_after n ≡ date y 2 28 → 12 ≤ (y - 1) % 400 → 12 < (civil_date n).month
unfolding civil_date
civil_date_february n y e h =
    let k : ℕ = (y - 1) % 400 in
    let number : days_before (y - 1) + 364 ≡ n + 719468 =
      sym (ap number_of e) ∙ number_of-date_after n in
    let (era, doe) = february_era (y - 1) (n + 719468) number in
    let doy : ℕ = day_of_year (365 * k + k / 4 - k / 100 + 364) (k + 1) in
    let high : 1000 ≤ (5 * doy + 2) % u32_mod / 153 =
      wrapped_month doy (wrapped_day k (omega arith)) (day_of_year-lt _ _) in
    rw (era, doe, late_year k h (omega arith)) (ground arith)
