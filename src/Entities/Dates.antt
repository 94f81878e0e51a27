-- ===== src/Entities/Dates.antt =====
-- `datetime.date`: the order of dates and their difference in days, by the proleptic Gregorian
-- ordinal.
use arche_api.Base.{
  ℕ, ◌+◌, ◌-◌, ◌*◌, ◌/◌, ◌%◌, ◌≡◌, refl, ◌↔◌, Bool, true, not, ◌&&◌, ◌||◌, if◌then◌else◌, arith,
  eqb, ltb, leb, Eq,
}
use arche_api.Base.Int.{ℤ, pos, sub_ℕ}

pub record Date : Type 0 where
  pub year : ℕ
  pub month : ℕ
  pub day : ℕ

-- Years from 1 on, in the calendar that Python extends backwards.
abbrev pub date : (year month day : ℕ) → Date
date year month day = record { year = year; month = month; day = day }

abbrev pub date_beq : Date → Date → Bool
date_beq a b = eqb a.year b.year && eqb a.month b.month && eqb a.day b.day

pub date_beq_iff : (a b : Date) → (date_beq a b ≡ true) ↔ (a ≡ b)
date_beq_iff a b = ground arith

instance abbrev pub date_eq : Eq Date
date_eq = record { test = date_beq; test_iff = date_beq_iff }

-- `a <= b`
abbrev pub date_leb : Date → Date → Bool
date_leb a b =
    ltb a.year b.year
    || (eqb a.year b.year && (ltb a.month b.month || (eqb a.month b.month && leb a.day b.day)))

unfoldable pub is_leap : ℕ → Bool
is_leap y = eqb (y % 4) 0 && (not (eqb (y % 100) 0) || eqb (y % 400) 0)

-- The days of the year before the month begins.
unfoldable pub days_before_month : ℕ → ℕ → ℕ
unfolding is_leap
days_before_month y m =
    let leap : ℕ = if is_leap y then 1 else 0 in
    if leb m 1
    then 0
    else if leb m 2
    then 31
    else leap
      + (if leb m 3
          then 59
          else if leb m 4
          then 90
          else if leb m 5
          then 120
          else if leb m 6
          then 151
          else if leb m 7
          then 181
          else if leb m 8
          then 212
          else if leb m 9
          then 243
          else if leb m 10
          then 273
          else if leb m 11
          then 304
          else 334)

-- `d.toordinal()`
unfoldable pub to_ordinal : Date → ℕ
unfolding days_before_month
to_ordinal d =
    let y = d.year - 1 in
    y * 365 + y / 4 - y / 100 + y / 400 + days_before_month d.year d.month + d.day

-- `(a - b).days`
unfoldable pub days_between : Date → Date → ℤ
unfolding to_ordinal
days_between a b = sub_ℕ (to_ordinal a) (to_ordinal b)

date_test : days_between (date 2024 12 31) (date 2023 12 31) ≡ pos 366
unfolding days_between
date_test = refl
