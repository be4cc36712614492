-- ===== src/Config/TimeOrder.antt =====
-- What normalizeTimes gives: times of a day, strictly increasing.
use mathlib.Core.Path.{subst}
use cpa_auto_refresh_quota.Base.Number.{atoi}
use cpa_auto_refresh_quota.Base.Int.{ℤ, pos, negsuc}
use cpa_auto_refresh_quota.Base.Text.{byte_length}
use cpa_auto_refresh_quota.Base.{
  ℕ, ◌≤◌, ◌<◌, String, ◌≡◌, refl, sym, ap, ◌≢◌, inl, inr, true, false, ◌||◌, Option, none, some,
  List, [], ◌∷◌, arith, eq_refl, ltb, Bool-cases, length, All, All-append, All-map, Pairwise,
  Pairwise-snoc, refuse_if, >>=-eq-ok, ok_inj, refuse_if-eq-ok, ok,
}
use cpa_auto_refresh_quota.Base.Dict.{contains, contains-set_add}
use cpa_auto_refresh_quota.Config.Times.{
  max_time_points, TimeError, between, parse_unit, time_text, daily_time, parse_parts,
  parse_daily_time, add_time, collect_times, earlier, normalize_times, too_many_times, bad_unit,
}
use cpa_auto_refresh_quota.Config.{DailyTime, seconds_since_midnight}
use cpa_auto_refresh_quota.Sort.{
  sort_slice, IsOrdered, sort_slice-All, sort_slice-Pairwise, sort_slice-IsOrdered,
}

-- A time of a day, with its text as the program writes it.
pub record IsTime (t : DailyTime) : Type 0 where
  pub hour_bound : t.hour ≤ 23
  pub minute_bound : t.minute ≤ 59
  pub second_bound : t.second ≤ 59
  pub text_shape : t.text ≡ time_text t.hour t.minute t.second

between-bounds :
    (low high : ℕ) (e : TimeError) (v : Option ℤ) (n : ℕ) → between low high e v ≡ ok n → n ≤ high
unfolding between
between-bounds low high e none n h = cc
between-bounds low high e (some (negsuc m)) n h = cc
between-bounds low high e (some (pos m)) n h = ground arith

parse_unit-bounds :
    (value name text : String) (low high n : ℕ)
    → parse_unit value name text low high ≡ ok n
    → n ≤ high
unfolding parse_unit
parse_unit-bounds value name text low high n h =
    elim (Bool-cases (ltb (byte_length text) 1 || ltb 2 (byte_length text))) [
      | inl e ↦ let h' = rw e at h in cc
      | inr e ↦ between-bounds low high (bad_unit name value) (atoi text) n (rw e at h)
    ]

daily_time-IsTime :
    (t : DailyTime) (hour minute second : ℕ)
    → daily_time hour minute second ≡ t
    → hour ≤ 23
    → minute ≤ 59
    → second ≤ 59
    → IsTime t
daily_time-IsTime t hour minute second e h m s =
    subst IsTime e
      (record { hour_bound = h; minute_bound = m; second_bound = s; text_shape = refl })

parse_daily_time-IsTime :
    (value : String) (parts : List String) (t : DailyTime)
    → parse_parts value parts ≡ ok t
    → IsTime t
unfolding parse_parts
parse_daily_time-IsTime value [] t h = cc
parse_daily_time-IsTime value (a ∷ []) t h = cc
parse_daily_time-IsTime value (a ∷ b ∷ []) t h =
    let (hour, eh, h1) = >>=-eq-ok (parse_unit value "hour" a 0 23) _ h in
    let (minute, em, h2) = >>=-eq-ok (parse_unit value "minute" b 0 59) _ h1 in
    daily_time-IsTime t hour minute 0 (ok_inj h2) (parse_unit-bounds value _ a 0 23 hour eh)
      (parse_unit-bounds value _ b 0 59 minute em) (omega arith)
parse_daily_time-IsTime value (a ∷ b ∷ c ∷ []) t h =
    let (hour, eh, h1) = >>=-eq-ok (parse_unit value "hour" a 0 23) _ h in
    let (minute, em, h2) = >>=-eq-ok (parse_unit value "minute" b 0 59) _ h1 in
    let (second, es, h3) = >>=-eq-ok (parse_unit value "second" c 0 59) _ h2 in
    daily_time-IsTime t hour minute second (ok_inj h3) (parse_unit-bounds value _ a 0 23 hour eh)
      (parse_unit-bounds value _ b 0 59 minute em) (parse_unit-bounds value _ c 0 59 second es)
parse_daily_time-IsTime value (a ∷ b ∷ c ∷ d ∷ parts) t h = cc

-- The times of the loop, and that their texts are pairwise different and seen.
record Loop (st : List String × List DailyTime) : Type 0 where
  times : All IsTime st.1
  distinct : Pairwise (λ s t. s.text ≢ t.text) st.1
  seen : All (λ t. contains t.text st.0 ≡ true) st.1

apart :
    (seen : List String) (out : List DailyTime) (k : String)
    → contains k seen ≡ false
    → All (λ t. contains t.text seen ≡ true) out
    → All (λ t. t.text ≢ k) out
apart seen out k new h = All-map _ _ out (λ t ht e. cc (ap (λ x. contains x seen) e, ht, new)) h

add_time-Loop :
    (st : List String × List DailyTime) (t : DailyTime) → IsTime t → Loop st → Loop (add_time st t)
unfolding add_time
add_time-Loop (seen, out) t ht v = elim (Bool-cases (contains t.text seen)) [
  | inl e ↦ rw e v
  | inr e ↦ rw e (record {
    times = All-append IsTime out (t ∷ []) v.times (ht, tt);
    distinct =
        Pairwise-snoc (λ s t. s.text ≢ t.text) out t v.distinct (apart seen out t.text e v.seen);
    seen =
        All-append _ out (t ∷ [])
          (All-map _ _ out (λ s hs. ground (arith, contains-set_add t.text s.text seen, hs)) v.seen)
          (ground (arith, contains-set_add t.text t.text seen, eq_refl t.text), tt);
  })
]

collect_times-Loop :
    (st : List String × List DailyTime) (values : List String)
    (after : List String × List DailyTime)
    → collect_times st values ≡ ok after
    → Loop st
    → Loop after
unfolding collect_times
collect_times-Loop st [] after h v = subst Loop (ok_inj h) v
collect_times-Loop st (value ∷ values) after h v =
    let (t, et, rest) = >>=-eq-ok (parse_daily_time value) _ h in
    collect_times-Loop (add_time st t) values after rest
      (add_time-Loop st t (unfold parse_daily_time in parse_daily_time-IsTime value _ t et) v)

-- Two times at the same second of the day have the same text.
same-second :
    (s t : DailyTime)
    → IsTime s
    → IsTime t
    → seconds_since_midnight s ≡ seconds_since_midnight t
    → s.text ≡ t.text
unfolding seconds_since_midnight
same-second s t hs ht e =
    let eh : s.hour ≡ t.hour =
      omega (arith, hs.minute_bound, hs.second_bound, ht.minute_bound, ht.second_bound, e) in
    let em : s.minute ≡ t.minute =
      omega (arith, hs.minute_bound, hs.second_bound, ht.minute_bound, ht.second_bound, e) in
    let es : s.second ≡ t.second =
      omega (arith, hs.minute_bound, hs.second_bound, ht.minute_bound, ht.second_bound, e) in
    cc (hs.text_shape, ht.text_shape, eh, em, es)

abbrev pub IsBefore : DailyTime → DailyTime → Type 0
IsBefore s t = seconds_since_midnight s < seconds_since_midnight t

strictly :
    (s : DailyTime) (times : List DailyTime)
    → IsTime s
    → All IsTime times
    → All (λ t. s.text ≢ t.text) times
    → All (λ t. earlier t s ≡ false) times
    → All (IsBefore s) times
unfolding earlier
strictly s [] hs ht apart order = tt
strictly s (t ∷ times) hs ht apart order = (
  ground (arith, order.0, same-second s t hs ht.0, apart.0),
  strictly s times hs ht.1 apart.1 order.1,
)

Pairwise-strictly :
    (times : List DailyTime)
    → All IsTime times
    → Pairwise (λ s t. s.text ≢ t.text) times
    → IsOrdered earlier times
    → Pairwise IsBefore times
Pairwise-strictly [] h apart order = tt
Pairwise-strictly (t ∷ times) h apart order =
    (strictly t times h.0 h.1 apart.0 order.0, Pairwise-strictly times h.1 apart.1 order.1)

-- The times that normalizeTimes accepts are at most 64, each of them a time of a day with its text
-- in the form HH:MM:SS, and the seconds from midnight strictly increase along the list.
pub normalize_times_lem :
    (values : List String) (times : List DailyTime)
    → normalize_times values ≡ ok times
    → (length values ≤ 64) × All IsTime times × Pairwise IsBefore times
unfolding normalize_times
normalize_times_lem values times h =
    let (_, bound, h1) =
      >>=-eq-ok (refuse_if (ltb max_time_points (length values)) too_many_times) _ h in
    let (st, collected, h2) = >>=-eq-ok (collect_times ([], []) values) _ h1 in
    let v =
      collect_times-Loop ([], []) values st collected
        (record { times = tt; distinct = tt; seen = tt }) in
    let all = sort_slice-All earlier IsTime st.1 v.times in
    let e = ok_inj h2 in
    (
      (let b = refuse_if-eq-ok _ _ _ bound in ground arith),
      subst (All IsTime) e all,
      subst (Pairwise IsBefore) e (
          Pairwise-strictly (sort_slice earlier st.1) all
            (sort_slice-Pairwise earlier _ (λ s t n q. n (sym q)) st.1 v.distinct)
            (sort_slice-IsOrdered earlier (λ s. unfold earlier in ground arith)
              (λ a b c p q. unfold earlier in ground arith) st.1)),
    )
