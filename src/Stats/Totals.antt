-- ===== src/Stats/Totals.antt =====
-- The totals since the start, and the hits of the rate limit by address.
use iot_ephemeral_value_stor.Base.{
  ℕ, suc, ltb, ◌+◌, ◌%◌, ◌≡◌, refl, ap, ◌∙◌, Bool, true, false, List, [], ◌∷◌, Text, text_eq,
  if◌then◌else◌, arith, inl, inr, Bool-cases, eq_of_compare_text, compare_text_refl,
}
use iot_ephemeral_value_stor.Stats.{
  StatsData, Stats, RateLimitedIp, int_mod, int_add, hit_ip, add_since, add_bucket, cleared,
  cutoff_at, get_current_stats, new_stats, increment_downloads, increment_uploads,
  increment_http_errors, record_rate_limit_hit, add_to_last24h,
}
use iot_ephemeral_value_stor.Stats.History.{
  Counter, downloads, uploads, http_errors, Call, increments, hits, reads, increment, after,
  total_of, counted, same_counter, one_if, number_of,
}

-- The calls of RecordRateLimitHit, and of these the ones for an address.
unfoldable pub number_of_hits : List (ℕ × Call) → ℕ
number_of_hits [] = 0
number_of_hits ((t, hits ip) ∷ past) = suc (number_of_hits past)
number_of_hits ((t, _) ∷ past) = number_of_hits past

unfoldable pub number_of_hits_by : Text → List (ℕ × Call) → ℕ
number_of_hits_by who [] = 0
number_of_hits_by who ((t, hits ip) ∷ past) = one_if (text_eq ip who) + number_of_hits_by who past
number_of_hits_by who ((t, _) ∷ past) = number_of_hits_by who past

-- The count that the slice shows for an address; 0 where it has no entry.
unfoldable pub hits_of : Text → List RateLimitedIp → ℕ
hits_of who [] = 0
hits_of who (x ∷ xs) = if text_eq x.ip who then x.request_count else hits_of who xs

total_of-add_bucket :
    (k : Counter) (total sd : StatsData) → total_of k (add_bucket total sd) ≡ total_of k total
total_of-add_bucket downloads total sd = refl
total_of-add_bucket uploads total sd = refl
total_of-add_bucket http_errors total sd = refl

total_of-add_since :
    (k : Counter) (cutoff : ℕ) (total : StatsData) (m : List (ℕ × StatsData))
    → (total_of k (add_since cutoff total m) ≡ total_of k total)
      × ((add_since cutoff total m).rate_limit_hit_count ≡ total.rate_limit_hit_count)
      × ((add_since cutoff total m).rate_limited_ips ≡ total.rate_limited_ips)
unfolding add_since
total_of-add_since k cutoff total [] = (refl, refl, refl)
total_of-add_since k cutoff total ((t, sd) ∷ m) = elim (Bool-cases (ltb t cutoff)) [
  | inl e ↦ rw (e, add_since) (total_of-add_since k cutoff total m)
  | inr e ↦
      let (same, count, ips) = total_of-add_since k cutoff (add_bucket total sd) m in
      rw (e, add_since) (same ∙ total_of-add_bucket k total sd, count, ips)
]

hits_of-hit_ip :
    (who ip : Text) (xs : List RateLimitedIp)
    → hits_of who (hit_ip ip xs)
      ≡ (if text_eq ip who then int_add (hits_of who xs) 1 else hits_of who xs)
unfolding hits_of hit_ip
hits_of-hit_ip who ip [] = ground arith
hits_of-hit_ip who ip (x ∷ xs) = ground (
  arith,
  hits_of-hit_ip who ip xs,
  eq_of_compare_text x.ip ip,
  eq_of_compare_text ip who,
  eq_of_compare_text x.ip who,
  compare_text_refl who,
)

total_of-counted :
    (k j : Counter) (sd : StatsData)
    → total_of k (counted j sd)
      ≡ (if same_counter k j then int_add (total_of k sd) 1 else total_of k sd)
total_of-counted downloads downloads sd = refl
total_of-counted uploads uploads sd = refl
total_of-counted http_errors http_errors sd = refl
total_of-counted _ _ sd = refl

-- What the totals say, which reads do not change.
abbrev Tallies : Counter → Text → List (ℕ × Call) → StatsData → Type 0
Tallies k who past sd =
    (total_of k sd ≡ number_of k past % int_mod)
    × (sd.rate_limit_hit_count ≡ number_of_hits past % int_mod)
    × (hits_of who sd.rate_limited_ips ≡ number_of_hits_by who past % int_mod)

increment-totals :
    (j : Counter) (now : ℕ) (s : Stats) → (increment j now s).totals ≡ counted j s.totals
unfolding increment_downloads increment_uploads increment_http_errors add_to_last24h
increment-totals downloads now s = refl
increment-totals uploads now s = refl
increment-totals http_errors now s = refl

counted-hits :
    (j : Counter) (sd : StatsData)
    → ((counted j sd).rate_limit_hit_count ≡ sd.rate_limit_hit_count)
      × ((counted j sd).rate_limited_ips ≡ sd.rate_limited_ips)
counted-hits downloads sd = (refl, refl)
counted-hits uploads sd = (refl, refl)
counted-hits http_errors sd = (refl, refl)

total_of-cleared : (k : Counter) (sd : StatsData) → total_of k (cleared sd) ≡ total_of k sd
total_of-cleared downloads sd = refl
total_of-cleared uploads sd = refl
total_of-cleared http_errors sd = refl

read-Tallies :
    (k : Counter) (who : Text) (past : List (ℕ × Call)) (now : ℕ) (s : Stats)
    → Tallies k who past s.totals
    → Tallies k who past (get_current_stats now s).1
unfolding get_current_stats
read-Tallies k who past now s (total, count, ips) =
    let (same, same_count, same_ips) =
      total_of-add_since k (cutoff_at now) (cleared s.totals) s.last24h in
    (
      same ∙ total_of-cleared k s.totals ∙ total,
      same_count ∙ count,
      ap (hits_of who) same_ips ∙ ips,
    )

new-Tallies : (k : Counter) (who : Text) (start : ℕ) → Tallies k who [] (new_stats start).totals
unfolding new_stats hits_of number_of number_of_hits number_of_hits_by
new-Tallies downloads who start = (refl, refl, refl)
new-Tallies uploads who start = (refl, refl, refl)
new-Tallies http_errors who start = (refl, refl, refl)

tally :
    (b : Bool) (new old count : ℕ)
    → new ≡ (if b then int_add old 1 else old)
    → old ≡ count % int_mod
    → new ≡ (one_if b + count) % int_mod
tally true new old count e f = omega arith
tally false new old count e f = omega arith

hit-totals :
    (k : Counter) (ip : Text) (s : Stats)
    → total_of k (record_rate_limit_hit ip s).totals ≡ total_of k s.totals
unfolding record_rate_limit_hit
hit-totals downloads ip s = refl
hit-totals uploads ip s = refl
hit-totals http_errors ip s = refl

hit-Tallies :
    (k : Counter) (who : Text) (t : ℕ) (ip : Text) (past : List (ℕ × Call)) (s : Stats)
    → Tallies k who past s.totals
    → Tallies k who ((t, hits ip) ∷ past) (record_rate_limit_hit ip s).totals
unfolding record_rate_limit_hit number_of number_of_hits number_of_hits_by
hit-Tallies k who t ip past s (total, count, ips) = (
  tally false _ _ (number_of k past) (hit-totals k ip s) total,
  omega arith,
  tally (text_eq ip who) _ _ (number_of_hits_by who past)
      (hits_of-hit_ip who ip s.totals.rate_limited_ips) ips,
)

after-Tallies :
    (k : Counter) (who : Text) (start : ℕ) (past : List (ℕ × Call))
    → Tallies k who past (after (new_stats start) past).totals
unfolding after number_of number_of_hits number_of_hits_by get_current_stats
after-Tallies k who start [] = new-Tallies k who start
after-Tallies k who start ((t, increments j) ∷ past) =
    let before = (after (new_stats start) past).totals in
    let (total, count, ips) = after-Tallies k who start past in
    let (same_count, same_ips) = counted-hits j before in
    rw increment-totals (
      tally (same_counter k j) _ _ (number_of k past) (total_of-counted k j before) total,
      same_count ∙ count,
      ap (hits_of who) same_ips ∙ ips,
    )
after-Tallies k who start ((t, hits ip) ∷ past) =
    hit-Tallies k who t ip past (after (new_stats start) past) (after-Tallies k who start past)
after-Tallies k who start ((t, reads) ∷ past) =
    let (total, count, ips) =
      read-Tallies k who past t (after (new_stats start) past) (after-Tallies k who start past) in
    (tally false _ _ (number_of k past) refl total, count, ips)

-- After any history, and whatever the clock does, a read reports for each counter how often it was
-- incremented, for the rate limit how often it was hit, and for each address how often it was hit
-- by that address; all as 64-bit integers.
pub get_current_stats-totals :
    (k : Counter) (who : Text) (start now : ℕ) (past : List (ℕ × Call))
    → let r = (get_current_stats now (after (new_stats start) past)).1 in
      (total_of k r ≡ number_of k past % int_mod)
      × (r.rate_limit_hit_count ≡ number_of_hits past % int_mod)
      × (hits_of who r.rate_limited_ips ≡ number_of_hits_by who past % int_mod)
get_current_stats-totals k who start now past =
    read-Tallies k who past now (after (new_stats start) past) (after-Tallies k who start past)
