-- ===== src/Stats.antt =====
-- stats/stats.go: the counters behind the mutex. Each method runs with the lock held, so a history
-- is a sequence of calls. Times are nanoseconds since Go's zero time; `now` is what time.Now gives.
pub mod History
pub mod Totals
pub mod Window
pub mod Recent
pub mod Tests
use iot_ephemeral_value_stor.Base.{
  ℕ, ◌+◌, ◌-◌, ◌*◌, ◌%◌, ◌≡◌, Bool, true, false, Option, none, some, List, [], ◌∷◌, ◌++◌, Text,
  text_eq, ltb, ◌==◌, if◌then◌else◌,
}

-- A Go int of 64 bits, as its bit pattern.
abbrev pub int_mod : ℕ
int_mod = 18446744073709551616

abbrev pub int_add : ℕ → ℕ → ℕ
int_add a b = (a + b) % int_mod

abbrev pub hour : ℕ
hour = 3600000000000

pub record RateLimitedIp : Type 0 where
  pub ip : Text
  pub request_count : ℕ

pub record StatsData : Type 0 where
  pub download_count : ℕ
  pub upload_count : ℕ
  pub last24h_download_count : ℕ
  pub last24h_upload_count : ℕ
  pub http_error_count : ℕ
  pub last24h_http_error_count : ℕ
  pub rate_limit_hit_count : ℕ
  pub rate_limited_ips : List RateLimitedIp
  pub start_time : ℕ

-- `totals` is the field `data`, and `last24h` the map from the hour to what happened in it.
pub record Stats : Type 0 where
  pub totals : StatsData
  pub last24h : List (ℕ × StatsData)

-- `StatsData{}`
abbrev pub zero_data : StatsData
zero_data = record {
  download_count = 0;
  upload_count = 0;
  last24h_download_count = 0;
  last24h_upload_count = 0;
  http_error_count = 0;
  last24h_http_error_count = 0;
  rate_limit_hit_count = 0;
  rate_limited_ips = [];
  start_time = 0;
}

unfoldable pub new_stats : ℕ → Stats
new_stats now = record { totals = record zero_data { start_time = now }; last24h = [] }

-- Reading and writing the map of hours.
pub get_bucket : ℕ → List (ℕ × StatsData) → Option StatsData
get_bucket t [] = none
get_bucket t ((u, sd) ∷ m) = if u == t then some sd else get_bucket t m

pub set_bucket : ℕ → StatsData → List (ℕ × StatsData) → List (ℕ × StatsData)
set_bucket t sd [] = (t, sd) ∷ []
set_bucket t sd ((u, old) ∷ m) = if u == t then (u, sd) ∷ m else (u, old) ∷ set_bucket t sd m

abbrev pub or_zero : Option StatsData → StatsData
or_zero none = zero_data
or_zero (some sd) = sd

-- `t.Truncate(time.Hour)`
abbrev pub truncate : ℕ → ℕ
truncate t = t - t % hour

-- `if _, exists := m[now]; !exists { m[now] = StatsData{} }`
abbrev pub ensure_bucket : ℕ → List (ℕ × StatsData) → List (ℕ × StatsData)
ensure_bucket t m = elim (get_bucket t m) [ none ↦ set_bucket t zero_data m | some _ ↦ m ]

unfoldable pub add_to_last24h : ℕ → (StatsData → StatsData) → Stats → Stats
unfolding get_bucket set_bucket
add_to_last24h now update_func s =
    let t = truncate now in
    let m = ensure_bucket t s.last24h in
    record s { last24h = set_bucket t (update_func (or_zero (get_bucket t m))) m }

-- `sd.DownloadCount++` and so on, which the code does both to the totals and in its closures.
abbrev pub count_download : StatsData → StatsData
count_download sd = record sd { download_count = int_add sd.download_count 1 }

abbrev pub count_upload : StatsData → StatsData
count_upload sd = record sd { upload_count = int_add sd.upload_count 1 }

abbrev pub count_http_error : StatsData → StatsData
count_http_error sd = record sd { http_error_count = int_add sd.http_error_count 1 }

unfoldable pub increment_downloads : ℕ → Stats → Stats
increment_downloads now s =
    add_to_last24h now count_download (record s { totals = count_download s.totals })

unfoldable pub increment_uploads : ℕ → Stats → Stats
increment_uploads now s =
    add_to_last24h now count_upload (record s { totals = count_upload s.totals })

unfoldable pub increment_http_errors : ℕ → Stats → Stats
increment_http_errors now s =
    add_to_last24h now count_http_error (record s { totals = count_http_error s.totals })

-- The loop over the slice, and the append where it finds no entry.
pub hit_ip : Text → List RateLimitedIp → List RateLimitedIp
hit_ip ip [] = record { ip = ip; request_count = 1 } ∷ []
hit_ip ip (x ∷ xs) =
    if text_eq x.ip ip
    then record x { request_count = int_add x.request_count 1 } ∷ xs
    else x ∷ hit_ip ip xs

unfoldable pub record_rate_limit_hit : Text → Stats → Stats
unfolding hit_ip
record_rate_limit_hit ip s = record s {
  totals = record s.totals {
    rate_limit_hit_count = int_add s.totals.rate_limit_hit_count 1;
    rate_limited_ips = hit_ip ip s.totals.rate_limited_ips;
  };
}

-- The loop of updateLast24hStats: what is older than the cutoff goes, the rest is added up.
pub keep_since : ℕ → List (ℕ × StatsData) → List (ℕ × StatsData)
keep_since cutoff [] = []
keep_since cutoff ((t, sd) ∷ m) =
    if ltb t cutoff then keep_since cutoff m else (t, sd) ∷ keep_since cutoff m

abbrev pub add_bucket : StatsData → StatsData → StatsData
add_bucket total sd = record total {
  last24h_download_count = int_add total.last24h_download_count sd.download_count;
  last24h_upload_count = int_add total.last24h_upload_count sd.upload_count;
  last24h_http_error_count = int_add total.last24h_http_error_count sd.http_error_count;
}

pub add_since : ℕ → StatsData → List (ℕ × StatsData) → StatsData
add_since cutoff total [] = total
add_since cutoff total ((t, sd) ∷ m) =
    add_since cutoff (if ltb t cutoff then total else add_bucket total sd) m

-- Before Go's zero time there is nothing, so a cutoff that stops at 0 drops what it would drop.
abbrev pub cutoff_at : ℕ → ℕ
cutoff_at now = now - 24 * hour

abbrev pub cleared : StatsData → StatsData
cleared total = record total {
  last24h_download_count = 0;
  last24h_upload_count = 0;
  last24h_http_error_count = 0;
}

unfoldable pub update_last24h_stats : ℕ → Stats → Stats
unfolding keep_since add_since
update_last24h_stats now s = record s {
  totals = add_since (cutoff_at now) (cleared s.totals) s.last24h;
  last24h = keep_since (cutoff_at now) s.last24h;
}

unfoldable pub get_current_stats : ℕ → Stats → Stats × StatsData
unfolding update_last24h_stats
get_current_stats now s = let s' = update_last24h_stats now s in (s', s'.totals)

-- `time.Since` of a start time that is not Go's zero time.
unfoldable pub get_uptime : ℕ → Stats → ℕ
get_uptime now s = if s.totals.start_time == 0 then 0 else now - s.totals.start_time
