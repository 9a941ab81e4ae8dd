-- ===== src/Stats/History.antt =====
-- Histories of calls, newest first, and what a history holds.
use iot_ephemeral_value_stor.Base.{ℕ, ◌+◌, ◌≤◌, Bool, true, false, ◌&&◌, List, [], ◌∷◌, Text, leb}
use iot_ephemeral_value_stor.Stats.{
  StatsData, Stats, count_download, count_upload, count_http_error, increment_downloads,
  increment_uploads, increment_http_errors, record_rate_limit_hit, get_current_stats, truncate,
}

pub data Counter : Type 0 where
  downloads uploads http_errors : Counter

pub data Call : Type 0 where
  increments : Counter → Call
  hits : Text → Call
  reads : Call

abbrev pub increment : Counter → ℕ → Stats → Stats
increment downloads = increment_downloads
increment uploads = increment_uploads
increment http_errors = increment_http_errors

abbrev pub step : ℕ → Call → Stats → Stats
step now (increments k) s = increment k now s
step now (hits ip) s = record_rate_limit_hit ip s
step now reads s = (get_current_stats now s).0

unfoldable pub after : Stats → List (ℕ × Call) → Stats
after s [] = s
after s ((t, c) ∷ past) = step t c (after s past)

abbrev pub total_of : Counter → StatsData → ℕ
total_of downloads sd = sd.download_count
total_of uploads sd = sd.upload_count
total_of http_errors sd = sd.http_error_count

abbrev pub last24h_of : Counter → StatsData → ℕ
last24h_of downloads sd = sd.last24h_download_count
last24h_of uploads sd = sd.last24h_upload_count
last24h_of http_errors sd = sd.last24h_http_error_count

abbrev pub same_counter : Counter → Counter → Bool
same_counter downloads downloads = true
same_counter uploads uploads = true
same_counter http_errors http_errors = true
same_counter _ _ = false

-- Whether the call counts for the counter.
abbrev pub counts : Counter → Call → Bool
counts k (increments j) = same_counter k j
counts k _ = false

abbrev pub one_if : Bool → ℕ
one_if true = 1
one_if false = 0

-- The calls that count, and of these the ones at or after a time.
unfoldable pub number_of : Counter → List (ℕ × Call) → ℕ
number_of k [] = 0
number_of k ((t, c) ∷ past) = one_if (counts k c) + number_of k past

unfoldable pub number_since : Counter → ℕ → List (ℕ × Call) → ℕ
number_since k from [] = 0
number_since k from ((t, c) ∷ past) = one_if (counts k c && leb from t) + number_since k from past

-- The calls that count and whose hour begins at or after a time.
unfoldable pub number_in_hours : Counter → ℕ → List (ℕ × Call) → ℕ
number_in_hours k from [] = 0
number_in_hours k from ((t, c) ∷ past) =
    one_if (counts k c && leb from (truncate t)) + number_in_hours k from past

abbrev pub latest : List (ℕ × Call) → ℕ
latest [] = 0
latest ((t, c) ∷ past) = t

-- The clock does not run backwards.
abbrev pub IsOrdered : List (ℕ × Call) → Type 0
IsOrdered [] = Unit
IsOrdered ((t, c) ∷ past) = (latest past ≤ t) × IsOrdered past

-- What an increment does to the totals, and to the bucket of its hour.
abbrev pub counted : Counter → StatsData → StatsData
counted downloads = count_download
counted uploads = count_upload
counted http_errors = count_http_error
