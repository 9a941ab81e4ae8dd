-- ===== src/Stats/Tests.antt =====
-- Runs of the counters, and the theorems at a concrete history.
use iot_ephemeral_value_stor.Base.{ℕ, ◌+◌, ◌*◌, ◌%◌, ◌≡◌, refl, List, [], ◌∷◌, codes, compare_text}
use iot_ephemeral_value_stor.Stats.{
  StatsData, int_mod, hour, new_stats, get_current_stats, get_uptime, increment_downloads,
  increment_uploads, record_rate_limit_hit, add_to_last24h,
}
use iot_ephemeral_value_stor.Stats.History.{
  Call, increments, hits, reads, downloads, uploads, after, number_of, total_of,
}
use iot_ephemeral_value_stor.Stats.Totals.{
  number_of_hits, number_of_hits_by, hits_of, get_current_stats-totals,
}

-- Newest first: an upload in hour 100, a read in hour 130, two uploads late in hour 106, a
-- download at the start of it, and hits from two addresses.
abbrev past : List (ℕ × Call)
past =
    (130 * hour, reads)
    ∷ (106 * hour + 1800, increments uploads)
    ∷ (106 * hour + 1700, increments uploads)
    ∷ (106 * hour, increments downloads)
    ∷ (106 * hour, hits (codes "a"))
    ∷ (106 * hour, hits (codes "b"))
    ∷ (101 * hour, hits (codes "a"))
    ∷ (100 * hour, increments uploads)
    ∷ []

abbrev reported : ℕ → StatsData
reported now = (get_current_stats now (after (new_stats (99 * hour)) past)).1

-- The hour 106 is reported until hour 130 begins; a nanosecond later the whole hour is gone, with
-- the uploads that are a little less than 24 hours old.
stats_runs :
    ((reported (130 * hour)).last24h_upload_count ≡ 2)
    × ((reported (130 * hour)).last24h_download_count ≡ 1)
    × ((reported (130 * hour + 1)).last24h_upload_count ≡ 0)
    × ((reported (130 * hour + 1)).upload_count ≡ 3)
    × (hits_of (codes "a") (reported (130 * hour)).rate_limited_ips ≡ 2)
    × (get_uptime (130 * hour) (new_stats (99 * hour)) ≡ 31 * hour)
unfolding get_current_stats after new_stats hits_of increment_downloads increment_uploads
    record_rate_limit_hit compare_text get_uptime add_to_last24h
stats_runs = (refl, refl, refl, refl, refl, refl)

get_current_stats-totals_example :
    (total_of uploads (reported (130 * hour)) ≡ number_of uploads past % int_mod)
    × ((reported (130 * hour)).rate_limit_hit_count ≡ number_of_hits past % int_mod)
    × (hits_of (codes "a") (reported (130 * hour)).rate_limited_ips
        ≡ number_of_hits_by (codes "a") past % int_mod)
get_current_stats-totals_example =
    get_current_stats-totals uploads (codes "a") (99 * hour) (130 * hour) past
