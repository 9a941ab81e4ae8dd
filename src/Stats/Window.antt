-- ===== src/Stats/Window.antt =====
-- The counts of the last 24 hours.
use iot_ephemeral_value_stor.Base.{ℕ, ◌+◌, List, [], ◌∷◌, ltb, if◌then◌else◌}
use iot_ephemeral_value_stor.Stats.{StatsData, Stats}
use iot_ephemeral_value_stor.Stats.History.{Counter, total_of}

-- What the buckets from a time on add up to.
bucket_sum : Counter → ℕ → List (ℕ × StatsData) → ℕ
bucket_sum k from [] = 0
bucket_sum k from ((t, sd) ∷ m) = (if ltb t from then 0 else total_of k sd) + bucket_sum k from m
