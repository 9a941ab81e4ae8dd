-- ===== src/Stats/Recent.antt =====
-- How the reported counts compare with the last 24 hours to the nanosecond.
