-- ===== src/Storage/Disk.antt =====
-- storage/disk_unix.go and storage/disk_windows.go: the free space of the store's volume, and what
-- the health check makes of it. Of the two files the build takes the one of its system.
use iot_ephemeral_value_stor.Base.{ℕ, codes, wrap, Error, ◌==◌, if◌then◌else◌}
use iot_ephemeral_value_stor.Base.Int.{int64, mul_int64}
use iot_ephemeral_value_stor.Storage.{DiskFree, bytes, unknown}

-- What `unix.Statfs` fills in, as words of 64 bits: the free blocks and the size of a block.
pub record Statfs : Type 0 where
  pub bavail : ℕ
  pub bsize : ℕ

pub data StatfsCall : Type 0 where
  fills : Statfs → StatfsCall
  fails : Error → StatfsCall

unfoldable pub disk_free_bytes_unix : StatfsCall → DiskFree
disk_free_bytes_unix (fails e) = unknown (wrap (codes "statfs failed") e)
disk_free_bytes_unix (fills stat) = bytes (mul_int64 (int64 stat.bavail) (int64 stat.bsize))

-- How the calls on Windows go: the path has a zero byte, or `GetDiskFreeSpaceExW` returns a flag,
-- the bytes that are free to the caller, a word of 64 bits, and an error number.
pub data DiskSpaceCall : Type 0 where
  bad_path : Error → DiskSpaceCall
  returns : ℕ → ℕ → Error → DiskSpaceCall

unfoldable pub disk_free_bytes_windows : DiskSpaceCall → DiskFree
disk_free_bytes_windows (bad_path e) = unknown (wrap (codes "invalid path") e)
disk_free_bytes_windows (returns ret free_bytes_available err_no) =
    if ret == 0
    then unknown (wrap (codes "GetDiskFreeSpaceExW failed") err_no)
    else bytes (int64 free_bytes_available)
