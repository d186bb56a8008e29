-- ===== src/Tests/Config.antt =====
-- Sizes in the configuration.
use update_service.Base.{◌≡◌, refl, arith, ◌%◌, ◌*◌, ◌^◌, ◌-◌, cat, decimal}
use update_service.Config.{parse_size, parse_int, trim_suffix, scan_uint}
use update_service.Config.Size.{gib, parse_size-decimal}

-- 2 ^ 33 GiB is the least int64.
parse_size-decimal_example :
    parse_size (cat (decimal 8589934592) "GiB") ≡ 8589934592 * 1024 ^ 3 % 2 ^ 64
parse_size-decimal_example = parse_size-decimal 8589934592 gib (omega arith)

plain_number : parse_size "4096" ≡ 4096
unfolding parse_size trim_suffix parse_int scan_uint
plain_number = refl

no_number : parse_size "1 GiB" ≡ 0
unfolding parse_size trim_suffix parse_int scan_uint
no_number = refl

out_of_range : parse_int "99999999999999999999x" ≡ 2 ^ 63 - 1
unfolding parse_int scan_uint
out_of_range = refl
