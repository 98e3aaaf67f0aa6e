-- ===== src/Decimal/Tests.antt =====
-- Runs of the decimal numbers of user/utils.c.
use meter_logger.Prelude.{◌≡◌, refl, some, none, replicate}
use meter_logger.Prelude.Text.{codes, atoi, digits_from, is_digit, is_space, signed_from}
use meter_logger.Decimal.{int_pow, pow_loop, scan, thousandfold, multiply_str_by_1000}

thousand : multiply_str_by_1000 (codes "12.3456") ≡ some 12345
unfolding multiply_str_by_1000 scan thousandfold int_pow pow_loop atoi signed_from digits_from
    is_digit is_space
thousand = refl

-- 33 digits before the point run over the buffer.
too_long : multiply_str_by_1000 (replicate 33 b'1') ≡ none
unfolding multiply_str_by_1000 scan thousandfold
too_long = refl
