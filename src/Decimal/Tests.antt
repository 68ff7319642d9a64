-- ===== src/Decimal/Tests.antt =====
-- The witness of Decimal.
use mini_distributed_storage.Base.{◌≡◌}
use mini_distributed_storage.Decimal.{atoi, to_string}
use mini_distributed_storage.Decimal.RoundTrip.{atoi-to_string}

atoi-to_string_example : atoi (to_string 2047) ≡ 2047
atoi-to_string_example = atoi-to_string 2047
