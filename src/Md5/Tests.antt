-- ===== src/Md5/Tests.antt =====
-- The witness of Md5.
use mini_distributed_storage.Base.{◌≤◌, codes}
use mini_distributed_storage.Md5.{get_string_md5, convert_md5_to_int}
use mini_distributed_storage.Md5.Bounds.{convert_md5_to_int-bounds}
use mini_distributed_storage.Fixtures.{length_digest}

convert_md5_to_int-bounds_example :
    (1536 ≤ convert_md5_to_int (get_string_md5 length_digest (codes "some bytes")))
    × (convert_md5_to_int (get_string_md5 length_digest (codes "some bytes")) ≤ 2240)
convert_md5_to_int-bounds_example = convert_md5_to_int-bounds length_digest (codes "some bytes")
