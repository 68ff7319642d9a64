-- ===== src/Wire/Tests.antt =====
-- The witness of Wire.
use mini_distributed_storage.Base.{◌≡◌, ◌++◌, codes, arith}
use mini_distributed_storage.Wire.{htonl, ntohl, ntohl-htonl}

ntohl-htonl_example : ntohl (htonl 305419896 ++ codes "x") ≡ 305419896
ntohl-htonl_example = ntohl-htonl 305419896 (codes "x") (omega arith)
