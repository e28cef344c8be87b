-- ===== src/Messages/Examples.antt =====
-- A packet with data on its way.
use liteflow.Base.{◌≡◌, ◌==◌, arith, if◌then◌else◌}
use liteflow.Messages.{DataPost, connect_data}
use liteflow.Messages.Codec.{encode, parse, parsed, size_of}
use liteflow.Messages.Whole.{parse-encode}

abbrev post : DataPost
post = record {
  seq = 70_000;
  len = 2;
  fec_seq = 5;
  fec_index = 3;
  payload = λ i. if i == 0 then 65 else if i == 1 then 66 else 0;
}

parse-encode_example :
    parse (size_of (connect_data 9 post)) (encode 77 (connect_data 9 post))
    ≡ parsed 77 (connect_data 9 post)
parse-encode_example = parse-encode 77 (connect_data 9 post) (omega arith) (
  omega arith,
  record {
    seq = omega arith;
    len = omega arith;
    fec_seq = omega arith;
    fec_index = omega arith;
    padded = λ i e. ground arith;
  },
)
