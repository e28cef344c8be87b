-- ===== src/Samples.antt =====
-- A configuration, the default values of src/config.c, and the state of a peer, for the examples.
use liteflow.Config.{Transport}
use liteflow.Filter.{Sample, filter_init}
use liteflow.Host.{Host}

abbrev pub config : Transport
config = record {
  token_expire = 7200;
  offline_timeout = 180;
  buffer_size = 10_485_760;
  transmit_rate_init = 102_400;
  transmit_rate_max = 104_857_600;
  transmit_rate_min = 10_240;
  fec_decode = 0;
  fec_group_size = 10;
  max_rtt = 1_000_000;
  min_rtt = 50_000;
  mtu = 1024;
  ack_size = 100;
}

abbrev bw_sample : Sample
bw_sample = record { t = 3; v = 500 }

abbrev pub host : Host
host = record {
  pacing_time = 0;
  pacing_credit = 0;
  pacing_rate = 20_000;
  snd_cwnd = 32;
  srtt = 30_000;
  cur_time = 60_000_000;
  rtt_min = filter_init 10;
  bw = record { s0 = bw_sample; s1 = bw_sample; s2 = bw_sample; win = 10 };
  rtt_round = 4;
  next_rtt_delivered = 100;
  inflight = 6;
  inflight_bytes = 6000;
  delivered = 120;
  delivered_bytes = 120_000;
  app_limited = 0;
  delivered_time = 59_990_000;
  first_tx_time = 59_900_000;
  retrans_packet_post = 0;
  data_packet_post_succ = 0;
}
