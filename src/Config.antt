-- ===== src/Config.antt =====
-- The transport settings of src/config.h that the protocol reads (g_config.transport). rto_ratio, a
-- float, is a parameter where it is used.
use liteflow.Base.{ℕ}

pub record Transport : Type 0 where
  pub token_expire : ℕ
  pub offline_timeout : ℕ
  pub buffer_size : ℕ
  pub transmit_rate_init : ℕ
  pub transmit_rate_max : ℕ
  pub transmit_rate_min : ℕ
  pub fec_decode : ℕ
  pub fec_group_size : ℕ
  pub max_rtt : ℕ
  pub min_rtt : ℕ
  pub mtu : ℕ
  pub ack_size : ℕ
