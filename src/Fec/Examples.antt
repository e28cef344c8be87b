-- ===== src/Fec/Examples.antt =====
-- A group of three packets of which the second is lost, and a message of each kind.
use liteflow.Base.{ℕ, ◌+◌, ◌<◌, ◌≡◌, ◌==◌, arith, refl, if◌then◌else◌, some, List, [], ◌∷◌}
use liteflow.Samples.{config}
use liteflow.Messages.{DataPost}
use liteflow.Fec.{FecMod, fec_mod_init, recovered}
use liteflow.Fec.Group.{InGroup, nil, keep, swap, trans, push_all}
use liteflow.Fec.Lost.{deliver, lost_packet_recovered}

-- A packet of two bytes.
abbrev packet : ℕ → ℕ → DataPost
packet index seq = record {
  seq = seq;
  len = 2;
  fec_seq = 0;
  fec_index = index;
  payload = λ i. if i == 0 then 65 + index else if i == 1 then 66 else 0;
}

packet-InGroup : (index seq : ℕ) → index < 3 → seq < 10 → InGroup 0 (packet index seq)
packet-InGroup index seq h l = record {
  ok = record {
    seq = omega arith;
    len = omega arith;
    fec_seq = omega arith;
    fec_index = omega arith;
    padded = λ i e. ground arith;
  };
  seq = refl;
  index = omega arith;
  fits = omega arith;
}

abbrev sent_packets : List DataPost
sent_packets = packet 0 0 ∷ packet 1 2 ∷ packet 2 4 ∷ []

-- They arrive in the reverse order.
abbrev got_packets : List DataPost
got_packets = packet 2 4 ∷ packet 0 0 ∷ []

abbrev sender : FecMod
sender = record (fec_mod_init config) { current_fec_members = 3 }

lost_packet_recovered_example :
    deliver (fec_mod_init config) got_packets (push_all config sender sent_packets)
    ≡ some (recovered (packet 1 2))
unfolding fec_mod_init
lost_packet_recovered_example =
    lost_packet_recovered config sender (fec_mod_init config) sent_packets got_packets (packet 1 2)
      (record { members = refl; index = refl; bytes = λ i. refl; len = refl })
      (record { group = refl; window = refl })
      (trans (keep (packet 1 2) (swap (packet 2 4) (packet 0 0) [])) (
        trans (swap (packet 1 2) (packet 0 0) (packet 2 4 ∷ []))
          (keep (packet 0 0) (keep (packet 1 2) (keep (packet 2 4) nil)))))
      (
        packet-InGroup 1 2 (omega arith) (omega arith),
        (
          packet-InGroup 2 4 (omega arith) (omega arith),
          (packet-InGroup 0 0 (omega arith) (omega arith), tt),
        ),
      )
      (refl, (refl, (refl, tt))) (omega arith)
