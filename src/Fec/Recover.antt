-- ===== src/Fec/Recover.antt =====
-- The receiver of src/fec.c recovers the one packet of a group that was lost.
use Prim.Native.Nat.{bit_xor}
use mathlib.Core.Path.{fun_ext, subst⁻¹}
use liteflow.Base.{
  ℕ, suc, ◌+◌, ◌%◌, ◌≤◌, ◌<◌, ◌≡◌, arith, refl, ap, ◌∙◌, true, false, if◌then◌else◌, List, length,
}
use liteflow.Treemap.Shape.{Returns}
use liteflow.Messages.{DataPost, DataFec, post_bytes, litedt_mtu_max}
use liteflow.Messages.Whole.{PostOk, read_post-post_bytes}
use liteflow.Fec.{
  Fec, FecMod, fec_members_max, recover, mixed, mix, add_member, fec_insert, fec_insert_sum,
  is_rejected, xor_into,
}
use liteflow.Fec.{recovered}
use liteflow.Fec.Xor.{total, xor_into_all, xor_cancel}
use liteflow.Fec.Receive.{GroupOf, Holds, IsMember, enters}

-- The sum of a group that misses one packet: what was sent for `lost` and the packets `got`.
pub record IsSumOf (s : ℕ) (got : List DataPost) (lost : DataPost) (f : DataFec) : Type 0 where
  pub seq : f.fec_seq ≡ s
  pub members : f.fec_members ≡ suc (length got)
  pub few : f.fec_members ≤ fec_members_max
  pub len : 0 < f.fec_len
  pub fits : f.fec_len ≤ litedt_mtu_max
  pub bytes : (i : ℕ) → f.fec_data i ≡ bit_xor (post_bytes lost i) (total got i)
  pub padded : (i : ℕ) → f.fec_len ≤ i → f.fec_data i ≡ 0

-- The buffer of the group, once the sum is in it, is the packet that was lost.
mixed_sum :
    (s : ℕ) (got : List DataPost) (lost : DataPost) (f : DataFec) (fec : Fec)
    → GroupOf got fec
    → IsSumOf s got lost f
    → xor_into f.fec_len f.fec_data fec.fec_buf ≡ post_bytes lost
mixed_sum s got lost f fec g m =
    xor_into_all f.fec_len f.fec_data fec.fec_buf m.padded
    ∙ fun_ext (λ i.
      ap (λ u. bit_xor u (f.fec_data i)) (g.bytes i)
      ∙ ap (bit_xor (total got i)) (m.bytes i)
      ∙ xor_cancel (post_bytes lost i) (total got i))

recover_lost :
    (fm : FecMod) (s : ℕ) (fec : Fec) (lost : DataPost)
    → fec.fec_buf ≡ post_bytes lost
    → PostOk lost
    → lost.fec_seq ≡ s
    → lost.fec_index < fec_members_max
    → fec.fec_map lost.fec_index ≡ false
    → Returns (recover fm s fec) (λ (fm', ret). ret ≡ recovered lost)
unfolding recover
recover_lost fm s fec lost e ok q i m = rw (e, read_post-post_bytes lost ok) (ground arith)

mix-full :
    (fm : FecMod) (s : ℕ) (fec : Fec) (bytes : ℕ → ℕ) (n : ℕ)
    → (fec.fec_finish + 1) % 256 ≡ fec.fec_members
    → fec.fec_sum ≡ true
    → mix fm s fec bytes n ≡ recover fm s (mixed fec bytes n)
unfolding mix mixed
mix-full fm s fec bytes n e h = ground arith

add_sum :
    (s : ℕ) (got : List DataPost) (lost : DataPost) (f : DataFec) (fm : FecMod) (fec : Fec)
    → GroupOf got fec
    → IsSumOf s got lost f
    → IsMember s got lost
    → PostOk lost
    → Returns
        (add_member fm s fec (fec_members_max + 1) f.fec_members f.fec_data f.fec_len)
        (λ (fm', ret). ret ≡ recovered lost)
unfolding add_member mixed
add_sum s got lost f fm fec g m l ok =
    let full : Fec = record fec { fec_members = f.fec_members; fec_sum = true } in
    rw
      (
        g.no_sum,
        if◌then◌else◌,
        mix-full fm s full f.fec_data f.fec_len (ground (arith, g.finish, m.members, m.few)) refl,
      )
      (recover_lost fm s (mixed full f.fec_data f.fec_len) lost (mixed_sum s got lost f fec g m) ok
        l.seq l.index (g.mapped lost.fec_index ∙ l.fresh))

-- Once all packets of a group but one were received, its sum gives exactly the packet that was lost.
pub fec_insert_sum-recovers :
    (fm : FecMod) (s : ℕ) (got : List DataPost) (lost : DataPost) (f : DataFec)
    → Holds s got fm
    → IsSumOf s got lost f
    → IsMember s got lost
    → PostOk lost
    → Returns (fec_insert_sum true fm f) (λ (fm', ret). ret ≡ recovered lost)
unfolding fec_insert_sum is_rejected
fec_insert_sum-recovers fm s got lost f h m l ok =
    subst⁻¹
      (λ t.
        Returns (fec_insert true fm t (fec_members_max + 1) f.fec_members f.fec_data f.fec_len)
          (λ (fm', ret). ret ≡ recovered lost))
      m.seq
      (enters fm s (fec_members_max + 1) f.fec_members f.fec_data f.fec_len got
        (λ r. Returns r (λ (fm', ret). ret ≡ recovered lost)) h
        (ground (arith, m.members, m.few, m.len, m.fits))
        (λ fm' k fec e g w. add_sum s got lost f fm' fec g m l ok))
