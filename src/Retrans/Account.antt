-- ===== src/Retrans/Account.antt =====
-- The packets and bytes in flight that the host counts are those of the packet list.
use liteflow.Base.{
  ℕ, zero, suc, ◌+◌, ◌*◌, ◌-◌, ◌%◌, ◌<◌, ◌≡◌, ◌≢◌, arith, refl, ◌∙◌, true, false, Option, none,
  some, List, [], ◌∷◌, length, All, if◌then◌else◌, Bool-cases, Ordering, inl, inr,
}
use liteflow.Base.Word.{u32_mod}
use liteflow.Config.{Transport}
use liteflow.Host.{Host, RateSample}
use liteflow.Seq.{seq_cmp, less_equal}
use liteflow.Treemap.Entries.{insert_entry, find_entry}
use liteflow.Treemap.Shape.{Returns}
use liteflow.Retrans.{
  Packet, Retrans, TimerQueue, out_of_memory, new_packet, not_before, last_time, get_retrans_time,
  find_retrans, create_packet_entry, packet_delivered, packet_abandon, release_packet_entry,
  checkpoint_while, retrans_checkpoint,
}
use liteflow.Retrans.Events.{abandon_while, retrans_mod_fini}

abbrev pub total_length : List (ℕ × Packet) → ℕ
total_length [] = 0
total_length ((k, p) ∷ xs) = p.length + total_length xs

-- An entry of the list: its key is its sequence number, and its length is a uint32_t.
abbrev pub IsStored : ℕ × Packet → Type 0
IsStored (k, p) = (k ≡ p.seq) × (p.length < u32_mod)

-- Besides `others` packets of `other_bytes` bytes of other connections, the packets of the list are in
-- flight, modulo 2^32.
pub record Accounted (others other_bytes : ℕ) (host : Host) (rt : Retrans) : Type 0 where
  pub packets : host.inflight ≡ (others + length rt.packet_list) % u32_mod
  pub bytes : host.inflight_bytes ≡ (other_bytes + total_length rt.packet_list) % u32_mod
  pub entries : All IsStored rt.packet_list

insert_entry-grows :
    (q : ℕ) (w : Packet) (xs : List (ℕ × Packet))
    → find_entry seq_cmp q xs ≡ none
    → All IsStored xs
    → (q ≡ w.seq) × (w.length < u32_mod)
    → let ys = insert_entry seq_cmp q w xs in
      (length ys ≡ suc (length xs))
      × (total_length ys ≡ w.length + total_length xs)
      × All IsStored ys
insert_entry-grows q w [] n s h = ground arith
insert_entry-grows q w ((k, v) ∷ xs) n s h = ground (arith, insert_entry-grows q w xs)

-- Where memory does not run out, storing a packet keeps the account: one more packet of its length is
-- counted exactly when one more is in the list.
pub create_packet_entry-Accounted :
    (cfg : Transport) (rto : ℕ → ℕ) (now : ℕ) (host : Host) (rt : Retrans)
    (seq len fec_seq fec_index others other_bytes : ℕ)
    → len < u32_mod
    → Accounted others other_bytes host rt
    → Returns
        (create_packet_entry cfg rto now true host rt seq len fec_seq fec_index)
        (λ (host', rt', ret). Accounted others other_bytes host' rt')
unfolding create_packet_entry
create_packet_entry-Accounted cfg rto now host rt seq len fec_seq fec_index others other_bytes h a =
    ground (
      arith,
      insert_entry-grows seq
          (new_packet host now (not_before (last_time rt) (get_retrans_time cfg rto host now)) seq
            len fec_seq fec_index)
          rt.packet_list,
    )

module _ {Q : Type 0} (queue : TimerQueue Q) (flow : ℕ) where
  seq_cmp_same : (a : ℕ) → seq_cmp a a ≡ Ordering.eq
  unfolding seq_cmp
  seq_cmp_same a = ground arith

  -- The release of the first entry.
  release_first :
      (now : ℕ) (host : Host) (rt : Retrans) (q : Q) (rs : RateSample) (k : ℕ) (p : Packet)
      (rest : List (ℕ × Packet)) (others other_bytes : ℕ)
      → rt.packet_list ≡ (k, p) ∷ rest
      → Accounted others other_bytes host rt
      → let (host', rt', q', rs') = release_packet_entry queue flow now p (host, rt, q, rs) in
        (rt'.packet_list ≡ rest) × Accounted others other_bytes host' rt'
  unfolding release_packet_entry packet_delivered
  release_first now host rt q rs k p rest others other_bytes e a = ground (arith, seq_cmp_same k)

  -- The entries from the first one on that is not before the window.
  abbrev pub drop_before : ℕ → List (ℕ × Packet) → List (ℕ × Packet)
  drop_before start [] = []
  drop_before start ((k, p) ∷ xs) =
      if less_equal start p.seq then ((k, p) ∷ xs) else drop_before start xs

  -- What retrans_checkpoint leaves: the packets from the start of the window on, all accounted for.
  pub record Checked (start others other_bytes : ℕ) (rt : Retrans)
      (st : Host × Retrans × Q × RateSample) : Type 0 where
    pub kept : st.1.packet_list ≡ drop_before start rt.packet_list
    pub accounted : Accounted others other_bytes st.0 st.1

  relate :
      (o : Option (Host × Retrans × Q × RateSample)) (rt' rt : Retrans)
      (start others other_bytes : ℕ)
      → drop_before start rt'.packet_list ≡ drop_before start rt.packet_list
      → Returns o (Checked start others other_bytes rt')
      → Returns o (Checked start others other_bytes rt)
  relate none rt' rt start others other_bytes e c = c
  relate (some st) rt' rt start others other_bytes e c = record {
    kept = c.kept ∙ e;
    accounted = c.accounted;
  }

  checkpoint_step :
      (f : ℕ) (now : ℕ → ℕ) (start : ℕ) (host : Host) (rt : Retrans) (q : Q) (rs : RateSample)
      (k : ℕ) (p : Packet) (xs : List (ℕ × Packet))
      → rt.packet_list ≡ (k, p) ∷ xs
      → less_equal start p.seq ≡ false
      → checkpoint_while queue flow (suc f) now start (host, rt, q, rs)
        ≡ checkpoint_while queue flow f now start
            (release_packet_entry queue flow (now p.seq) p (host, rt, q, rs))
  unfolding checkpoint_while
  checkpoint_step f now start host rt q rs k p xs e b = ground arith

  checkpoint_while-Checked :
      (f : ℕ) (now : ℕ → ℕ) (start others other_bytes : ℕ) (host : Host) (rt : Retrans) (q : Q)
      (rs : RateSample) (xs : List (ℕ × Packet))
      → rt.packet_list ≡ xs
      → length xs < f
      → Accounted others other_bytes host rt
      → Returns
          (checkpoint_while queue flow f now start (host, rt, q, rs))
          (Checked start others other_bytes rt)
  unfolding checkpoint_while
  checkpoint_while-Checked zero now start others other_bytes host rt q rs xs e h a = ground arith
  checkpoint_while-Checked (suc f) now start others other_bytes host rt q rs [] e h a = ground arith
  checkpoint_while-Checked (suc f) now start others other_bytes host rt q rs ((k, p) ∷ xs) e h a =
      let (host', rt', q', rs') = release_packet_entry queue flow (now p.seq) p (host, rt, q, rs) in
      let (left, a') = release_first (now p.seq) host rt q rs k p xs others other_bytes e a in
      elim (Bool-cases (less_equal start p.seq)) [
        | inl b ↦ ground arith
        | inr b ↦ rw (checkpoint_step f now start host rt q rs k p xs e b) (
            relate _ rt' rt start others other_bytes (ground arith) (
              checkpoint_while-Checked f now start others other_bytes host' rt' q' rs' xs left
                (omega arith) a'))
      ]

  -- retrans_checkpoint ends, with the fuel of the list's length: it leaves exactly the packets from the
  -- first one on that is not before the start of the window, and the counters of packets and bytes in
  -- flight count exactly these besides those of other connections.
  pub retrans_checkpoint-Checked :
      (now : ℕ → ℕ) (start others other_bytes : ℕ) (host : Host) (rt : Retrans) (q : Q)
      (rs : RateSample)
      → Accounted others other_bytes host rt
      → Returns
          (retrans_checkpoint queue flow now start (host, rt, q, rs))
          (Checked start others other_bytes rt)
  unfolding retrans_checkpoint
  retrans_checkpoint-Checked now start others other_bytes host rt q rs a =
      checkpoint_while-Checked (suc (length rt.packet_list)) now start others other_bytes host rt q
        rs rt.packet_list refl (omega arith) a

-- Where memory runs out, one packet and its bytes are counted in flight that no list holds.
pub create_packet_entry_leaks :
    (cfg : Transport) (rto : ℕ → ℕ) (now : ℕ) (host : Host) (rt : Retrans)
    (seq len fec_seq fec_index others other_bytes : ℕ)
    → len < u32_mod
    → Accounted others other_bytes host rt
    → rt.packet_list ≢ []
    → find_retrans rt seq ≡ none
    → Returns
        (create_packet_entry cfg rto now false host rt seq len fec_seq fec_index)
        (λ (host', rt', ret).
          (ret ≡ out_of_memory) × (rt' ≡ rt) × Accounted (others + 1) (other_bytes + len) host' rt')
unfolding create_packet_entry
create_packet_entry_leaks cfg rto now host rt seq len fec_seq fec_index others other_bytes h a n e =
    ground arith

abandon_while-Accounted :
    {Q : Type 0} (queue : TimerQueue Q) (flow : ℕ) (it : List (ℕ × Packet)) (host : Host) (q : Q)
    (others other_bytes : ℕ)
    → host.inflight ≡ (others + length it) % u32_mod
    → host.inflight_bytes ≡ (other_bytes + total_length it) % u32_mod
    → All IsStored it
    → host.app_limited < u32_mod
    → let host' = (abandon_while queue flow it host q).0 in
      (host'.inflight ≡ others % u32_mod)
      × (host'.inflight_bytes ≡ other_bytes % u32_mod)
      × (host'.app_limited ≡ (host.app_limited + length it * (u32_mod - 1)) % u32_mod)
unfolding abandon_while packet_abandon
abandon_while-Accounted queue flow [] host q others other_bytes a b s m = ground arith
abandon_while-Accounted queue flow ((k, p) ∷ it) host q others other_bytes a b s m = ground (
  arith,
  abandon_while-Accounted queue flow it (packet_abandon host p)
      (if p.is_ready then queue.del q (flow, p.seq) else q) others other_bytes,
)

-- When a connection is closed, its packets and bytes are no longer counted in flight; but a host that
-- was not limited by the application (app_limited is 0) is left with the number of the packets below
-- 2^32 in app_limited, so it counts as limited.
pub retrans_mod_fini_wraps :
    {Q : Type 0} (queue : TimerQueue Q) (flow : ℕ) (host : Host) (rt : Retrans) (q : Q)
    (others other_bytes : ℕ)
    → Accounted others other_bytes host rt
    → host.app_limited ≡ 0
    → 0 < length rt.packet_list
    → length rt.packet_list < u32_mod
    → let (host', rt', q') = retrans_mod_fini queue flow host rt q in
      Accounted others other_bytes host' rt' × (host'.app_limited ≡ u32_mod - length rt.packet_list)
unfolding retrans_mod_fini
retrans_mod_fini_wraps queue flow host rt q others other_bytes a z h k =
    ground (arith, abandon_while-Accounted queue flow rt.packet_list host q others other_bytes)
