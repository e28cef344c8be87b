-- ===== src/Fec.antt =====
-- Forward error correction: src/fec.c and src/fec.h. The queue of groups is the entries of the hash
-- queue in their order, which the theorems of Hashqueue justify. Buffers are functions from an index
-- to a byte; the loops that combine eight, four and one bytes at a time are one loop over bytes here.
-- What is sent to the peer and what is given to litedt_on_data_recv is returned.
pub mod Xor
pub mod Receive
pub mod Recover
pub mod Group
pub mod Lost
mod Examples
use Prim.Native.Nat.{bit_xor}
use liteflow.Base.{
  ℕ, zero, suc, ◌+◌, ◌-◌, ◌*◌, ◌%◌, ◌^◌, ◌==◌, Bool, true, false, not, ◌&&◌, ◌||◌, ltb, leb, max_of,
  if◌then◌else◌, Option, none, some, List, [], ◌∷◌, ◌++◌,
}
use liteflow.Base.Word.{add32, sub32}
use liteflow.Config.{Transport}
use liteflow.Seq.{less_equal}
use liteflow.Hashqueue.Lookup.{find_key}
use liteflow.Hashqueue.Delete.{drop_key}
use liteflow.Messages.{
  DataPost, DataFec, litedt_mtu_max, post_size, post_bytes, read_post, get_le, skip,
}

abbrev pub fec_members_max : ℕ
fec_members_max = 127

-- fec_map is its bits.
pub record Fec : Type 0 where
  pub fec_seq : ℕ
  pub fec_end : ℕ
  pub fec_members : ℕ
  pub fec_finish : ℕ
  pub fec_sum : Bool
  pub fec_map : ℕ → Bool
  pub fec_buf : ℕ → ℕ

pub record FecMod : Type 0 where
  pub current_fec_seq : ℕ
  pub current_fec_end : ℕ
  pub current_fec_index : ℕ
  pub current_fec_members : ℕ
  pub fec_recv_start : ℕ
  pub fec_recv_end : ℕ
  pub fec_queue : List (ℕ × Fec)
  pub fec_len : ℕ
  pub fec_buf : ℕ → ℕ

-- What fec_insert does: 0 (accepted, rejected, recovered, not_recovered), 1 (out_of_range, duplicate)
-- and -1 (no_memory).
pub data InsertRet : Type 0 where
  accepted rejected not_recovered out_of_range duplicate no_memory : InsertRet
  recovered : DataPost → InsertRet

unfoldable pub fec_mod_init : Transport → FecMod
fec_mod_init cfg = record {
  current_fec_seq = 0;
  current_fec_end = 0;
  current_fec_index = 0;
  current_fec_members = cfg.fec_group_size % 256;
  fec_recv_start = 0;
  fec_recv_end = cfg.buffer_size;
  fec_queue = [];
  fec_len = 0;
  fec_buf = λ i. 0;
}

unfoldable pub fec_delete : FecMod → ℕ → FecMod
fec_delete fm fec_seq = record fm { fec_queue = drop_key fec_seq fm.fec_queue }

-- The loop of fec_mod_fini, along the groups.
unfoldable pub fini_while : List (ℕ × Fec) → FecMod → FecMod
unfolding fec_delete
fini_while [] fm = fm
fini_while ((k, fec) ∷ xs) fm = fini_while xs (fec_delete fm fec.fec_seq)

unfoldable pub fec_mod_fini : FecMod → FecMod
unfolding fini_while
fec_mod_fini fm = fini_while fm.fec_queue fm

unfoldable pub get_fec_header : FecMod → ℕ × ℕ
get_fec_header fm = (fm.current_fec_seq, fm.current_fec_index)

-- The first `n` bytes of `src` into the buffer.
abbrev pub xor_into : ℕ → (ℕ → ℕ) → (ℕ → ℕ) → ℕ → ℕ
xor_into n src buf i = if ltb i n then bit_xor (buf i) (src i) else buf i

-- The state after it, and the message to send, if any.
unfoldable pub fec_post : Transport → FecMod → FecMod × Option DataFec
fec_post cfg fm = if fm.current_fec_index == 0 then (fm, none) else (
  record fm {
    current_fec_seq = fm.current_fec_end;
    current_fec_index = 0;
    current_fec_members = cfg.fec_group_size % 256;
    fec_len = 0;
    fec_buf = λ i. 0;
  },
  some (record {
    fec_seq = fm.current_fec_seq;
    fec_members = fm.current_fec_index;
    fec_len = fm.fec_len;
    fec_data = fm.fec_buf;
  }),
)

-- The first part of fec_push_data, up to ++current_fec_index.
unfoldable pub add_to_group : FecMod → DataPost → FecMod
add_to_group fm p =
    let fec_size = post_size + p.len in
    record fm {
      fec_buf = xor_into fec_size (post_bytes p) fm.fec_buf;
      fec_len = max_of fm.fec_len fec_size % 2 ^ 16;
      current_fec_end = add32 p.seq p.len;
      current_fec_index = (fm.current_fec_index + 1) % 256;
    }

unfoldable pub fec_push_data : Transport → FecMod → DataPost → FecMod × Option DataFec
unfolding add_to_group fec_post
fec_push_data cfg fm p =
    let added = add_to_group fm p in
    if leb added.current_fec_members added.current_fec_index
    then fec_post cfg added
    else (added, none)

-- The loop of fec_checkpoint, along the groups.
unfoldable pub checkpoint_while : ℕ → List (ℕ × Fec) → FecMod → FecMod
unfolding fec_delete less_equal
checkpoint_while recv_start [] fm = fm
checkpoint_while recv_start (x ∷ []) fm = fm
checkpoint_while recv_start (x ∷ y ∷ xs) fm =
    if less_equal y.1.fec_seq recv_start
    then checkpoint_while recv_start (y ∷ xs)
        (fec_delete (record fm { fec_recv_start = y.1.fec_seq }) x.1.fec_seq)
    else fm

unfoldable pub fec_checkpoint : Transport → FecMod → ℕ → FecMod
unfolding checkpoint_while
fec_checkpoint cfg fm recv_start = record (checkpoint_while recv_start fm.fec_queue fm) {
  fec_recv_end = add32 recv_start cfg.buffer_size;
}

-- Whether some group of the list is before `fseq`.
unfoldable pub some_before : ℕ → List (ℕ × Fec) → Bool
unfolding less_equal
some_before fseq [] = false
some_before fseq (x ∷ xs) = not (less_equal fseq x.1.fec_seq) || some_before fseq xs

-- "Arrange fec queue by ascending order": behind the last group that is before it, or in front.
unfoldable pub arrange : ℕ → Fec → List (ℕ × Fec) → List (ℕ × Fec)
unfolding some_before
arrange fseq fec [] = (fseq, fec) ∷ []
arrange fseq fec (x ∷ xs) =
    let rest = arrange fseq fec xs in
    if some_before fseq (x ∷ xs) then (x ∷ rest) else ((fseq, fec) ∷ x ∷ xs)

unfoldable pub new_fec : ℕ → ℕ → Fec
new_fec fseq fmems = record {
  fec_seq = fseq;
  fec_end = fseq;
  fec_members = fmems;
  fec_finish = 0;
  fec_sum = false;
  fec_map = λ i. false;
  fec_buf = λ i. 0;
}

-- A write through the pointer to the group `k`.
abbrev pub put_fec : ℕ → Fec → List (ℕ × Fec) → List (ℕ × Fec)
put_fec k fec [] = []
put_fec k fec ((j, old) ∷ xs) =
    let rest = put_fec k fec xs in if j == k then ((k, fec) ∷ xs) else ((j, old) ∷ rest)

-- FEC_SET, and the update of fec_end for a packet that ends at `end`.
unfoldable pub mark : Fec → ℕ → ℕ → Fec
unfolding less_equal
mark fec idx end = record fec {
  fec_map = λ i. if i == idx then true else fec.fec_map i;
  fec_end = if less_equal fec.fec_end end then end else fec.fec_end;
}

-- The part after "lost data frame has been recovered". An index above 127 is outside of fec_map.
unfoldable pub recover : FecMod → ℕ → Fec → Option (FecMod × InsertRet)
unfolding mark
recover fm fseq fec =
    let dp = read_post fec.fec_buf in
    let found = mark fec dp.fec_index (add32 dp.seq dp.len) in
    let kept : FecMod = record fm { fec_queue = put_fec fseq fec fm.fec_queue } in
    if not (dp.fec_seq == fseq)
    then some (kept, not_recovered)
    else if ltb fec_members_max dp.fec_index
    then none
    else if fec.fec_map dp.fec_index
    then some (kept, not_recovered)
    else some (
      record fm { fec_queue = put_fec fseq found fm.fec_queue; fec_recv_start = found.fec_end },
      recovered dp,
    )

-- The loops that combine the bytes, and ++fec_finish.
unfoldable pub mixed : Fec → (ℕ → ℕ) → ℕ → Fec
mixed fec bytes buf_len = record fec {
  fec_buf = xor_into buf_len bytes fec.fec_buf;
  fec_finish = (fec.fec_finish + 1) % 256;
}

-- The end of fec_insert, from these loops on.
unfoldable pub mix : FecMod → ℕ → Fec → (ℕ → ℕ) → ℕ → Option (FecMod × InsertRet)
unfolding recover mixed
mix fm fseq fec bytes buf_len =
    let fec' = mixed fec bytes buf_len in
    if (fec'.fec_finish == fec'.fec_members) && fec'.fec_sum
    then recover fm fseq fec'
    else some (record fm { fec_queue = put_fec fseq fec' fm.fec_queue }, accepted)

-- The part of fec_insert once the group is found or made.
unfoldable pub add_member : FecMod → ℕ → Fec → ℕ → ℕ → (ℕ → ℕ) → ℕ → Option (FecMod × InsertRet)
unfolding mix mark
add_member fm fseq fec fidx fmems bytes buf_len =
    if ltb fec_members_max fidx
    then if fec.fec_sum
      then some (fm, duplicate)
      else mix fm fseq (record fec { fec_members = fmems; fec_sum = true }) bytes buf_len
    else if fec.fec_map fidx
    then some (fm, duplicate)
    else (let dp = read_post bytes in
        mix fm fseq (mark fec fidx (add32 dp.seq dp.len)) bytes buf_len)

-- The two tests that reject.
unfoldable pub is_rejected : ℕ → ℕ → ℕ → Bool
is_rejected fidx fmems buf_len =
    fmems == 0
    || (ltb fec_members_max fmems
        || ((ltb fidx fec_members_max && leb fmems fidx)
            || (buf_len == 0 || ltb litedt_mtu_max buf_len)))

-- `alloc` says whether queue_append succeeds. none is a write outside of fec_map.
unfoldable pub fec_insert : Bool → FecMod → ℕ → ℕ → ℕ → (ℕ → ℕ) → ℕ → Option (FecMod × InsertRet)
unfolding is_rejected arrange new_fec add_member
fec_insert alloc fm fseq fidx fmems bytes buf_len =
    let made : FecMod = record fm { fec_queue = arrange fseq (new_fec fseq fmems) fm.fec_queue } in
    if leb (sub32 fm.fec_recv_end fm.fec_recv_start) (sub32 fseq fm.fec_recv_start)
    then some (fm, out_of_range)
    else if is_rejected fidx fmems buf_len
    then some (fm, rejected)
    else elim (find_key fseq fm.fec_queue) [
      | some (k, fec) ↦ add_member fm fseq fec fidx fmems bytes buf_len
      | none ↦
          if alloc
          then add_member made fseq (new_fec fseq fmems) fidx fmems bytes buf_len
          else some (fm, no_memory)
    ]

unfoldable pub fec_insert_data : Bool → FecMod → DataPost → Option (FecMod × InsertRet)
unfolding fec_insert
fec_insert_data alloc fm p =
    fec_insert alloc fm p.fec_seq p.fec_index fec_members_max (post_bytes p) (post_size + p.len)

unfoldable pub fec_insert_sum : Bool → FecMod → DataFec → Option (FecMod × InsertRet)
unfolding fec_insert
fec_insert_sum alloc fm f =
    fec_insert alloc fm f.fec_seq (fec_members_max + 1) f.fec_members f.fec_data f.fec_len
