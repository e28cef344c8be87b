-- ===== src/Fec/Group.antt =====
-- A whole group of src/fec.c, from the sender's fec_push_data to the receiver's fec_insert.
use Prim.Native.Nat.{bit_xor}
use mathlib.Core.Path.{subst}
use mathlib.Core.List.{append_assoc}
use liteflow.Base.{
  ℕ, suc, ◌+◌, ◌≤◌, ◌<◌, ◌≡◌, ◌≢◌, arith, refl, sym, ap, ◌∙◌, true, ◌⊎◌, inr, Option, none, some,
  List, [], ◌∷◌, ◌++◌, ◌>>=◌, length, length-append, All,
}
use liteflow.Base.Bits.{bit_xor_comm, bit_xor_assoc, bit_xor-zero_left}
use liteflow.Config.{Transport}
use liteflow.Messages.{DataPost, DataFec, post_bytes, post_size, litedt_mtu_max}
use liteflow.Messages.Whole.{PostOk}
use liteflow.Fec.{FecMod, fec_members_max, fec_post, add_to_group, fec_push_data, fec_insert_data}
use liteflow.Fec.Xor.{total, total-append, xor_into_all, post_bytes_end}

abbrev pub cons_some : Option DataFec → List DataFec → List DataFec
cons_some none fs = fs
cons_some (some f) fs = f ∷ fs

-- fec_push_data for one packet after the other, with the messages that are sent.
abbrev pub push_all : Transport → FecMod → List DataPost → List DataFec
push_all cfg fm [] = []
push_all cfg fm (p ∷ ps) =
    cons_some (fec_push_data cfg fm p).1 (push_all cfg (fec_push_data cfg fm p).0 ps)

-- fec_insert_data for one packet after the other.
abbrev pub receive_all : FecMod → List DataPost → Option FecMod
receive_all fm [] = some fm
receive_all fm (p ∷ ps) = do (fm', ret) ← fec_insert_data true fm p; receive_all fm' ps

-- A packet that the sender puts into the group `s`.
pub record InGroup (s : ℕ) (p : DataPost) : Type 0 where
  pub ok : PostOk p
  pub seq : p.fec_seq ≡ s
  pub index : p.fec_index < fec_members_max
  pub fits : post_size + p.len ≤ litedt_mtu_max

-- The same packets in another order.
pub data Reorders : List DataPost → List DataPost → Type 0 where
  nil : Reorders [] []
  keep : (p : DataPost) {ps qs : List DataPost} → Reorders ps qs → Reorders (p ∷ ps) (p ∷ qs)
  swap : (p q : DataPost) (ps : List DataPost) → Reorders (p ∷ q ∷ ps) (q ∷ p ∷ ps)
  trans : {ps qs rs : List DataPost} → Reorders ps qs → Reorders qs rs → Reorders ps rs

xor_swap : (a b c : ℕ) → bit_xor a (bit_xor b c) ≡ bit_xor b (bit_xor a c)
xor_swap a b c =
    sym (bit_xor_assoc a b c) ∙ ap (λ u. bit_xor u c) (bit_xor_comm a b) ∙ bit_xor_assoc b a c

pub total-Reorders : {ps qs : List DataPost} → Reorders ps qs → (i : ℕ) → total ps i ≡ total qs i
total-Reorders nil i = refl
total-Reorders (keep p d) i = ap (bit_xor (post_bytes p i)) (total-Reorders d i)
total-Reorders (swap p q ps) i = xor_swap (post_bytes p i) (post_bytes q i) (total ps i)
total-Reorders (trans d d') i = total-Reorders d i ∙ total-Reorders d' i

pub length-Reorders : {ps qs : List DataPost} → Reorders ps qs → length ps ≡ length qs
length-Reorders nil = refl
length-Reorders (keep p d) = ap suc (length-Reorders d)
length-Reorders (swap p q ps) = refl
length-Reorders (trans d d') = length-Reorders d ∙ length-Reorders d'

pub InGroup-Reorders :
    {ps qs : List DataPost} (s : ℕ) → Reorders ps qs → All (InGroup s) ps → All (InGroup s) qs
InGroup-Reorders s nil h = h
InGroup-Reorders s (keep p d) h = (h.0, InGroup-Reorders s d h.1)
InGroup-Reorders s (swap p q ps) h = (h.1.0, (h.0, h.1.1))
InGroup-Reorders s (trans d d') h = InGroup-Reorders s d' (InGroup-Reorders s d h)

-- The sender has put the packets `pre` into a group of `size` packets.
pub record Sends (s size : ℕ) (pre : List DataPost) (fm : FecMod) : Type 0 where
  pub seq : fm.current_fec_seq ≡ s
  pub members : fm.current_fec_members ≡ size
  pub index : fm.current_fec_index ≡ length pre
  pub bytes : (i : ℕ) → fm.fec_buf i ≡ total pre i
  pub padded : (i : ℕ) → fm.fec_len ≤ i → fm.fec_buf i ≡ 0
  pub len : fm.fec_len ≤ litedt_mtu_max
  pub some_bytes : (length pre ≡ 0) ⊎ (0 < fm.fec_len)

add_to_group-Sends :
    (s size : ℕ) (pre : List DataPost) (fm : FecMod) (p : DataPost)
    → Sends s size pre fm
    → post_size + p.len ≤ litedt_mtu_max
    → length pre < 255
    → Sends s size (pre ++ (p ∷ [])) (add_to_group fm p)
unfolding add_to_group
add_to_group-Sends s size pre fm p h f n = record {
  seq = h.seq;
  members = h.members;
  index = omega (arith, h.index, length-append pre (p ∷ []));
  bytes = λ i.
      ap (λ b. b i) (xor_into_all (post_size + p.len) (post_bytes p) fm.fec_buf (post_bytes_end p))
      ∙ ap (λ u. bit_xor u (post_bytes p i)) (h.bytes i)
      ∙ ap (bit_xor (total pre i))
          (sym (bit_xor_comm (post_bytes p i) 0 ∙ bit_xor-zero_left (post_bytes p i)))
      ∙ sym (total-append pre (p ∷ []) i);
  padded = λ i e. ground (arith, h.padded i, h.len);
  len = ground (arith, h.len);
  some_bytes = inr (ground (arith, h.len));
}

-- The message that the sender makes of the packets `sent`.
pub record IsSum (s : ℕ) (sent : List DataPost) (f : DataFec) : Type 0 where
  pub seq : f.fec_seq ≡ s
  pub members : f.fec_members ≡ length sent
  pub len : 0 < f.fec_len
  pub fits : f.fec_len ≤ litedt_mtu_max
  pub bytes : (i : ℕ) → f.fec_data i ≡ total sent i
  pub padded : (i : ℕ) → f.fec_len ≤ i → f.fec_data i ≡ 0

-- fec_push_data before the group is full, and when it is.
push_filling :
    (cfg : Transport) (fm : FecMod) (p : DataPost)
    → fm.current_fec_index + 1 < fm.current_fec_members
    → fm.current_fec_members < 256
    → fec_push_data cfg fm p ≡ (add_to_group fm p, none)
unfolding fec_push_data add_to_group
push_filling cfg fm p h n = ground arith

-- The message that the full group makes.
full_sum : FecMod → DataFec
full_sum fm = record {
  fec_seq = fm.current_fec_seq;
  fec_members = fm.current_fec_index;
  fec_len = fm.fec_len;
  fec_data = fm.fec_buf;
}

push_full :
    (cfg : Transport) (fm : FecMod) (p : DataPost)
    → fm.current_fec_index + 1 ≡ fm.current_fec_members
    → fm.current_fec_members < 256
    → (fec_push_data cfg fm p).1 ≡ some (full_sum (add_to_group fm p))
unfolding fec_push_data add_to_group fec_post full_sum
push_full cfg fm p h n = ground arith

-- What was sent is one message, the sum of the packets.
pub record SendsSum (s : ℕ) (sent : List DataPost) (messages : List DataFec) : Type 0 where
  pub message : DataFec
  pub only : messages ≡ message ∷ []
  pub sum : IsSum s sent message

full_sum-IsSum :
    (s size : ℕ) (sent : List DataPost) (fm : FecMod)
    → Sends s size sent fm
    → length sent ≢ 0
    → IsSum s sent (full_sum fm)
unfolding full_sum
full_sum-IsSum s size sent fm h n = record {
  seq = h.seq;
  members = h.index;
  len = ground (arith, h.some_bytes);
  fits = h.len;
  bytes = h.bytes;
  padded = h.padded;
}

pub push_all-SendsSum :
    (cfg : Transport) (s size : ℕ) (pre : List DataPost) (p : DataPost) (rest : List DataPost)
    (fm : FecMod)
    → Sends s size pre fm
    → All (InGroup s) (p ∷ rest)
    → length pre + suc (length rest) ≡ size
    → size < 256
    → SendsSum s (pre ++ (p ∷ rest)) (push_all cfg fm (p ∷ rest))
push_all-SendsSum cfg s size pre p [] fm h g e n = record {
  message = full_sum (add_to_group fm p);
  only =
      ap (λ o. cons_some o [])
        (push_full cfg fm p (omega (arith, h.index, h.members)) (omega (arith, h.members)));
  sum =
      full_sum-IsSum s size (pre ++ (p ∷ [])) (add_to_group fm p)
        (add_to_group-Sends s size pre fm p h g.0.fits (omega arith))
        (omega (arith, length-append pre (p ∷ [])));
}
push_all-SendsSum cfg s size pre p (q ∷ rest) fm h g e n =
    rw (push_filling cfg fm p (omega (arith, h.index, h.members)) (omega (arith, h.members))) (
      subst (λ l. SendsSum s l (push_all cfg (add_to_group fm p) (q ∷ rest)))
        (append_assoc pre (p ∷ []) (q ∷ rest))
        (push_all-SendsSum cfg s size (pre ++ (p ∷ [])) q rest (add_to_group fm p)
          (add_to_group-Sends s size pre fm p h g.0.fits (omega arith)) g.1
          (omega (arith, length-append pre (p ∷ []))) n))
