-- ===== src/Fec/Lost.antt =====
-- A group of src/fec.c with one packet lost, end to end.
use Prim.Native.Nat.{bit_xor}
use liteflow.Base.{
  inl, ℕ, ◌+◌, ◌≤◌, ◌<◌, ◌≡◌, arith, refl, sym, ap, ◌∙◌, true, false, ◌||◌, Option, none, some,
  List, [], ◌∷◌, ◌++◌, ◌>>=◌, has, Distinct, length, All,
}
use mathlib.Core.List.{append-nil}
use liteflow.Config.{Transport}
use liteflow.Treemap.Shape.{Returns}
use liteflow.Messages.{DataPost, DataFec, post_bytes}
use liteflow.Fec.{FecMod, InsertRet, recovered, fec_members_max, fec_insert_data, fec_insert_sum}
use liteflow.Fec.Xor.{total}
use liteflow.Fec.Receive.{indexes, Holds, IsMember, Accepts, fec_insert_data-Accepts}
use liteflow.Fec.Recover.{IsSumOf, fec_insert_sum-recovers}
use liteflow.Fec.Group.{
  push_all, receive_all, InGroup, Reorders, nil, keep, swap, trans, total-Reorders, length-Reorders,
  InGroup-Reorders, Sends, IsSum, push_all-SendsSum,
}

-- `ps`, reversed, before `acc`.
abbrev rev_onto : List DataPost → List DataPost → List DataPost
rev_onto [] acc = acc
rev_onto (p ∷ ps) acc = rev_onto ps (p ∷ acc)

Reorders_refl : (ps : List DataPost) → Reorders ps ps
Reorders_refl [] = nil
Reorders_refl (p ∷ ps) = keep p (Reorders_refl ps)

middle :
    (ps : List DataPost) (p : DataPost) (qs : List DataPost)
    → Reorders (ps ++ (p ∷ qs)) (p ∷ (ps ++ qs))
middle [] p qs = Reorders_refl (p ∷ qs)
middle (x ∷ ps) p qs = trans (keep x (middle ps p qs)) (swap x p (ps ++ qs))

rev_onto-Reorders : (ps acc : List DataPost) → Reorders (rev_onto ps acc) (ps ++ acc)
rev_onto-Reorders [] acc = Reorders_refl acc
rev_onto-Reorders (p ∷ ps) acc = trans (rev_onto-Reorders ps (p ∷ acc)) (middle ps p acc)

has-rev_onto :
    (i : ℕ) (ps acc : List DataPost)
    → has i (indexes (rev_onto ps acc)) ≡ (has i (indexes ps) || has i (indexes acc))
has-rev_onto i [] acc = refl
has-rev_onto i (p ∷ ps) acc = ground (arith, has-rev_onto i ps (p ∷ acc))

length-rev_onto : (ps acc : List DataPost) → length (rev_onto ps acc) ≡ length ps + length acc
length-rev_onto [] acc = omega arith
length-rev_onto (p ∷ ps) acc = omega (arith, length-rev_onto ps (p ∷ acc))

after_one :
    (fm : FecMod) (p : DataPost) (ps : List DataPost) (s : ℕ) (got all : List DataPost)
    → Accepts s got (fec_insert_data true fm p)
    → ((fm' : FecMod) → Holds s got fm' → Returns (receive_all fm' ps) (Holds s all))
    → Returns (receive_all fm (p ∷ ps)) (Holds s all)
after_one fm p ps s got all a f = go (fec_insert_data true fm p) a
  where
    go :
        (o : Option (FecMod × InsertRet))
        → Accepts s got o
        → Returns (o >>= (λ (fm', ret). receive_all fm' ps)) (Holds s all)
    go none a = a
    go (some (fm', ret)) a = f fm' a.1

receive_all-Holds :
    (s : ℕ) (ps acc : List DataPost) (fm : FecMod)
    → Holds s acc fm
    → All (InGroup s) ps
    → Distinct (indexes ps)
    → ((i : ℕ) → has i (indexes ps) ≡ true → has i (indexes acc) ≡ false)
    → length ps + length acc < 127
    → Returns (receive_all fm ps) (Holds s (rev_onto ps acc))
receive_all-Holds s [] acc fm h g d f n = h
receive_all-Holds s (p ∷ ps) acc fm h g d f n =
    after_one fm p ps s (p ∷ acc) (rev_onto ps (p ∷ acc))
      (fec_insert_data-Accepts fm s acc p h
        (record {
          seq = g.0.seq;
          index = g.0.index;
          fresh = f p.fec_index (ground arith);
          fits = g.0.fits;
        })
        (omega arith))
      (λ fm' h'.
        receive_all-Holds s ps (p ∷ acc) fm' h' g.1 d.1 (λ i e. ground (arith, f i)) (omega arith))

-- The receiver gets the packets and then each message: what the last fec_insert_sum returns.
abbrev pub deliver : FecMod → List DataPost → List DataFec → Option InsertRet
deliver fm got [] = none
deliver fm got (f ∷ fs) = do
  fm' ← receive_all fm got
  (fm'', ret) ← fec_insert_sum true fm' f
  some ret

-- A sender at the start of a group of `size` packets.
pub record IsStart (size : ℕ) (fm : FecMod) : Type 0 where
  pub members : fm.current_fec_members ≡ size
  pub index : fm.current_fec_index ≡ 0
  pub bytes : (i : ℕ) → fm.fec_buf i ≡ 0
  pub len : fm.fec_len ≡ 0

deliver-recovers :
    (fm : FecMod) (s : ℕ) (got all : List DataPost) (lost : DataPost) (f : DataFec)
    → Returns (receive_all fm got) (Holds s all)
    → IsSumOf s all lost f
    → IsMember s all lost
    → InGroup s lost
    → deliver fm got (f ∷ []) ≡ some (recovered lost)
deliver-recovers fm s got all lost f r m l g = go (receive_all fm got) r
  where
    last :
        (o : Option (FecMod × InsertRet))
        → Returns o (λ (fm', ret). ret ≡ recovered lost)
        → (o >>= (λ (fm', ret). some ret)) ≡ some (recovered lost)
    last none e = absurd e
    last (some (fm', ret)) e = ap some e

    go :
        (o : Option FecMod)
        → Returns o (Holds s all)
        → (o >>= (λ fm'. fec_insert_sum true fm' f >>= (λ (fm'', ret). some ret)))
          ≡ some (recovered lost)
    go none h = absurd h
    go (some fm') h =
        last (fec_insert_sum true fm' f) (fec_insert_sum-recovers fm' s all lost f h m l g.ok)

Sends-start : (size : ℕ) (fm : FecMod) → IsStart size fm → Sends fm.current_fec_seq size [] fm
Sends-start size fm b = record {
  seq = refl;
  members = b.members;
  index = b.index;
  bytes = b.bytes;
  padded = λ i e. b.bytes i;
  len = omega (arith, b.len);
  some_bytes = inl refl;
}

-- The order in which the packets arrived does not matter.
total-received : (got : List DataPost) (i : ℕ) → total (rev_onto got []) i ≡ total got i
total-received got i =
    total-Reorders (rev_onto-Reorders got []) i ∙ ap (λ l. total l i) (append-nil got)

IsSumOf-IsSum :
    (s : ℕ) (got sent : List DataPost) (lost : DataPost) (f : DataFec)
    → IsSum s sent f
    → Reorders (lost ∷ got) sent
    → length sent ≤ fec_members_max
    → IsSumOf s (rev_onto got []) lost f
IsSumOf-IsSum s got sent lost f m r n = record {
  seq = m.seq;
  members = omega (arith, m.members, length-Reorders r, length-rev_onto got []);
  few = omega (arith, m.members);
  len = m.len;
  fits = m.fits;
  bytes = λ i.
      m.bytes i
      ∙ sym (total-Reorders r i)
      ∙ ap (bit_xor (post_bytes lost i)) (sym (total-received got i));
  padded = m.padded;
}

-- A sender puts the packets `sent` into one group, and a peer that has none of the group and has it in
-- its window gets all but `lost`, in any order, and then what the sender sent for the group: it recovers
-- exactly the packet `lost`. The packets have their fields within their widths, distinct indexes below
-- 127 and fit the largest packet, and they fill the group.
pub lost_packet_recovered :
    (cfg : Transport) (sender receiver : FecMod) (sent got : List DataPost) (lost : DataPost)
    → IsStart (length sent) sender
    → Holds sender.current_fec_seq [] receiver
    → Reorders (lost ∷ got) sent
    → All (InGroup sender.current_fec_seq) (lost ∷ got)
    → Distinct (indexes (lost ∷ got))
    → length sent ≤ fec_members_max
    → deliver receiver got (push_all cfg sender sent) ≡ some (recovered lost)
lost_packet_recovered cfg sender receiver [] got lost b h r g d n =
    absurd (omega (arith, length-Reorders r))
lost_packet_recovered cfg sender receiver (p ∷ ps) got lost b h r g d n =
    let s = sender.current_fec_seq in
    let all = rev_onto got [] in
    let sum =
      push_all-SendsSum cfg s (length (p ∷ ps)) [] p ps sender
        (Sends-start (length (p ∷ ps)) sender b) (InGroup-Reorders s r g) (omega arith)
        (omega arith) in
    rw (sum.only) (
      deliver-recovers receiver s got all lost sum.message
        (receive_all-Holds s got [] receiver h g.1 d.1 (λ i e. refl)
          (omega (arith, length-Reorders r)))
        (IsSumOf-IsSum s got (p ∷ ps) lost sum.message sum.sum r n)
        (record {
          seq = g.0.seq;
          index = g.0.index;
          fresh = has-rev_onto lost.fec_index got [] ∙ ground (arith, d.0);
          fits = g.0.fits;
        })
        g.0)
