-- ===== src/Fec/Receive.antt =====
-- The packets of a group that the receiver of src/fec.c has, and what fec_insert does with one more.
use Prim.Native.Nat.{bit_xor}
use mathlib.Core.Path.{subst⁻¹}
use liteflow.Base.{
  ℕ, suc, ◌+◌, ◌≤◌, ◌<◌, ◌≡◌, arith, refl, ap, ◌∙◌, true, false, ltb, Option, none, some, List, [],
  ◌∷◌, has, length,
}
use liteflow.Base.Word.{sub32, add32}
use liteflow.Base.Bits.{bit_xor_comm}
use liteflow.Treemap.Shape.{Returns}
use liteflow.Hashqueue.Lookup.{find_key}
use liteflow.Messages.{DataPost, post_bytes, post_size, read_post, litedt_mtu_max}
use liteflow.Fec.{
  Fec, FecMod, InsertRet, accepted, fec_members_max, arrange, put_fec, new_fec, mark, mixed, mix,
  add_member, fec_insert, fec_insert_data, is_rejected,
}
use liteflow.Fec.Xor.{total, xor_into_all, post_bytes_end}

abbrev pub indexes : List DataPost → List ℕ
indexes [] = []
indexes (p ∷ ps) = p.fec_index ∷ indexes ps

-- The group has the packets `got` and not yet the sum.
pub record GroupOf (got : List DataPost) (fec : Fec) : Type 0 where
  pub no_sum : fec.fec_sum ≡ false
  pub finish : fec.fec_finish ≡ length got
  pub mapped : (i : ℕ) → fec.fec_map i ≡ has i (indexes got)
  pub bytes : (i : ℕ) → fec.fec_buf i ≡ total got i

abbrev pub HoldsIn : List DataPost → Option (ℕ × Fec) → Type 0
HoldsIn got none = got ≡ []
HoldsIn got (some (k, fec)) = GroupOf got fec

-- Of the group `s`, exactly the packets `got` were received; and `s` is in the receive window.
pub record Holds (s : ℕ) (got : List DataPost) (fm : FecMod) : Type 0 where
  pub group : HoldsIn got (find_key s fm.fec_queue)
  pub window : ltb (sub32 s fm.fec_recv_start) (sub32 fm.fec_recv_end fm.fec_recv_start) ≡ true

pub find_key-arrange :
    (s : ℕ) (fec : Fec) (xs : List (ℕ × Fec))
    → find_key s xs ≡ none
    → find_key s (arrange s fec xs) ≡ some (s, fec)
unfolding arrange
find_key-arrange s fec [] n = ground arith
find_key-arrange s fec (x ∷ xs) n = ground (arith, find_key-arrange s fec xs)

find_key-put_fec :
    (s k : ℕ) (fec old : Fec) (xs : List (ℕ × Fec))
    → find_key s xs ≡ some (k, old)
    → find_key s (put_fec s fec xs) ≡ some (s, fec)
find_key-put_fec s k fec old [] e = ground arith
find_key-put_fec s k fec old (x ∷ xs) e = ground (arith, find_key-put_fec s k fec old xs)

-- A packet of the group that is new and fits.
pub record IsMember (s : ℕ) (got : List DataPost) (p : DataPost) : Type 0 where
  pub seq : p.fec_seq ≡ s
  pub index : p.fec_index < fec_members_max
  pub fresh : has p.fec_index (indexes got) ≡ false
  pub fits : post_size + p.len ≤ litedt_mtu_max

-- The result of a packet that is accepted.
abbrev pub Accepts : ℕ → List DataPost → Option (FecMod × InsertRet) → Type 0
Accepts s got r = Returns r (λ (fm, ret). (ret ≡ accepted) × Holds s got fm)

pub mix-no_sum :
    (fm : FecMod) (s : ℕ) (fec : Fec) (bytes : ℕ → ℕ) (n : ℕ)
    → fec.fec_sum ≡ false
    → mix fm s fec bytes n
      ≡ some (record fm { fec_queue = put_fec s (mixed fec bytes n) fm.fec_queue }, accepted)
unfolding mix mixed
mix-no_sum fm s fec bytes n e = ground arith

add_member-fresh :
    (fm : FecMod) (s : ℕ) (fec : Fec) (p : DataPost) (bytes : ℕ → ℕ) (n : ℕ)
    → p.fec_index < fec_members_max
    → fec.fec_map p.fec_index ≡ false
    → add_member fm s fec p.fec_index fec_members_max bytes n
      ≡ mix fm s (mark fec p.fec_index (add32 (read_post bytes).seq (read_post bytes).len)) bytes n
unfolding add_member
add_member-fresh fm s fec p bytes n i m = ground arith

GroupOf-mixed :
    (s : ℕ) (got : List DataPost) (p : DataPost) (fec : Fec) (end_ : ℕ)
    → GroupOf got fec
    → IsMember s got p
    → suc (length got) < 256
    → GroupOf (p ∷ got) (mixed (mark fec p.fec_index end_) (post_bytes p) (post_size + p.len))
unfolding mixed mark
GroupOf-mixed s got p fec end_ g m n = record {
  no_sum = g.no_sum;
  finish = ground (arith, g.finish);
  mapped = λ i. ground (arith, g.mapped i);
  bytes = λ i.
      ap (λ f. f i) (xor_into_all (post_size + p.len) (post_bytes p) fec.fec_buf (post_bytes_end p))
      ∙ ap (λ u. bit_xor u (post_bytes p i)) (g.bytes i)
      ∙ bit_xor_comm (total got i) (post_bytes p i);
}

pub add_data :
    (s k : ℕ) (got : List DataPost) (p : DataPost) (fm : FecMod) (fec : Fec)
    → GroupOf got fec
    → find_key s fm.fec_queue ≡ some (k, fec)
    → ltb (sub32 s fm.fec_recv_start) (sub32 fm.fec_recv_end fm.fec_recv_start) ≡ true
    → IsMember s got p
    → suc (length got) < 256
    → Accepts s
        (p ∷ got)
        (add_member fm s fec p.fec_index fec_members_max (post_bytes p) (post_size + p.len))
unfolding mark
add_data s k got p fm fec g e w m n =
    let dp = read_post (post_bytes p) in
    let marked = mark fec p.fec_index (add32 dp.seq dp.len) in
    rw
      (
        add_member-fresh fm s fec p (post_bytes p) (post_size + p.len) m.index
            (g.mapped p.fec_index ∙ m.fresh),
        mix-no_sum fm s marked (post_bytes p) (post_size + p.len)
            (mark-no_sum fec p.fec_index (add32 dp.seq dp.len) g.no_sum),
      )
      (
        refl,
        record {
          group =
              rw
                (find_key-put_fec s k (mixed marked (post_bytes p) (post_size + p.len)) fec
                  fm.fec_queue e)
                (GroupOf-mixed s got p fec (add32 dp.seq dp.len) g m n);
          window = w;
        },
      )
  where
    mark-no_sum : (fec : Fec) (i end_ : ℕ) → fec.fec_sum ≡ false → (mark fec i end_).fec_sum ≡ false
    mark-no_sum fec i end_ h = h

-- The group of fec_insert, found or made.
unfoldable with_group :
    FecMod → ℕ → ℕ → ℕ → (ℕ → ℕ) → ℕ → Option (ℕ × Fec) → Option (FecMod × InsertRet)
with_group fm s fidx fmems bytes n none =
    add_member (record fm { fec_queue = arrange s (new_fec s fmems) fm.fec_queue }) s
      (new_fec s fmems) fidx fmems bytes n
with_group fm s fidx fmems bytes n (some (k, fec)) = add_member fm s fec fidx fmems bytes n

fec_insert-with_group :
    (fm : FecMod) (s fidx fmems : ℕ) (bytes : ℕ → ℕ) (n : ℕ)
    → ltb (sub32 s fm.fec_recv_start) (sub32 fm.fec_recv_end fm.fec_recv_start) ≡ true
    → is_rejected fidx fmems n ≡ false
    → fec_insert true fm s fidx fmems bytes n
      ≡ with_group fm s fidx fmems bytes n (find_key s fm.fec_queue)
unfolding fec_insert with_group
fec_insert-with_group fm s fidx fmems bytes n w r = ground arith

-- A property of add_member on the group, found or made, is one of fec_insert.
pub enters :
    (fm : FecMod) (s fidx fmems : ℕ) (bytes : ℕ → ℕ) (n : ℕ) (got : List DataPost)
    (P : Option (FecMod × InsertRet) → Type 0)
    → Holds s got fm
    → is_rejected fidx fmems n ≡ false
    → ((fm' : FecMod) (k : ℕ) (fec : Fec)
        → find_key s fm'.fec_queue ≡ some (k, fec)
        → GroupOf got fec
        → ltb (sub32 s fm'.fec_recv_start) (sub32 fm'.fec_recv_end fm'.fec_recv_start) ≡ true
        → P (add_member fm' s fec fidx fmems bytes n))
    → P (fec_insert true fm s fidx fmems bytes n)
unfolding with_group new_fec
enters fm s fidx fmems bytes n got P h r f =
    rw (fec_insert-with_group fm s fidx fmems bytes n h.window r)
      (at_group (find_key s fm.fec_queue) refl h.group)
  where
    at_group :
        (o : Option (ℕ × Fec))
        → find_key s fm.fec_queue ≡ o
        → HoldsIn got o
        → P (with_group fm s fidx fmems bytes n o)
    at_group none e g =
        f _ s (new_fec s fmems) (find_key-arrange s (new_fec s fmems) fm.fec_queue e)
          (rw g (record { no_sum = refl; finish = refl; mapped = λ i. refl; bytes = λ i. refl }))
          h.window
    at_group (some (k, fec)) e g = f fm k fec e g h.window

pub not_rejected :
    (i n : ℕ)
    → i < fec_members_max
    → 0 < n
    → n ≤ litedt_mtu_max
    → is_rejected i fec_members_max n ≡ false
unfolding is_rejected
not_rejected i n a z b = ground arith

-- A new packet of the group that fits is accepted.
pub fec_insert_data-Accepts :
    (fm : FecMod) (s : ℕ) (got : List DataPost) (p : DataPost)
    → Holds s got fm
    → IsMember s got p
    → suc (length got) < 256
    → Accepts s (p ∷ got) (fec_insert_data true fm p)
unfolding fec_insert_data
fec_insert_data-Accepts fm s got p h m n =
    subst⁻¹
      (λ t.
        Accepts s (p ∷ got)
          (fec_insert true fm t p.fec_index fec_members_max (post_bytes p) (post_size + p.len)))
      m.seq
      (enters fm s p.fec_index fec_members_max (post_bytes p) (post_size + p.len) got
        (Accepts s (p ∷ got)) h
        (not_rejected p.fec_index (post_size + p.len) m.index (omega arith) m.fits)
        (λ fm' k fec e g w. add_data s k got p fm' fec g e w m n))
