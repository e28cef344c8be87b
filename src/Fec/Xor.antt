-- ===== src/Fec/Xor.antt =====
-- The exclusive or of the packets of a group.
use Prim.Native.Nat.{bit_xor}
use mathlib.Core.Path.{fun_ext}
use liteflow.Base.{
  ℕ, zero, suc, ◌+◌, ◌-◌, ◌/◌, ◌≤◌, ◌≡◌, arith, refl, sym, ap, ◌∙◌, List, [], ◌∷◌, ◌++◌,
}
use liteflow.Base.Bits.{bit_xor-zero_left, bit_xor_comm, bit_xor_assoc, bit_xor_self}
use liteflow.Messages.{DataPost, post_bytes, post_size, put_le, put_bytes, no_bytes}
use liteflow.Fec.{xor_into}

abbrev pub xor_bytes : (ℕ → ℕ) → (ℕ → ℕ) → ℕ → ℕ
xor_bytes a b i = bit_xor (a i) (b i)

-- The bytes of all the packets combined.
abbrev pub total : List DataPost → ℕ → ℕ
total [] i = 0
total (p ∷ ps) i = bit_xor (post_bytes p i) (total ps i)

bit_xor-zero_right : (a : ℕ) → bit_xor a 0 ≡ a
bit_xor-zero_right a = bit_xor_comm a 0 ∙ bit_xor-zero_left a

pub total-append :
    (ps qs : List DataPost) (i : ℕ) → total (ps ++ qs) i ≡ bit_xor (total ps i) (total qs i)
total-append [] qs i = sym (bit_xor-zero_left (total qs i))
total-append (p ∷ ps) qs i =
    ap (bit_xor (post_bytes p i)) (total-append ps qs i)
    ∙ sym (bit_xor_assoc (post_bytes p i) (total ps i) (total qs i))

-- A packet may be taken out of the middle.
pub total_middle :
    (ps : List DataPost) (p : DataPost) (qs : List DataPost) (i : ℕ)
    → total (ps ++ (p ∷ qs)) i ≡ bit_xor (post_bytes p i) (total (ps ++ qs) i)
total_middle [] p qs i = refl
total_middle (x ∷ ps) p qs i =
    ap (bit_xor (post_bytes x i)) (total_middle ps p qs i)
    ∙ sym (bit_xor_assoc (post_bytes x i) (post_bytes p i) (total (ps ++ qs) i))
    ∙ ap (λ u. bit_xor u (total (ps ++ qs) i)) (bit_xor_comm (post_bytes x i) (post_bytes p i))
    ∙ bit_xor_assoc (post_bytes p i) (post_bytes x i) (total (ps ++ qs) i)

-- Combining with the rest takes the rest away.
pub xor_cancel : (a b : ℕ) → bit_xor b (bit_xor a b) ≡ a
xor_cancel a b =
    ap (bit_xor b) (bit_xor_comm a b)
    ∙ sym (bit_xor_assoc b b a)
    ∙ ap (λ u. bit_xor u a) (bit_xor_self b)
    ∙ bit_xor-zero_left a

put_le_end : (w n : ℕ) (rest : ℕ → ℕ) (i : ℕ) → w ≤ i → put_le w n rest i ≡ rest (i - w)
put_le_end zero n rest i h = ap rest (omega arith)
put_le_end (suc w) n rest zero h = absurd (omega arith)
put_le_end (suc w) n rest (suc i) h =
    put_le_end w (n / 256) rest i (omega arith) ∙ ap rest (omega arith)

-- Past their end the bytes of a packet are 0.
pub post_bytes_end : (p : DataPost) (i : ℕ) → post_size + p.len ≤ i → post_bytes p i ≡ 0
post_bytes_end p i h = ground (
  arith,
  put_le_end 4 p.seq _ i,
  put_le_end 2 p.len _ (i - 4),
  put_le_end 4 p.fec_seq _ (i - 4 - 2),
  put_le_end 1 p.fec_index (put_bytes p.len p.payload no_bytes) (i - 4 - 2 - 4),
)

pub xor_into_all :
    (n : ℕ) (src buf : ℕ → ℕ)
    → ((i : ℕ) → n ≤ i → src i ≡ 0)
    → xor_into n src buf ≡ xor_bytes buf src
xor_into_all n src buf h = fun_ext (λ i. ground (arith, h i, bit_xor-zero_right (buf i)))
