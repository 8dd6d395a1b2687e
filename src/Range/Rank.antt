-- ===== src/Range/Rank.antt =====
-- Integers are ordered as natural numbers are, by their rank.
use go_restconf.GoText.Digits.{u64_mod}
use go_restconf.Number.{
  NumberKind, positive, negative, min_number, max_number, Number, less, add, add_kind,
}
use go_restconf.Number.Order.{
  IsNumber, less-before, before, denote_kind, neg, neg-ltb, neg-ltb_pos, pos-ltb_neg,
}
use go_restconf.Common.{ltb, ltb_ℤ, ℕ, ◌+◌, ◌-◌, ◌*◌, ◌^◌, ◌≤◌, ◌<◌, ◌≡◌, refl, ◌∙◌, some, arith}

abbrev pub zero_rank : ℕ
zero_rank = 2 ^ 65

abbrev pub rank_kind : NumberKind → ℕ → ℕ
rank_kind min_number v = 0
rank_kind max_number v = 2 ^ 66
rank_kind positive v = zero_rank + v
rank_kind negative v = zero_rank - v

-- The place of an integer in the order of `Less`, with room below and above for the least and the
-- greatest number.
abbrev pub rank : Number → ℕ
rank n = rank_kind n.kind n.value

-- An integer of 64 bits with its sign, or the least or the greatest number.
pub record IsInteger (n : Number) : Type 0 where
  pub is_number : IsNumber n
  pub whole : n.fraction_digits ≡ 0

scale : (v w : ℕ) → ltb (v * 10 ^ 18) (w * 10 ^ 18) ≡ ltb v w
scale v w = ground arith

neg_scale : (v w : ℕ) → ltb_ℤ (neg (v * 10 ^ 18)) (neg (w * 10 ^ 18)) ≡ ltb w v
neg_scale v w = neg-ltb (v * 10 ^ 18) (w * 10 ^ 18) ∙ scale w v

before-rank :
    (k l : NumberKind) (v w : ℕ)
    → v < u64_mod
    → w < u64_mod
    → (k ≡ negative → 0 < v)
    → (l ≡ negative → 0 < w)
    → before (denote_kind k (v * 10 ^ 18)) (denote_kind l (w * 10 ^ 18))
      ≡ ltb (rank_kind k v) (rank_kind l w)
before-rank min_number l v w hv hw pv pw = ground arith
before-rank max_number l v w hv hw pv pw = ground arith
before-rank positive negative v w hv hw pv pw =
    pos-ltb_neg (w * 10 ^ 18) (v * 10 ^ 18) ∙ ground arith
before-rank positive l v w hv hw pv pw = ground arith
before-rank negative negative v w hv hw pv pw = neg_scale v w ∙ ground arith
before-rank negative positive v w hv hw pv pw =
    let p : 0 < v = pv refl in neg-ltb_pos (v * 10 ^ 18) (w * 10 ^ 18) (omega arith) ∙ ground arith
before-rank negative l v w hv hw pv pw = ground arith

module _ (n m : Number) (v : IsInteger n) (w : IsInteger m) where
  pub less-rank : less n m ≡ ltb (rank n) (rank m)
  less-rank =
      less-before n m v.is_number w.is_number
      ∙ rw (v.whole, w.whole)
          (before-rank n.kind m.kind n.value m.value v.is_number.value_lt w.is_number.value_lt
            v.is_number.negative_pos w.is_number.negative_pos)

rank_up :
    (k : NumberKind) (n : Number)
    → n.kind ≡ k
    → IsInteger n
    → n.value < u64_mod - 1
    → (IsInteger (add_kind k n 1))
      × (rank n ≤ rank (add_kind k n 1))
      × (rank (add_kind k n 1) ≤ rank n + 1)
unfolding add_kind
rank_up min_number n e w h = (w, omega arith, omega arith)
rank_up max_number n e w h = (w, omega arith, omega arith)
rank_up positive n e w h = ground arith
rank_up negative n e w h = let p : 0 < n.value = w.is_number.negative_pos e in ground arith

pub rank-add :
    (n : Number)
    → IsInteger n
    → n.value < u64_mod - 1
    → (m : Number) × (add n 1 ≡ some m) × IsInteger m × (rank n ≤ rank m) × (rank m ≤ rank n + 1)
rank-add n w h =
    let (i, low, high) = rank_up n.kind n refl w h in
    (add_kind n.kind n 1, unfold add in rw w.whole, i, low, high)
