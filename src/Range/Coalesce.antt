-- ===== src/Range/Coalesce.antt =====
-- `coalesce` of sorted integer ranges: it ends without a panic, keeps the members, and leaves a gap
-- of at least one integer between any two ranges.
use go_restconf.GoText.Digits.{u64_mod}
use go_restconf.Number.{Number, less, add}
use go_restconf.Range.{YRange, YangRange, coalesce_loop, coalesce}
use go_restconf.Range.Rank.{IsInteger, rank, less-rank, rank-add}
use go_restconf.Common.{
  All, ltb, ltb→lt, ltb→le, ok, ℕ, ◌+◌, ◌-◌, ◌≤◌, ◌<◌, ◌≡◌, refl, ap, ◌∙◌, Bool, true, false, not,
  ◌&&◌, ◌||◌, some, [], ◌∷◌, arith, Bool-cases, inl, inr,
}

-- The number lies in the range, by the program's own order.
unfoldable pub within : Number → YRange → Bool
within x r = not (less x r.min) && not (less r.max x)

unfoldable pub in_ranges : Number → YangRange → Bool
in_ranges x [] = false
in_ranges x (r ∷ rs) = within x r || in_ranges x rs

-- A range of integers, not empty, that does not reach the greatest `uint64`.
pub record IsPlain (r : YRange) : Type 0 where
  pub min_integer : IsInteger r.min
  pub max_integer : IsInteger r.max
  pub not_empty : rank r.min ≤ rank r.max
  pub room : r.max.value < u64_mod - 1

-- The ranges start in order, none before `low`.
abbrev pub IsSortedFrom : ℕ → YangRange → Type 0
IsSortedFrom low [] = Unit
IsSortedFrom low (r ∷ rs) = (low ≤ rank r.min) × IsSortedFrom (rank r.min) rs

-- The number behind the first range is still before the second.
pub record IsApart (r q : YRange) : Type 0 where
  pub next : Number
  pub next_is : add r.max 1 ≡ some next
  pub before : less next q.min ≡ true

abbrev pub AllApart : YangRange → Type 0
AllApart [] = Unit
AllApart (r ∷ []) = Unit
AllApart (r ∷ q ∷ rs) = IsApart r q × AllApart (q ∷ rs)

within-rank :
    (x : Number) (r : YRange)
    → IsInteger x
    → IsPlain r
    → within x r ≡ (not (ltb (rank x) (rank r.min)) && not (ltb (rank r.max) (rank x)))
unfolding within
within-rank x r w p = rw (less-rank x r.min w p.min_integer, less-rank r.max x p.max_integer w)

merge_numbers :
    (a b c d x : ℕ)
    → a ≤ c
    → c ≤ b + 1
    → b < d
    → (not (ltb x a) && not (ltb d x))
      ≡ ((not (ltb x a) && not (ltb b x)) || (not (ltb x c) && not (ltb d x)))
merge_numbers a b c d x h k l = ground arith

absorb_numbers :
    (a b c d x : ℕ)
    → a ≤ c
    → d ≤ b
    → (not (ltb x a) && not (ltb b x))
      ≡ ((not (ltb x a) && not (ltb b x)) || (not (ltb x c) && not (ltb d x)))
absorb_numbers a b c d x h k = ground arith

or_assoc : (a b c : Bool) → ((a || b) || c) ≡ (a || (b || c))
or_assoc a b c = ground arith

-- What the loop makes of `cur` and the ranges behind it.
record Coalesced (cur : YRange) (rs : YangRange) : Type 0 where
  first : YRange
  rest : YangRange
  result : coalesce_loop cur rs ≡ ok (first ∷ rest)
  starts : first.min ≡ cur.min
  members : (x : Number) → IsInteger x → in_ranges x (first ∷ rest) ≡ in_ranges x (cur ∷ rs)
  apart : AllApart (first ∷ rest)
  plain : All IsPlain (first ∷ rest)

module _ (cur r1 : YRange) (rs : YangRange) (p : IsPlain cur) (q : IsPlain r1)
    (low : rank cur.min ≤ rank r1.min) where
  merged : YRange
  merged = record cur { max = r1.max }

  merged-IsPlain : rank cur.max ≤ rank r1.max → IsPlain merged
  unfolding merged
  merged-IsPlain h = record {
    min_integer = p.min_integer;
    max_integer = q.max_integer;
    not_empty = let e = p.not_empty in omega arith;
    room = q.room;
  }

  module _ {next : Number} (e : add cur.max 1 ≡ some next) (i : IsInteger next)
      (up : rank next ≤ rank cur.max + 1) where
    loop_new : less next r1.min ≡ true → Coalesced r1 rs → Coalesced cur (r1 ∷ rs)
    unfolding in_ranges
    loop_new lt c = record {
      first = cur;
      rest = c.first ∷ c.rest;
      result = unfold coalesce_loop in rw (e, lt, c.result, coalesce_loop);
      starts = refl;
      members = λ x w. ap (λ b. within x cur || b) (c.members x w);
      apart = (record { next = next; next_is = e; before = rw c.starts lt }, c.apart);
      plain = (p, c.plain);
    }

    loop_merge :
        less next r1.min ≡ false
        → less cur.max r1.max ≡ true
        → Coalesced merged rs
        → Coalesced cur (r1 ∷ rs)
    unfolding in_ranges
    loop_merge ge lt c = record {
      first = c.first;
      rest = c.rest;
      result = unfold coalesce_loop merged in rw (e, ge, lt, coalesce_loop) c.result;
      starts = unfold merged in c.starts;
      members = λ x w.
          c.members x w
          ∙ ap (λ b. b || in_ranges x rs) (merge_within x w)
          ∙ or_assoc (within x cur) (within x r1) (in_ranges x rs);
      apart = c.apart;
      plain = c.plain;
    }
      where
        touching : rank r1.min ≤ rank cur.max + 1
        touching =
            let h = rw (less-rank next r1.min i q.min_integer) at ge in
            omega (arith, ltb→le (rank next) (rank r1.min) h)

        longer : rank cur.max < rank r1.max
        longer = ltb→lt _ _ (rw (less-rank cur.max r1.max p.max_integer q.max_integer) at lt)

        merge_within : (x : Number) → IsInteger x → within x merged ≡ (within x cur || within x r1)
        merge_within x w =
            rw
              (
                within-rank x merged w (merged-IsPlain (omega (arith, longer))),
                within-rank x cur w p,
                within-rank x r1 w q,
              )
              (unfold merged in
                merge_numbers (rank cur.min) (rank cur.max) (rank r1.min) (rank r1.max) (rank x) low
                  touching longer)

    loop_absorb :
        less next r1.min ≡ false
        → less cur.max r1.max ≡ false
        → Coalesced cur rs
        → Coalesced cur (r1 ∷ rs)
    unfolding in_ranges
    loop_absorb ge le c = record {
      first = c.first;
      rest = c.rest;
      result = unfold coalesce_loop in rw (e, ge, le, coalesce_loop) c.result;
      starts = c.starts;
      members = λ x w.
          c.members x w
          ∙ ap (λ b. b || in_ranges x rs) (absorb_within x w)
          ∙ or_assoc (within x cur) (within x r1) (in_ranges x rs);
      apart = c.apart;
      plain = c.plain;
    }
      where
        shorter : rank r1.max ≤ rank cur.max
        shorter = ltb→le _ _ (rw (less-rank cur.max r1.max p.max_integer q.max_integer) at le)

        absorb_within : (x : Number) → IsInteger x → within x cur ≡ (within x cur || within x r1)
        absorb_within x w =
            rw (within-rank x cur w p, within-rank x r1 w q)
              (absorb_numbers (rank cur.min) (rank cur.max) (rank r1.min) (rank r1.max) (rank x) low
                shorter)

IsSortedFrom-le :
    (low low' : ℕ) (rs : YangRange) → low' ≤ low → IsSortedFrom low rs → IsSortedFrom low' rs
IsSortedFrom-le low low' [] h s = tt
IsSortedFrom-le low low' (r ∷ rs) h (a, s) = (omega arith, s)

coalesce_loop_lem :
    (rs : YangRange) (cur : YRange)
    → IsPlain cur
    → All IsPlain rs
    → IsSortedFrom (rank cur.min) rs
    → Coalesced cur rs
coalesce_loop_lem [] cur p ps s = record {
  first = cur;
  rest = [];
  result = unfold coalesce_loop in refl;
  starts = refl;
  members = λ x w. refl;
  apart = tt;
  plain = (p, tt);
}
coalesce_loop_lem (r1 ∷ rs) cur p (q, ps) (low, s) =
    let (next, e, i, down, up) = rank-add cur.max p.max_integer p.room in
    let s' = IsSortedFrom-le (rank r1.min) (rank cur.min) rs low s in
    elim (Bool-cases (less next r1.min)) [
      | inl lt ↦ loop_new cur r1 rs p q low e i up lt (coalesce_loop_lem rs r1 q ps s)
      | inr ge ↦ elim (Bool-cases (less cur.max r1.max)) [
        | inl lt ↦ loop_merge cur r1 rs p q low e i up ge lt (
            coalesce_loop_lem rs (merged cur r1 rs p q low)
              (merged-IsPlain cur r1 rs p q low (
                let h =
                  ltb→lt (rank cur.max) (rank r1.max)
                    (rw (less-rank cur.max r1.max p.max_integer q.max_integer) at lt) in
                omega arith))
              ps (unfold merged in s'))
        | inr le ↦ loop_absorb cur r1 rs p q low e i up ge le (coalesce_loop_lem rs cur p ps s')
      ]
    ]

-- Sorted, plain integer ranges are coalesced with no error and no panic. The result has the same
-- integers, is plain, and the number behind each of its ranges is still before the next range.
pub coalesce_lem :
    (r : YangRange)
    → All IsPlain r
    → IsSortedFrom 0 r
    → (out : YangRange) × (coalesce r ≡ ok out)
      × ((x : Number) → IsInteger x → in_ranges x out ≡ in_ranges x r)
      × AllApart out
      × All IsPlain out
unfolding coalesce
coalesce_lem [] p s = ([], refl, λ x w. refl, tt, tt)
coalesce_lem (r ∷ []) p s = (r ∷ [], refl, λ x w. refl, tt, p)
coalesce_lem (r ∷ q ∷ rs) (p, ps) (_, s) =
    let c = coalesce_loop_lem (q ∷ rs) r p ps s in
    (c.first ∷ c.rest, c.result, c.members, c.apart, c.plain)
