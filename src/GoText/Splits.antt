-- ===== src/GoText/Splits.antt =====
-- `strings.Split` of what `strings.Join` joined with one byte, and `strings.SplitN` of a text without
-- the separator.
use mathlib.Core.Path.{subst}
use go_restconf.GoText.{is_prefix, split_from, split, join, cons_first, split_cuts}
use go_restconf.GoText.Laws.{Lacks}
use go_restconf.Common.{
  Bytes, All, All-append, ◌==◌, Bool-cases, ℕ, zero, suc, ◌≡◌, refl, sym, ap, ◌∙◌, ◌≢◌, inl, inr,
  true, false, List, [], ◌∷◌, ◌++◌, append_assoc, append-nil, arith,
}

prefix_same : (c : ℕ) (s : Bytes) → is_prefix (c ∷ []) (c ∷ s) ≡ true
unfolding is_prefix
prefix_same c s = ground arith

prefix_other : (c x : ℕ) (s : Bytes) → x ≢ c → is_prefix (c ∷ []) (x ∷ s) ≡ false
unfolding is_prefix
prefix_other c x s ne = ground arith

split_hit :
    (c : ℕ) (cur s : Bytes) → split_from (c ∷ []) 0 cur (c ∷ s) ≡ cur ∷ split_from (c ∷ []) 0 [] s
unfolding split_from
split_hit c cur s = rw (prefix_same c s, split_from) refl

split_miss :
    (c x : ℕ) (cur s : Bytes)
    → x ≢ c
    → split_from (c ∷ []) 0 cur (x ∷ s) ≡ split_from (c ∷ []) 0 (cur ++ x ∷ []) s
unfolding split_from
split_miss c x cur s ne = rw (prefix_other c x s ne, split_from) refl

split_from_part :
    (c : ℕ) (cur part rest : Bytes)
    → Lacks c part
    → split_from (c ∷ []) 0 cur (part ++ c ∷ rest) ≡ (cur ++ part) ∷ split_from (c ∷ []) 0 [] rest
split_from_part c cur [] rest h =
    split_hit c cur rest ∙ ap (λ s. s ∷ split_from (c ∷ []) 0 [] rest) (sym (append-nil cur))
split_from_part c cur (x ∷ part) rest (ne, h) =
    split_miss c x cur (part ++ c ∷ rest) ne
    ∙ split_from_part c (cur ++ x ∷ []) part rest h
    ∙ ap (λ s. s ∷ split_from (c ∷ []) 0 [] rest) (append_assoc cur (x ∷ []) part)

split_from_last :
    (c : ℕ) (cur part : Bytes) → Lacks c part → split_from (c ∷ []) 0 cur part ≡ (cur ++ part) ∷ []
unfolding split_from is_prefix
split_from_last c cur [] h = ap (λ s. s ∷ []) (sym (append-nil cur))
split_from_last c cur (x ∷ part) (ne, h) =
    split_miss c x cur part ne
    ∙ split_from_last c (cur ++ x ∷ []) part h
    ∙ ap (λ s. s ∷ []) (append_assoc cur (x ∷ []) part)

-- Parts without the separator are split again.
pub split-join :
    (c : ℕ) (part : Bytes) (parts : List Bytes)
    → All (Lacks c) (part ∷ parts)
    → split (join (part ∷ parts) (c ∷ [])) (c ∷ []) ≡ part ∷ parts
unfolding split join
split-join c part [] (h, hs) = split_from_last c [] part h
split-join c part (next ∷ parts) (h, hs) =
    split_from_part c [] part (join (next ∷ parts) (c ∷ [])) h
    ∙ ap (◌∷◌ part) (split-join c next parts hs)

-- A text without the separator is one part.
pub split_cuts-Lacks : (k c : ℕ) (s : Bytes) → Lacks c s → split_cuts k c s ≡ s ∷ []
unfolding split_cuts cons_first
split_cuts-Lacks zero c s h = refl
split_cuts-Lacks (suc k) c [] h = refl
split_cuts-Lacks (suc k) c (x ∷ s) (ne, h) =
    let rest = split_cuts-Lacks (suc k) c s h in ground (arith, rest)

split_from-Lacks :
    (c : ℕ) (cur s : Bytes) → Lacks c cur → All (Lacks c) (split_from (c ∷ []) 0 cur s)
unfolding split_from
split_from-Lacks c cur [] h = (h, tt)
split_from-Lacks c cur (x ∷ s) h = elim (Bool-cases (x == c)) [
  | inl same ↦
      let q : x ≡ c = ground arith in
      let next : All (Lacks c) (split_from (c ∷ []) 0 cur (c ∷ s)) =
        rw (split_hit c cur s) (h, split_from-Lacks c [] s tt) in
      subst (λ y. All (Lacks c) (split_from (c ∷ []) 0 cur (y ∷ s))) (sym q) next
  | inr other ↦
      let ne : x ≢ c = ground arith in
      rw (split_miss c x cur s ne)
        (split_from-Lacks c (cur ++ x ∷ []) s (All-append (λ y. y ≢ c) cur (x ∷ []) h (ne, tt)))
]

-- The parts of a split text do not have the separator.
pub split-Lacks : (c : ℕ) (s : Bytes) → All (Lacks c) (split s (c ∷ []))
unfolding split
split-Lacks c s = split_from-Lacks c [] s tt

-- A separator at the start is an empty part.
pub split_first : (c : ℕ) (s : Bytes) → split (c ∷ s) (c ∷ []) ≡ [] ∷ split s (c ∷ [])
unfolding split
split_first c s = split_hit c [] s
