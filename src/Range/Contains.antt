-- ===== src/Range/Contains.antt =====
-- `Contains` answers true only where every integer of the second list lies in the first.
use go_restconf.Number.{Number, is_min, is_max, less}
use go_restconf.Range.{YRange, YangRange, advance, contains_loop, contains}
use go_restconf.Range.Coalesce.{within, in_ranges}
use go_restconf.Range.Rank.{IsInteger, rank, less-rank}
use go_restconf.Common.{
  All, ltb, if◌then◌else◌, Bool-cases, Option-cases, ℕ, ◌≡◌, refl, sym, ◌∙◌, ◌≢◌, inl, inr, Bool,
  true, false, not, ◌&&◌, ◌||◌, Option, none, some, [], ◌∷◌, arith,
}

-- A range of integers with bounds of its own: neither starts at `min` nor ends at `max`.
pub record IsBounded (r : YRange) : Type 0 where
  pub min_integer : IsInteger r.min
  pub max_integer : IsInteger r.max
  pub not_min : is_min r.min.kind ≡ false
  pub not_max : is_max r.max.kind ≡ false

pub record IsIntegerRange (r : YRange) : Type 0 where
  pub min_integer : IsInteger r.min
  pub max_integer : IsInteger r.max

-- What `advance` passes over it passes over for good, and what it returns was there.
advance_keeps :
    (low : Number) (rc : YangRange) (rr r : YRange) (rest : YangRange) (x : Number)
    → advance low rr rc ≡ some (r, rest)
    → in_ranges x (r ∷ rest) ≡ true
    → in_ranges x (rr ∷ rc) ≡ true
unfolding advance in_ranges
advance_keeps low [] rr r rest x e h = ground arith
advance_keeps low (q ∷ rc) rr r rest x e h = ground (arith, advance_keeps low rc q r rest x)

abbrev AllLeft : Option (YRange × YangRange) → Type 0
AllLeft none = Unit
AllLeft (some (r, rest)) = All IsIntegerRange (r ∷ rest)

advance_integers :
    (low : Number) (rc : YangRange) (rr : YRange)
    → All IsIntegerRange (rr ∷ rc)
    → AllLeft (advance low rr rc)
unfolding advance
advance_integers low [] rr h = elim (Bool-cases (less rr.max low)) [
  | inl lt ↦ rw lt tt
  | inr ge ↦ rw ge h
]
advance_integers low (q ∷ rc) rr h = elim (Bool-cases (less rr.max low)) [
  | inl lt ↦ rw (lt, advance) (advance_integers low rc q h.1)
  | inr ge ↦ rw (ge, advance) h
]

covered_numbers :
    (a b c d x : ℕ)
    → ltb a c ≡ false
    → ltb d b ≡ false
    → (not (ltb x a) && not (ltb b x)) ≡ true
    → (not (ltb x c) && not (ltb d x)) ≡ true
covered_numbers a b c d x h k m = ground arith

-- A range that starts no earlier and ends no later than another lies in it.
within_covered :
    (x : Number) (r s : YRange)
    → IsInteger x
    → IsIntegerRange r
    → IsBounded s
    → less s.min r.min ≡ false
    → less r.max s.max ≡ false
    → within x s ≡ true
    → within x r ≡ true
unfolding within
within_covered x r s w p q a b h =
    let a' = rw (less-rank s.min r.min q.min_integer p.min_integer) at a in
    let b' = rw (less-rank r.max s.max p.max_integer q.max_integer) at b in
    let h' = rw (less-rank x s.min w q.min_integer, less-rank s.max x q.max_integer w) at h in
    rw (less-rank x r.min w p.min_integer, less-rank r.max x p.max_integer w)
      (covered_numbers (rank s.min) (rank s.max) (rank r.min) (rank r.max) (rank x) a' b' h')

bounded_answer :
    (x n a b more : Bool)
    → n ≡ false
    → x ≡ false
    → (if x || n then more else if a || b then false else more) ≡ true
    → (a ≡ false) × (b ≡ false) × (more ≡ true)
bounded_answer x n a b more p q h = ground arith

-- The tests behind the search for the range.
answer_covers :
    (ss r : YRange) (more : Bool)
    → IsBounded ss
    → (if is_max ss.max.kind || false
        then more
        else if less ss.min r.min || less r.max ss.max
        then false
        else more)
      ≡ true
    → (less ss.min r.min ≡ false) × (less r.max ss.max ≡ false) × (more ≡ true)
answer_covers ss r more b =
    bounded_answer (is_max ss.max.kind) false (less ss.min r.min) (less r.max ss.max) more refl
      b.not_max

contains_none :
    (ss : YRange) (s : YangRange) (rr : YRange) (rc : YangRange)
    → is_min ss.min.kind ≡ false
    → advance ss.min rr rc ≡ none
    → contains_loop (ss ∷ s) rr rc ≡ false
contains_none ss s rr rc n e = unfold contains_loop in rw (n, e, contains_loop)

contains_some :
    (ss : YRange) (s : YangRange) (rr : YRange) (rc : YangRange) (r : YRange) (rest : YangRange)
    → is_min ss.min.kind ≡ false
    → advance ss.min rr rc ≡ some (r, rest)
    → contains_loop (ss ∷ s) rr rc ≡ (
        if is_max ss.max.kind || false
        then contains_loop s r rest
        else if less ss.min r.min || less r.max ss.max
        then false
        else contains_loop s r rest)
contains_some ss s rr rc r rest n e = unfold contains_loop in rw (n, e, n, contains_loop)

in_first_or_rest :
    (x : Number) (r s : YRange) (rest ss : YangRange)
    → (within x s ≡ true → within x r ≡ true)
    → (in_ranges x ss ≡ true → in_ranges x (r ∷ rest) ≡ true)
    → in_ranges x (s ∷ ss) ≡ true
    → in_ranges x (r ∷ rest) ≡ true
unfolding in_ranges
in_first_or_rest x r s rest ss f g h = ground arith

contains_loop_sound :
    (s : YangRange) (rr : YRange) (rc : YangRange)
    → All IsIntegerRange (rr ∷ rc)
    → All IsBounded s
    → contains_loop s rr rc ≡ true
    → (x : Number) → IsInteger x
    → in_ranges x s ≡ true
    → in_ranges x (rr ∷ rc) ≡ true
contains_loop_sound [] rr rc i b h x w m = absurd (unfold in_ranges in cc)
contains_loop_sound (ss ∷ s) rr rc i (b, bs) h x w m = elim (Option-cases (advance ss.min rr rc)) [
  | inl e ↦ absurd (let f = contains_none ss s rr rc b.not_min e in cc)
  | inr ((r, rest), e) ↦
      let step = contains_some ss s rr rc r rest b.not_min e in
      let (low, high, more) = answer_covers ss r (contains_loop s r rest) b (sym step ∙ h) in
      let left : AllLeft (some (r, rest)) = rw e at (advance_integers ss.min rc rr i) in
      advance_keeps ss.min rc rr r rest x e (
        in_first_or_rest x r ss rest s (within_covered x r ss w left.0 b low high)
          (contains_loop_sound s r rest left bs more x w) m)
]

-- Where `Contains` answers true for lists of integer ranges, of which the first is not empty and the
-- second has no `min` or `max` bound, each integer of the second list lies in the first.
pub contains_sound :
    (r s : YangRange)
    → r ≢ []
    → All IsIntegerRange r
    → All IsBounded s
    → contains r s ≡ true
    → (x : Number) → IsInteger x
    → in_ranges x s ≡ true
    → in_ranges x r ≡ true
contains_sound [] s ne i b h x w m = absurd (ne refl)
contains_sound (rr ∷ rc) [] ne i b h x w m = absurd (unfold in_ranges in cc)
contains_sound (rr ∷ rc) (ss ∷ s) ne i b h x w m =
    contains_loop_sound (ss ∷ s) rr rc i b (unfold contains in h) x w m
