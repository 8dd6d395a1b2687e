-- ===== src/Entry/Sort/Laws.antt =====
-- The order of errors is decided where both texts have a field behind the first, and never says that
-- each of two errors is less than the other.
use go_restconf.GoText.{split_cuts}
use go_restconf.GoText.Digits.{parse_int}
use go_restconf.Values.{text_less}
use go_restconf.Values.Revisions.{text_less_asym}
use go_restconf.Entry.Sort.{
  Sign, before, same, after, sign, nless_parsed, nless, nless_at, compare_field, less_rounds,
  less_fields, less, decided,
}
use go_restconf.Common.{
  Bytes, length, get_elem?, is_some, ℤ, ltb_ℤ, ℕ, zero, suc, ◌<◌, ◌≡◌, refl, ap, Bool, true, false,
  Option, none, some, List, [], ◌∷◌, arith,
}

abbrev flip : Sign → Sign
flip before = after
flip same = same
flip after = before

sign-flip : (p q : Bool) → (p ≡ true → q ≡ false) → sign q p ≡ flip (sign p q)
unfolding sign
sign-flip true true h = let e = h refl in absurd (cc)
sign-flip true false h = refl
sign-flip false true h = refl
sign-flip false false h = refl

ltb_ℤ_asym : (a b : ℤ) → ltb_ℤ a b ≡ true → ltb_ℤ b a ≡ false
ltb_ℤ_asym a b h = ground arith

nless_parsed-flip :
    (a b : Bytes) (an bn : Option ℤ) → nless_parsed b a bn an ≡ flip (nless_parsed a b an bn)
unfolding nless_parsed
nless_parsed-flip a b (some an) (some bn) = sign-flip (ltb_ℤ an bn) (ltb_ℤ bn an) (ltb_ℤ_asym an bn)
nless_parsed-flip a b (some an) none =
    sign-flip (text_less a b) (text_less b a) (text_less_asym a b)
nless_parsed-flip a b none (some bn) =
    sign-flip (text_less a b) (text_less b a) (text_less_asym a b)
nless_parsed-flip a b none none = sign-flip (text_less a b) (text_less b a) (text_less_asym a b)

-- `nless` of two texts the other way round is the other sign.
pub nless-flip : (a b : Bytes) → nless b a ≡ flip (nless a b)
unfolding nless
nless-flip a b = nless_parsed-flip a b (parse_int a) (parse_int b)

abbrev flip_some : Option Sign → Option Sign
flip_some none = none
flip_some (some s) = some (flip s)

nless_at_flip : (a b : Option Bytes) → nless_at b a ≡ flip_some (nless_at a b)
unfolding nless_at
nless_at_flip none none = refl
nless_at_flip none (some b) = refl
nless_at_flip (some a) none = refl
nless_at_flip (some a) (some b) = ap some (nless-flip a b)

compare_flip : (fi fj : List Bytes) → compare_field fj fi 1 ≡ flip_some (compare_field fi fj 1)
unfolding compare_field
compare_flip fi fj =
    let back = nless_at_flip (get_elem? fi 1) (get_elem? fj 1) in ground (arith, back)

decided_asym :
    (c : Option Sign) (later back : Option Bool)
    → (later ≡ some true → back ≡ some false)
    → decided c later ≡ some true
    → decided (flip_some c) back ≡ some false
decided_asym none later back f h = absurd (cc)
decided_asym (some before) later back f h = refl
decided_asym (some after) later back f h = absurd (cc)
decided_asym (some same) later back f h = f h

less_rounds_asym :
    (rounds : ℕ) (fi fj : List Bytes)
    → less_rounds rounds fi fj ≡ some true
    → less_rounds rounds fj fi ≡ some false
unfolding less_rounds
less_rounds_asym zero fi fj h = absurd (cc)
less_rounds_asym (suc rounds) fi fj h = rw (compare_flip fi fj) (
    decided_asym (compare_field fi fj 1) (less_rounds rounds fi fj) (less_rounds rounds fj fi)
      (less_rounds_asym rounds fi fj) h)

less_fields_asym :
    (fi fj : List Bytes) → less_fields fi fj ≡ some true → less_fields fj fi ≡ some false
unfolding less_fields
less_fields_asym [] fj h = absurd (cc)
less_fields_asym (f ∷ fi) [] h = absurd (cc)
less_fields_asym (f ∷ fi) (g ∷ fj) h =
    let a = text_less_asym f g in
    let b = text_less_asym g f in
    let c = less_rounds_asym 3 (f ∷ fi) (g ∷ fj) in ground (arith, a, b, c)

-- Of two texts neither is less than the other both ways.
pub less_asym : (s t : Bytes) → less s t ≡ some true → less t s ≡ some false
unfolding less
less_asym s t h = less_fields_asym (split_cuts 3 b':' s) (split_cuts 3 b':' t) h

-- A text has a field behind the first.
abbrev pub HasFields : Bytes → Type 0
HasFields s = 1 < length (split_cuts 3 b':' s)

compare_total :
    (fi fj : List Bytes)
    → 1 < length fi
    → 1 < length fj
    → (c : Sign) × (compare_field fi fj 1 ≡ some c)
unfolding compare_field nless_at
compare_total [] fj h k = absurd (omega arith)
compare_total (a ∷ []) fj h k = absurd (omega arith)
compare_total (a ∷ b ∷ fi) [] h k = absurd (omega arith)
compare_total (a ∷ b ∷ fi) (c ∷ []) h k = absurd (omega arith)
compare_total (a ∷ b ∷ fi) (c ∷ d ∷ fj) h k = (nless b d, ground arith)

decided_total :
    (c : Sign) (later : Option Bool)
    → is_some later ≡ true
    → is_some (decided (some c) later) ≡ true
decided_total before later h = refl
decided_total after later h = refl
decided_total same later h = h

less_rounds_total :
    (rounds : ℕ) (fi fj : List Bytes)
    → 1 < length fi
    → 1 < length fj
    → is_some (less_rounds rounds fi fj) ≡ true
unfolding less_rounds
less_rounds_total zero fi fj h k = refl
less_rounds_total (suc rounds) fi fj h k =
    let (c, e) = compare_total fi fj h k in
    rw e (decided_total c (less_rounds rounds fi fj) (less_rounds_total rounds fi fj h k))

less_fields_total :
    (fi fj : List Bytes) → 1 < length fi → 1 < length fj → is_some (less_fields fi fj) ≡ true
unfolding less_fields
less_fields_total [] fj h k = absurd (omega arith)
less_fields_total (f ∷ fi) [] h k = absurd (omega arith)
less_fields_total (f ∷ fi) (g ∷ fj) h k =
    let r = less_rounds_total 3 (f ∷ fi) (g ∷ fj) h k in ground (arith, r)

-- `Less` of two texts that have a field behind the first does not panic.
pub less_total : (s t : Bytes) → HasFields s → HasFields t → is_some (less s t) ≡ true
unfolding less
less_total s t h k = less_fields_total (split_cuts 3 b':' s) (split_cuts 3 b':' t) h k
