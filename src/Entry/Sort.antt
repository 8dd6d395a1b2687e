-- ===== src/Entry/Sort.antt =====
-- The order of errors of yang/entry.go: `nless`, `sortedErrors` and `errorSort`. `none` is a panic, an
-- index out of range.
pub mod Laws
pub mod Fields
pub mod Order
use go_restconf.GoText.{split_cuts}
use go_restconf.GoText.Digits.{parse_int}
use go_restconf.Values.{text_less}
use go_restconf.Entry.{GoError}
use go_restconf.Common.{
  bytes_eq, bytes_eq_iff, bytes_eq_refl, Bytes, codes, length, take, drop, replicate, get_elem?,
  length-append, take-length_append, drop-length_append, take-append-drop, length-take, length-drop,
  length-replicate, All, Any, All-append, ltb, leb, ◌==◌, if◌then◌else◌, is_some, ltb→lt, lt→ltb,
  ltb→le, le→ltb, ==_iff, Bool-cases, Option-cases, ℤ, pos, negsuc, pos_part, neg_part, ◌≤ℤ◌, ◌<ℤ◌,
  ltb_ℤ, eqb_ℤ, suc_ℤ, eqb_ℤ→eq, eqb_ℤ_refl, suc_ℤ_parts, Result, ok, err, panic, ◌>>=◌, passed_on,
  ℕ, zero, suc, ◌+◌, ◌-◌, ◌*◌, ◌/◌, ◌%◌, ◌^◌, ◌≤◌, ◌<◌, ◌≡◌, refl, sym, ap, ◌∙◌, ◌≢◌, ◌↔◌, ◌⊎◌, inl,
  inr, Bool, true, false, not, ◌&&◌, ◌||◌, Option, none, some, List, [], ◌∷◌, ◌++◌, map,
  append_assoc, append-nil, arith,
}

pub data Sign : Type 0 where
  before same after : Sign

unfoldable pub sign : Bool → Bool → Sign
sign true more = before
sign false true = after
sign false false = same

-- The switch of `nless` on the results of `Atoi`.
unfoldable pub nless_parsed : Bytes → Bytes → Option ℤ → Option ℤ → Sign
unfolding sign text_less
nless_parsed a b (some an) (some bn) = sign (ltb_ℤ an bn) (ltb_ℤ bn an)
nless_parsed a b _ _ = sign (text_less a b) (text_less b a)

unfoldable pub nless : Bytes → Bytes → Sign
unfolding nless_parsed
nless a b = nless_parsed a b (parse_int a) (parse_int b)

unfoldable pub nless_at : Option Bytes → Option Bytes → Option Sign
nless_at (some a) (some b) = some (nless a b)
nless_at _ _ = none

-- The function `compare` of `Less`.
unfoldable pub compare_field : List Bytes → List Bytes → ℕ → Option Sign
unfolding nless_at
compare_field fi fj x =
    if length fi == x && ltb x (length fj)
    then some before
    else if length fj == x && ltb x (length fi)
    then some after
    else if ltb (length fj) x && ltb (length fi) x
    then some same
    else nless_at (get_elem? fi x) (get_elem? fj x)

-- The switch in the loop of `Less`, with what the later rounds give.
abbrev pub decided : Option Sign → Option Bool → Option Bool
decided none later = none
decided (some before) later = some true
decided (some after) later = some false
decided (some same) later = later

-- The rounds of the loop of `Less`: each calls `compare(1)`.
unfoldable pub less_rounds : ℕ → List Bytes → List Bytes → Option Bool
less_rounds zero fi fj = some false
less_rounds (suc rounds) fi fj = decided (compare_field fi fj 1) (less_rounds rounds fi fj)

-- `Less` behind the splits.
unfoldable pub less_fields : List Bytes → List Bytes → Option Bool
unfolding less_rounds text_less
less_fields (f ∷ fi) (g ∷ fj) =
    if text_less f g
    then some true
    else if text_less g f
    then some false
    else less_rounds 3 (f ∷ fi) (g ∷ fj)
less_fields _ _ = none

unfoldable pub less : Bytes → Bytes → Option Bool
unfolding less_fields
less si sj = less_fields (split_cuts 3 b':' si) (split_cuts 3 b':' sj)

-- An error moves down the sorted ones, the last one first, while it is less than the one before.
unfoldable pub sift : GoError → List GoError → Option (List GoError)
sift e [] = some (e ∷ [])
sift e (d ∷ done) = elim (less e.text d.text) [
  | none ↦ none
  | some true ↦ elim (sift e done) [ none ↦ none | some ds ↦ some (d ∷ ds) ]
  | some false ↦ some (e ∷ d ∷ done)
]

unfoldable pub sort_onto : List GoError → List GoError → Option (List GoError)
unfolding sift
sort_onto done [] = some done
sort_onto done (e ∷ es) = elim (sift e done) [ none ↦ none | some ds ↦ sort_onto ds es ]

-- Behind the kept error `last`, what does not repeat the one that was kept before.
unfoldable pub strip_behind : GoError → List GoError → List GoError
strip_behind last [] = []
strip_behind last (e ∷ es) = elim (bytes_eq e.text last.text) [
  | true ↦ strip_behind last es
  | false ↦ e ∷ strip_behind e es
]

unfoldable pub strip : List GoError → List GoError
unfolding strip_behind
strip [] = []
strip (e ∷ es) = e ∷ strip_behind e es

unfoldable pub reverse_onto : List GoError → List GoError → List GoError
reverse_onto out [] = out
reverse_onto out (e ∷ es) = reverse_onto (e ∷ out) es

-- The most elements that `sort.Sort` sorts by insertion.
abbrev pub max_insertion : ℕ
max_insertion = 12

-- `sort.Sort`: an insertion sort up to twelve elements. What it makes of more, where `Less` need not
-- be transitive, is a parameter.
unfoldable pub sort_errors :
    (List GoError → Option (List GoError)) → List GoError → Option (List GoError)
unfolding sort_onto reverse_onto
sort_errors long_sort es =
    if leb (length es) max_insertion
    then elim (sort_onto [] es) [ none ↦ none | some ds ↦ some (reverse_onto [] ds) ]
    else long_sort es

unfoldable pub error_sort :
    (List GoError → Option (List GoError)) → List GoError → Option (List GoError)
unfolding sort_errors strip
error_sort long_sort [] = some []
error_sort long_sort (e ∷ []) = some (e ∷ [])
error_sort long_sort (e ∷ d ∷ es) = elim (sort_errors long_sort (e ∷ d ∷ es)) [
  | none ↦ none
  | some ds ↦ some (strip ds)
]
