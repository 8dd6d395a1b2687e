-- ===== src/Entry/Place/Finding.antt =====
-- `Find` reaches an entry by the names on the way down to it, and comes back by as many `..`.
use go_restconf.GoText.{split, join}
use go_restconf.GoText.Laws.{Lacks}
use go_restconf.GoText.Splits.{split-join, split_cuts-Lacks}
use go_restconf.Entry.{Entry, entries_of, dir_of, lookup, rpc_of, nil_rpc}
use go_restconf.Entry.Place.{
  Place, child_place, find_child, prefix_and_name, find_round, find_parts, find_relative,
}
use go_restconf.Common.{
  bytes_eq, Bytes, codes, length, drop, replicate, All, ℕ, zero, suc, ◌≡◌, refl, ap, ◌∙◌, false,
  some, List, [], ◌∷◌, arith,
}

-- The name of a node: not empty, no `/` and no `:` in it, and not `.` or `..`.
pub record IsPlain (name : Bytes) : Type 0 where
  pub not_empty : bytes_eq name [] ≡ false
  pub no_slash : Lacks b'/' name
  pub no_colon : Lacks b':' name
  pub not_self : bytes_eq name (codes ".") ≡ false
  pub not_parent : bytes_eq name (codes "..") ≡ false

-- The way down from a place by the names of children, through entries that are no RPC.
pub data Reaches : Place → List Bytes → Place → Type 0 where
  here : (p : Place) → Reaches p [] p
  down :
      (e : Entry) (up : Place) (name : Bytes) (c : Entry) (names : List Bytes) (q : Place)
      → IsPlain name
      → rpc_of e ≡ nil_rpc
      → lookup name (entries_of (dir_of e)) ≡ some c
      → Reaches (c ∷ e ∷ up) names q
      → Reaches (e ∷ up) (name ∷ names) q

plain_name : (name : Bytes) → IsPlain name → (prefix_and_name name).1 ≡ name
unfolding prefix_and_name
plain_name name h = rw (split_cuts-Lacks 1 b':' name h.no_colon, prefix_and_name) refl

find_child_down :
    (e c : Entry) (up : Place) (name : Bytes)
    → IsPlain name
    → lookup name (entries_of (dir_of e)) ≡ some c
    → find_child e up name ≡ c ∷ e ∷ up
unfolding find_child child_place
find_child_down e c up name h k = rw (h.not_self, h.not_empty, h.not_parent, k) refl

find_round_down :
    (e c : Entry) (up : Place) (name : Bytes)
    → IsPlain name
    → rpc_of e ≡ nil_rpc
    → lookup name (entries_of (dir_of e)) ≡ some c
    → find_round (e ∷ up) name ≡ c ∷ e ∷ up
unfolding find_round
find_round_down e c up name h r k =
    rw (h.not_self, h.not_parent, r, plain_name name h) (find_child_down e c up name h k)

find_parts_down : (p q : Place) (names : List Bytes) → Reaches p names q → find_parts p names ≡ q
unfolding find_parts
find_parts_down p q names (here o) = refl
find_parts_down p q names (down e up name c rest o h r k way) =
    rw (find_round_down e c up name h r k) (find_parts_down (c ∷ e ∷ up) o rest way)

Reaches-Lacks : (p q : Place) (names : List Bytes) → Reaches p names q → All (Lacks b'/') names
Reaches-Lacks p q names (here o) = tt
Reaches-Lacks p q names (down e up name c rest o h r k way) =
    (h.no_slash, Reaches-Lacks (c ∷ e ∷ up) o rest way)

find_relative-split :
    (e : Entry) (up : Place) (s : Bytes)
    → bytes_eq s [] ≡ false
    → find_relative (e ∷ up) s ≡ find_parts (e ∷ up) (split s (b'/' ∷ []))
unfolding find_relative
find_relative-split e up [] h = absurd (cc)
find_relative-split e up (c ∷ s) h = refl

join_not_empty :
    (part sep : Bytes) (parts : List Bytes)
    → bytes_eq part [] ≡ false
    → bytes_eq (join (part ∷ parts) sep) [] ≡ false
unfolding join
join_not_empty [] sep parts h = absurd (cc)
join_not_empty (c ∷ part) sep [] h = refl
join_not_empty (c ∷ part) sep (next ∷ parts) h = refl

find_joined :
    (e : Entry) (up : Place) (part : Bytes) (parts : List Bytes)
    → bytes_eq part [] ≡ false
    → All (Lacks b'/') (part ∷ parts)
    → find_relative (e ∷ up) (join (part ∷ parts) (b'/' ∷ [])) ≡ find_parts (e ∷ up) (part ∷ parts)
find_joined e up part parts h hs =
    find_relative-split e up (join (part ∷ parts) (b'/' ∷ []))
      (join_not_empty part (b'/' ∷ []) parts h)
    ∙ ap (find_parts (e ∷ up)) (split-join b'/' part parts hs)

-- `Find` of the names on the way down from an entry through children of entries that are no RPC, joined
-- by `/`, is the entry at its end, where no name is empty, `.` or `..`, or holds a `/` or a `:`.
pub find_relative-Reaches :
    (e : Entry) (up q : Place) (name : Bytes) (names : List Bytes)
    → Reaches (e ∷ up) (name ∷ names) q
    → find_relative (e ∷ up) (join (name ∷ names) (b'/' ∷ [])) ≡ q
find_relative-Reaches e up q name names (down f up' name' c rest o h r k way) =
    let whole = down f up' name' c rest o h r k way in
    find_joined e up name names h.not_empty (Reaches-Lacks (e ∷ up) q (name ∷ names) whole)
    ∙ find_parts_down (e ∷ up) q (name ∷ names) whole

-- So many `..`.
abbrev pub parents : ℕ → List Bytes
parents n = replicate n (codes "..")

parents-Lacks : (n : ℕ) → All (Lacks b'/') (parents n)
parents-Lacks zero = tt
parents-Lacks (suc n) = ((ground arith, (ground arith, tt)), parents-Lacks n)

drop_nil : (n : ℕ) → drop {A = Entry} n [] ≡ []
drop_nil zero = refl
drop_nil (suc n) = refl

find_up : (p : Place) (n : ℕ) → find_parts p (parents n) ≡ drop n p
unfolding find_parts find_round
find_up p zero = refl
find_up [] (suc n) = find_up [] n ∙ drop_nil n
find_up (e ∷ up) (suc n) = find_up up n

drop_tail : (n : ℕ) (c : Entry) (p q : Place) → drop n q ≡ c ∷ p → drop (suc n) q ≡ p
drop_tail zero c p [] h = absurd (cc)
drop_tail zero c p (d ∷ q) h = cc
drop_tail (suc n) c p [] h = absurd (cc)
drop_tail (suc n) c p (d ∷ q) h = drop_tail n c p q h

drop-Reaches : (p q : Place) (names : List Bytes) → Reaches p names q → drop (length names) q ≡ p
drop-Reaches p q names (here o) = refl
drop-Reaches p q names (down e up name c rest o h r k way) =
    drop_tail (length rest) c (e ∷ up) q (drop-Reaches (c ∷ e ∷ up) o rest way)

-- `Find` of one `..` for each name on the way down, joined by `/`, comes back to where it started, for
-- the same ways.
pub find_relative_back :
    (e : Entry) (up q : Place) (name : Bytes) (names : List Bytes)
    → Reaches (e ∷ up) (name ∷ names) q
    → find_relative q (join (parents (length (name ∷ names))) (b'/' ∷ [])) ≡ e ∷ up
find_relative_back e up [] name names way =
    let d = drop-Reaches (e ∷ up) [] (name ∷ names) way in absurd (cc)
find_relative_back e up (f ∷ q) name names way =
    find_joined f q (codes "..") (parents (length names)) refl
      (parents-Lacks (length (name ∷ names)))
    ∙ find_up (f ∷ q) (length (name ∷ names))
    ∙ drop-Reaches (e ∷ up) (f ∷ q) (name ∷ names) way
