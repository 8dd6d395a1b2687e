-- ===== src/Entry/Place.antt =====
-- What yang/entry.go reads of an entry and its parents: `ReadOnly`, `Path`, `Namespace`, `DefaultValue`
-- and the way of `Find` along the parts of a name. A place is an entry with its parents, itself
-- first; the place with no entry is nil.
pub mod Finding
pub mod Inherit
use go_restconf.GoText.{split, split_cuts}
use go_restconf.Entry.{
  TriState, ts_unset, ts_true, ts_false, value, output_entry, Info, Entry, entry, Dir, dir, Entries,
  Rpc, nil_rpc, rpc, Slot, nil_entry, filled, info, rpc_of, entries_of, dir_of, lookup, kind_eq,
}
use go_restconf.Common.{
  bytes_eq, bytes_eq_iff, bytes_eq_refl, Bytes, codes, length, take, drop, replicate, get_elem?,
  length-append, take-length_append, drop-length_append, take-append-drop, length-take, length-drop,
  length-replicate, All, Any, All-append, ltb, leb, ◌==◌, if◌then◌else◌, is_some, ltb→lt, lt→ltb,
  ltb→le, le→ltb, ==_iff, Bool-cases, Option-cases, ℤ, pos, negsuc, pos_part, neg_part, ◌≤ℤ◌, ◌<ℤ◌,
  ltb_ℤ, eqb_ℤ, suc_ℤ, eqb_ℤ→eq, eqb_ℤ_refl, suc_ℤ_parts, Result, ok, err, panic, ◌>>=◌, passed_on,
  ℕ, zero, suc, ◌+◌, ◌-◌, ◌*◌, ◌/◌, ◌%◌, ◌^◌, ◌≤◌, ◌<◌, ◌≡◌, refl, sym, ap, ◌∙◌, ◌≢◌, ◌↔◌, ◌⊎◌, inl,
  inr, Bool, true, false, not, ◌&&◌, ◌||◌, Option, none, some, List, [], ◌∷◌, ◌++◌, map,
  append_assoc, append-nil, arith,
}

abbrev pub Place : Type 0
Place = List Entry

-- The switch of `ReadOnly` on `e`, with what its parent gives.
unfoldable pub own_or : Info → Bool → Bool
unfolding kind_eq value
own_or i up = if kind_eq i.kind output_entry then true else elim (i.config) [
  | ts_unset ↦ up
  | ts_true ↦ not (value ts_true)
  | ts_false ↦ not (value ts_false)
]

unfoldable pub read_only : Place → Bool
unfolding own_or
read_only [] = false
read_only (e ∷ up) = own_or (info e) (read_only up)

unfoldable pub path : Place → Bytes
path [] = []
path (e ∷ up) = path up ++ (b'/' ∷ (info e).name)

-- `Namespace`; `none` is a nil value. The empty value is a new one.
unfoldable pub namespace_of : Entry → Place → Option Bytes
namespace_of e [] = elim ((info e).source.root_namespace) [ none ↦ some [] | some ns ↦ ns ]
namespace_of e (up ∷ ups) = elim ((info e).namespace) [
  | some ns ↦ some ns
  | none ↦ namespace_of up ups
]

-- `DefaultValue`.
unfoldable pub default_value : Entry → Bytes
default_value e = elim ((info e).default) [
  | c ∷ s ↦ c ∷ s
  | [] ↦ elim ((info e).type_default) [
    | none ↦ []
    | some d ↦
        if (info e).source.is_leaf_node
        then elim ((info e).source.mandatory) [
          | none ↦ d
          | some m ↦ if bytes_eq m (codes "false") then d else []
        ]
        else []
  ]
]

-- `getPrefix` of yang/node.go: the prefix and the name behind it.
unfoldable pub prefix_and_name : Bytes → Bytes × Bytes
unfolding split_cuts
prefix_and_name s = elim (split_cuts 1 b':' s) [ p ∷ n ∷ fs ↦ (p, n) | _ ↦ ([], s) ]

unfoldable pub slot_place : Slot → Place → Place
slot_place nil_entry up = []
slot_place (filled e) up = e ∷ up

unfoldable pub child_place : Option Entry → Place → Place
child_place none up = []
child_place (some e) up = e ∷ up

-- The default of the switch, for an entry that is no RPC.
unfoldable pub find_child : Entry → Place → Bytes → Place
unfolding child_place
find_child e up part =
    if bytes_eq part (codes ".")
    then e ∷ up
    else if bytes_eq part [] || bytes_eq part (codes "..")
    then []
    else child_place (lookup part (entries_of (dir_of e))) (e ∷ up)

-- An RPC stays where it is for a part that is neither `input` nor `output`.
unfoldable pub find_rpc : Slot → Slot → Entry → Place → Bytes → Place
unfolding slot_place
find_rpc input output e up part =
    if bytes_eq part (codes "input")
    then slot_place input (e ∷ up)
    else if bytes_eq part (codes "output")
    then slot_place output (e ∷ up)
    else e ∷ up

-- A round of the loop of `Find`.
unfoldable pub find_round : Place → Bytes → Place
unfolding find_child find_rpc prefix_and_name
find_round [] part = []
find_round (e ∷ up) part =
    if bytes_eq part (codes ".")
    then e ∷ up
    else if bytes_eq part (codes "..")
    then up
    else elim (rpc_of e) [
      | nil_rpc ↦ find_child e up (prefix_and_name part).1
      | rpc input output ↦ find_rpc input output e up part
    ]

unfoldable pub find_parts : Place → List Bytes → Place
unfolding find_round
find_parts p [] = p
find_parts p (part ∷ parts) = find_parts (find_round p part) parts

-- `Find` of a name that does not start with `/`.
unfoldable pub find_relative : Place → Bytes → Place
unfolding find_parts split
find_relative [] name = []
find_relative (e ∷ up) [] = []
find_relative (e ∷ up) (c ∷ name) = find_parts (e ∷ up) (split (c ∷ name) (b'/' ∷ []))
