-- ===== src/Entry.antt =====
-- The entries of yang/entry.go: `TriState`, `EntryKind`, `Entry` and the tests on them. An entry holds
-- its children and the input and output of an RPC; its parent is the entry that holds it, and a place
-- is an entry with its parents, itself first. A Go map of children is an association list in the
-- order that it is ranged over, which is any order. An error is an identity, which `==` on errors
-- compares, and its text. Of the node, the entry keeps what the functions read of it.
pub mod Sort
pub mod Place
pub mod Merge
pub mod Choice
pub mod Errors
use go_restconf.Common.{
  bytes_eq, bytes_eq_iff, bytes_eq_refl, Bytes, codes, length, take, drop, replicate, get_elem?,
  length-append, take-length_append, drop-length_append, take-append-drop, length-take, length-drop,
  length-replicate, All, All-append, ltb, leb, ◌==◌, if◌then◌else◌, is_some, ltb→lt, lt→ltb, ltb→le,
  le→ltb, ==_iff, Bool-cases, Option-cases, ℤ, pos, negsuc, pos_part, neg_part, ◌≤ℤ◌, ◌<ℤ◌, ltb_ℤ,
  eqb_ℤ, suc_ℤ, eqb_ℤ→eq, eqb_ℤ_refl, suc_ℤ_parts, Result, ok, err, panic, ◌>>=◌, passed_on, ℕ,
  zero, suc, ◌+◌, ◌-◌, ◌*◌, ◌/◌, ◌%◌, ◌^◌, ◌≤◌, ◌<◌, ◌≡◌, refl, sym, ap, ◌∙◌, ◌≢◌, ◌↔◌, ◌⊎◌, inl,
  inr, Bool, true, false, not, ◌&&◌, ◌||◌, Option, none, some, List, [], ◌∷◌, ◌++◌, map,
  append_assoc, append-nil, arith,
}

pub data TriState : Type 0 where
  ts_unset ts_true ts_false : TriState

unfoldable pub value : TriState → Bool
value ts_unset = false
value ts_true = true
value ts_false = false

pub data EntryKind : Type 0 where
  leaf_entry directory_entry any_data_entry any_xml_entry case_entry choice_entry : EntryKind
  input_entry notification_entry output_entry : EntryKind

-- `EntryKindToName`, which has a name for each kind.
unfoldable pub entry_kind_to_name : EntryKind → Bytes
entry_kind_to_name leaf_entry = codes "Leaf"
entry_kind_to_name directory_entry = codes "Directory"
entry_kind_to_name any_data_entry = codes "AnyData"
entry_kind_to_name any_xml_entry = codes "AnyXML"
entry_kind_to_name case_entry = codes "Case"
entry_kind_to_name choice_entry = codes "Choice"
entry_kind_to_name input_entry = codes "Input"
entry_kind_to_name notification_entry = codes "Notification"
entry_kind_to_name output_entry = codes "Output"

pub record GoError : Type 0 where
  pub id : ℕ
  pub text : Bytes

pub record ListAttr : Type 0 where
  pub min_elements : Option Bytes
  pub max_elements : Option Bytes
  pub ordered_by : Option Bytes

-- `Node`: its `Source`, its `NName`, the `mandatory` of a leaf, and the namespace of its root node, if
-- it has a root node.
pub record NodeView : Type 0 where
  pub location : Bytes
  pub node_name : Bytes
  pub is_leaf_node : Bool
  pub mandatory : Option Bytes
  pub root_namespace : Option (Option Bytes)

-- The fields but for `Dir`, `RPC` and `Parent`; of `Type`, its default.
pub record Info : Type 0 where
  pub source : NodeView
  pub name : Bytes
  pub description : Bytes
  pub default : Bytes
  pub errors : List GoError
  pub kind : EntryKind
  pub config : TriState
  pub prefix : Option Bytes
  pub key : Bytes
  pub type_default : Option Bytes
  pub list_attr : Option ListAttr
  pub namespace : Option Bytes

mutual
  pub data Entry : Type 0 where
    entry : Info → Rpc → Dir → Entry

  -- `nil_dir` is the nil map.
  pub data Dir : Type 0 where
    nil_dir : Dir
    dir : Entries → Dir

  pub data Entries : Type 0 where
    no_entries : Entries
    item : Bytes → Entry → Entries → Entries

  pub data Rpc : Type 0 where
    nil_rpc : Rpc
    rpc : Slot → Slot → Rpc

  pub data Slot : Type 0 where
    nil_entry : Slot
    filled : Entry → Slot

abbrev pub info : Entry → Info
info (entry i r d) = i

abbrev pub rpc_of : Entry → Rpc
rpc_of (entry i r d) = r

abbrev pub dir_of : Entry → Dir
dir_of (entry i r d) = d

-- What `range` goes over: nothing for the nil map.
abbrev pub entries_of : Dir → Entries
entries_of nil_dir = no_entries
entries_of (dir es) = es

unfoldable pub lookup : Bytes → Entries → Option Entry
lookup k no_entries = none
lookup k (item j e es) = if bytes_eq j k then some e else lookup k es

-- A key stands once in a map.
unfoldable pub IsMap : Entries → Type 0
IsMap no_entries = Unit
IsMap (item k e es) = (lookup k es ≡ none) × IsMap es

-- A new key at the end.
unfoldable pub insert : Bytes → Entry → Entries → Entries
insert k e no_entries = item k e no_entries
insert k e (item j f es) = item j f (insert k e es)

unfoldable pub kind_eq : EntryKind → EntryKind → Bool
kind_eq case_entry case_entry = true
kind_eq choice_entry choice_entry = true
kind_eq output_entry output_entry = true
kind_eq leaf_entry leaf_entry = true
kind_eq directory_entry directory_entry = true
kind_eq any_data_entry any_data_entry = true
kind_eq any_xml_entry any_xml_entry = true
kind_eq input_entry input_entry = true
kind_eq notification_entry notification_entry = true
kind_eq _ _ = false

unfoldable pub is_dir : Entry → Bool
is_dir (entry i r nil_dir) = false
is_dir (entry i r (dir es)) = true

unfoldable pub is_leaf : Entry → Bool
unfolding is_dir kind_eq
is_leaf e = not (is_dir e) && (kind_eq (info e).kind leaf_entry && not (is_some (info e).list_attr))

unfoldable pub is_leaf_list : Entry → Bool
unfolding is_dir kind_eq
is_leaf_list e = not (is_dir e) && (kind_eq (info e).kind leaf_entry && is_some (info e).list_attr)

unfoldable pub is_list : Entry → Bool
unfolding is_dir
is_list e = is_dir e && is_some (info e).list_attr

unfoldable pub is_container : Entry → Bool
unfolding kind_eq
is_container e = kind_eq (info e).kind directory_entry && not (is_some (info e).list_attr)

unfoldable pub is_choice : Entry → Bool
unfolding kind_eq
is_choice e = kind_eq (info e).kind choice_entry

unfoldable pub is_case : Entry → Bool
unfolding kind_eq
is_case e = kind_eq (info e).kind case_entry
