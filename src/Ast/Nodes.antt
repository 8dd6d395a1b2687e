-- ===== src/Ast/Nodes.antt =====
-- What it is for a node to fit the structures, and what the loop over the substatements keeps.
use go_restconf.Schema.{StructType, pointer, Field, struct_of, name_map, alias, lookup_field}
use go_restconf.Schema.Consistent.{lookup_field_lem}
use go_restconf.Statement.{
  Header, Statement, Statements, stmt, end, sub, header, has_keyword, count_keyword,
}
use go_restconf.Ast.Step.{Step, kept, filled}
use go_restconf.Ast.{
  Node, node, Children, no_children, child, type_of, Building, add_child, count_child, Built,
}
use go_restconf.Common.{
  bytes_eq, bytes_eq_iff, Bytes, ◌==◌, if◌then◌else◌, Bool-cases, ok, ◌+◌, ◌≤◌, ◌≡◌, refl, inl, inr,
  true, not, some, arith,
}

-- A pointer holds one node at most, and a required field holds one at least.
pub record IsComplete (t : StructType) (cs : Children) : Type 0 where
  pub at_most_one :
      (k : Bytes) (f : Field)
      → lookup_field k (struct_of t).fields ≡ some f
      → f.shape ≡ pointer
      → count_child k cs ≤ 1
  pub present :
      (k : Bytes) (f : Field)
      → lookup_field k (struct_of t).fields ≡ some f
      → f.required ≡ true
      → 1 ≤ count_child k cs

-- Each child stands in a field of the structure, has the type of that field, and is a node itself.
mutual
  pub data IsNode : Node → Type 0 where
    is_node :
        {t : StructType} {name : Bytes} {source : Statement} {cs : Children} {exts : Statements}
        → IsComplete t cs
        → AllNodes t cs
        → IsNode (node t name source cs exts)

  pub data AllNodes : StructType → Children → Type 0 where
    none_left : {t : StructType} → AllNodes t no_children
    one_more :
        {t : StructType} {k : Bytes} {n : Node} {cs : Children} (f : Field)
        → lookup_field k (struct_of t).fields ≡ some f
        → type_of n ≡ f.target
        → IsNode n
        → AllNodes t cs
        → AllNodes t (child k n cs)

pub count_child-add_child :
    (j k : Bytes) (n : Node) (cs : Children)
    → count_child j (add_child cs k n) ≡ count_child j cs + (if bytes_eq k j then 1 else 0)
unfolding count_child add_child
count_child-add_child j k n no_children = ground arith
count_child-add_child j k n (child i m cs) = ground (arith, count_child-add_child j k n cs)

pub AllNodes-add_child :
    {t : StructType} {cs : Children} (k : Bytes) (n : Node) (f : Field)
    → AllNodes t cs
    → lookup_field k (struct_of t).fields ≡ some f
    → type_of n ≡ f.target
    → IsNode n
    → AllNodes t (add_child cs k n)
unfolding add_child
AllNodes-add_child k n f none_left l e w = one_more f l e w none_left
AllNodes-add_child k n f (one_more g l' e' w' rest) l e w =
    one_more g l' e' w' (AllNodes-add_child k n f rest l e w)

pub has_keyword-count :
    (k : Bytes) (ss : Statements) → has_keyword k ss ≡ not (count_keyword k ss == 0)
unfolding has_keyword count_keyword
has_keyword-count k end = refl
has_keyword-count k (sub (stmt h us) ss) = ground (arith, has_keyword-count k ss)

-- What the loop over the substatements keeps: how often each field's keyword stood, the pointers,
-- and that the children are nodes.
pub record LoopInv (t : StructType) (ss : Statements) (b b' : Building) : Type 0 where
  pub counts :
      (k : Bytes) (f : Field)
      → lookup_field k (struct_of t).fields ≡ some f
      → count_child k b'.children ≡ count_child k b.children + count_keyword k ss
  pub pointers :
      (k : Bytes) (f : Field)
      → lookup_field k (struct_of t).fields ≡ some f
      → f.shape ≡ pointer
      → count_child k b.children ≤ 1
      → count_child k b'.children ≤ 1
  pub nodes : AllNodes t b.children → AllNodes t b'.children

-- What `build` gives: a node of the type that the keyword names.
abbrev pub GivesNode : Header → Built → Type 0
GivesNode h (ok (some n)) = (name_map (alias h.keyword) ≡ some (type_of n)) × IsNode n
GivesNode h _ = Unit

module _ (t : StructType) (s : Statement) (built : Built) (b b₁ : Building) where
  pub Step-counts :
      Step t s built b b₁
      → (k : Bytes) (f : Field) → lookup_field k (struct_of t).fields ≡ some f
      → count_child k b₁.children
        ≡ count_child k b.children + (if bytes_eq (header s).keyword k then 1 else 0)
  Step-counts (kept e other) k f l = rw (e, other k f l) (omega arith)
  Step-counts (filled g n l' is free e) k f l =
      rw e (count_child-add_child k (header s).keyword n b.children)

  pub Step-pointers :
      Step t s built b b₁
      → (k : Bytes) (f : Field) → lookup_field k (struct_of t).fields ≡ some f
      → f.shape ≡ pointer
      → count_child k b.children ≤ 1
      → count_child k b₁.children ≤ 1
  Step-pointers (kept e other) k f l p h = rw e h
  Step-pointers (filled g n l' is free e) k f l p h =
      elim (Bool-cases (bytes_eq (header s).keyword k)) [
        | inl same ↦
            let q = (bytes_eq_iff (header s).keyword k).0 same in
            let l'' : lookup_field k (struct_of t).fields ≡ some g = rw q at l' in
            let fg : g.shape ≡ pointer = cc in
            let none_before : count_child k b.children ≡ 0 = rw q at (free fg) in
            rw e
              (omega (arith, rw same at (count_child-add_child k (header s).keyword n b.children)))
        | inr other ↦
            rw e
              (omega (arith, rw other at (count_child-add_child k (header s).keyword n b.children)))
      ]

  pub Step-nodes :
      GivesNode (header s) built
      → Step t s built b b₁
      → AllNodes t b.children
      → AllNodes t b₁.children
  Step-nodes g (kept e other) a = rw e a
  Step-nodes g (filled f n l is free e) a =
      let (named, w) : GivesNode (header s) (ok (some n)) = rw is at g in
      let (_, target, _) = lookup_field_lem t (header s).keyword f l in
      rw e (AllNodes-add_child (header s).keyword n f a l (cc) w)

pub LoopInv-cons :
    {t : StructType} (s : Statement) (ss : Statements) (built : Built) {b b₁ b' : Building}
    → GivesNode (header s) built
    → Step t s built b b₁
    → LoopInv t ss b₁ b'
    → LoopInv t (sub s ss) b b'
unfolding count_keyword
LoopInv-cons {t} (stmt h us) ss built {b} {b₁} {b'} g st i = record {
  counts = λ k f l.
      let now = Step-counts t (stmt h us) built b b₁ st k f l in
      let later = i.counts k f l in ground arith;
  pointers = λ k f l p m. i.pointers k f l p (Step-pointers t (stmt h us) built b b₁ st k f l p m);
  nodes = λ a. i.nodes (Step-nodes t (stmt h us) built b b₁ g st a);
}
