-- ===== src/Ast/Sound.antt =====
-- `BuildAST` makes nodes that fit the structures, and keeps each substatement that a field takes.
use go_restconf.Schema.{StructType, Field, struct_of, name_map, alias, lookup_field}
use go_restconf.Statement.{Header, Statement, Statements, stmt, end, sub, header, count_keyword}
use go_restconf.Ast.Step.{build_sub-Step}
use go_restconf.Ast.{
  BuildError, Node, children_of, fields_of, Building, count_child, build_sub, for_kind, for_other,
  check_required, finish, no_struct, start, build_as, build, build_subs, build_ast,
}
use go_restconf.Common.{
  bytes_eq_iff, Bytes, Option-cases, Result, ok, err, panic, ◌>>=◌, passed_on, sym, ◌≤◌, ◌≡◌, refl,
  ◌≢◌, inl, inr, Bool, true, false, some, arith,
}
use go_restconf.Ast.Nodes.{
  is_node, none_left, IsComplete, IsNode, has_keyword-count, LoopInv, GivesNode, LoopInv-cons,
}
use go_restconf.Ast.Checks.{
  missing_required, missing_required_if, found_required_if, Checked, check_required-Checked,
  finish_lem,
}

LoopInv-IsComplete :
    (t : StructType) (h : Header) (ss : Statements) (b : Building)
    → LoopInv t ss (start h ss) b
    → Checked (struct_of t).fields h ss
    → IsComplete t b.children
LoopInv-IsComplete t h ss b i c = record {
  at_most_one = λ k f l p. i.pointers k f l p (unfold count_child in omega arith);
  present = λ k f l r.
      let there = missing_required k f (struct_of t).fields ss l r c.always_there in
      let n = i.counts k f l in let m = has_keyword-count k ss in ground arith;
}

no_struct-GivesNode : (h : Header) → GivesNode h (no_struct h)
unfolding no_struct
no_struct-GivesNode h = ground arith

struct-GivesNode :
    (t : StructType) (h : Header) (ss : Statements) (r : Result BuildError Building)
    → name_map (alias h.keyword) ≡ some t
    → ((b : Building) → r ≡ ok b → LoopInv t ss (start h ss) b)
    → GivesNode h (r >>= λ b. finish t h ss b)
struct-GivesNode t h ss (ok b) named inv =
    elim (Option-cases (check_required (struct_of t).fields h ss)) [
      | inl pass ↦
          let i = inv b refl in
          let c = check_required-Checked (struct_of t).fields h ss pass in
          rw (pass, finish) (named, is_node (LoopInv-IsComplete t h ss b i c) (i.nodes none_left))
      | inr (why, fail) ↦ rw (fail, finish) tt
    ]
struct-GivesNode t h ss (err e) named inv = tt
struct-GivesNode t h ss panic named inv = tt

LoopInv-end : (t : StructType) (b : Building) → LoopInv t end b b
unfolding count_keyword
LoopInv-end t b = record {
  counts = λ k f l. omega arith;
  pointers = λ k f l p m. m;
  nodes = λ a. a;
}

mutual
  unfolding build build_as

  build-GivesNode : (s : Statement) (parented : Bool) → GivesNode (header s) (build parented s)
  build-GivesNode (stmt h ss) parented = elim (Option-cases (name_map (alias h.keyword))) [
    | inl e ↦ rw e (no_struct-GivesNode h)
    | inr (t, e) ↦ rw e (
        struct-GivesNode t h ss (build_subs ss t parented h (start h ss)) e
          (λ b r. build_subs-LoopInv ss t parented h (start h ss) b r))
  ]

  build_subs-LoopInv :
      (ss : Statements) (t : StructType) (parented : Bool) (h : Header) (b b' : Building)
      → build_subs ss t parented h b ≡ ok b'
      → LoopInv t ss b b'
  build_subs-LoopInv end t parented h b b' e = let q : b ≡ b' = cc in rw (← q) (LoopInv-end t b)
  build_subs-LoopInv (sub s ss) t parented h b b' e =
      let (b₁, rest, first) =
        passed_on (build_sub t parented h.keyword s (build true s) b)
          (λ b₁. build_subs ss t parented h b₁) b' (sym e) in
      LoopInv-cons s ss (build true s) (build-GivesNode s true)
        (build_sub-Step t parented h.keyword s (build true s) b b₁ (sym first))
        (build_subs-LoopInv ss t parented h b₁ b' (sym rest))

-- The parts of a successful `BuildAST`.
record Parts (h : Header) (ss : Statements) (n : Node) : Type 0 where
  inv :
      (k : Bytes) (f : Field)
      → lookup_field k (fields_of n) ≡ some f
      → count_child k (children_of n) ≡ count_keyword k ss
  checked : Checked (fields_of n) h ss

struct-Parts :
    (t : StructType) (h : Header) (ss : Statements) (r : Result BuildError Building) (n : Node)
    → ((b : Building) → r ≡ ok b → LoopInv t ss (start h ss) b)
    → (r >>= λ b. finish t h ss b) ≡ ok (some n)
    → Parts h ss n
struct-Parts t h ss (ok b) n inv e =
    let (c, q) = finish_lem t h ss b n e in
    rw q (record {
      inv = λ k f l. let m = (inv b refl).counts k f l in unfold count_child in omega arith;
      checked = c;
    })
struct-Parts t h ss (err x) n inv e = absurd (cc)
struct-Parts t h ss panic n inv e = absurd (cc)

build-Parts :
    (h : Header) (ss : Statements) (parented : Bool) (n : Node)
    → build parented (stmt h ss) ≡ ok (some n)
    → Parts h ss n
unfolding build build_as
build-Parts h ss parented n e = elim (Option-cases (name_map (alias h.keyword))) [
  | inl q ↦ absurd (no_struct-none h n (rw q at e))
  | inr (t, q) ↦
      struct-Parts t h ss (build_subs ss t parented h (start h ss)) n
        (λ b r. build_subs-LoopInv ss t parented h (start h ss) b r) (rw q at e)
]
  where
    no_struct-none : (h : Header) (n : Node) → no_struct h ≡ ok (some n) → ⊥
    no_struct-none h n e = unfold no_struct in ground arith

build_ast-build : (s : Statement) (n : Node) → build_ast s ≡ ok n → build false s ≡ ok (some n)
unfolding build_ast
build_ast-build s n e = ground arith

-- A node that `BuildAST` returns is complete, and so are all nodes below it: each child stands in a
-- field of the structure and has its type, a pointer field holds one node at most, and a required
-- field holds one at least.
pub build_ast-IsNode : (s : Statement) (n : Node) → build_ast s ≡ ok n → IsNode n
build_ast-IsNode s n e =
    let g : GivesNode (header s) (ok (some n)) =
      rw (build_ast-build s n e) at (build-GivesNode s false) in
    g.1

-- Where `BuildAST` returns a node, each field of its structure holds as many nodes as there are
-- substatements with the field's keyword.
pub build_ast-count :
    (h : Header) (ss : Statements) (n : Node) (k : Bytes) (f : Field)
    → build_ast (stmt h ss) ≡ ok n
    → lookup_field k (fields_of n) ≡ some f
    → count_child k (children_of n) ≡ count_keyword k ss
build_ast-count h ss n k f e l =
    (build-Parts h ss false n (build_ast-build (stmt h ss) n e)).inv k f l

-- Where `BuildAST` returns a node, a field that is required for the statement's keyword holds a
-- node, and a field that is required for another keyword holds none: a module has its namespace and
-- its prefix and no `belongs-to`, a submodule has its `belongs-to` and neither of the others.
pub build_ast-required_for :
    (h : Header) (ss : Statements) (n : Node) (k kind : Bytes) (f : Field)
    → build_ast (stmt h ss) ≡ ok n
    → lookup_field k (fields_of n) ≡ some f
    → f.required_for ≡ some kind
    → ((kind ≡ h.keyword → 1 ≤ count_child k (children_of n))
        × (kind ≢ h.keyword → count_child k (children_of n) ≡ 0))
build_ast-required_for h ss n k kind f e l r =
    let p = build-Parts h ss false n (build_ast-build (stmt h ss) n e) in
    let c = p.checked in
    let m = p.inv k f l in
    let has = has_keyword-count k ss in
    (
      λ q.
          let test : for_kind h.keyword f.required_for ≡ true =
            rw r ((bytes_eq_iff kind h.keyword).1 q) in
          let there =
            missing_required_if (for_kind h.keyword) k f (fields_of n) ss l test c.there_for_kind in
          ground arith,
      λ ne.
          let test : for_other h.keyword f.required_for ≡ true =
            rw r (ground (arith, bytes_eq_iff kind h.keyword)) in
          let gone =
            found_required_if (for_other h.keyword) k f (fields_of n) ss l test c.not_for_other in
          ground arith,
    )
