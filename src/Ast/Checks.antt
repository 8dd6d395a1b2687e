-- ===== src/Ast/Checks.antt =====
-- The checks behind the loop over the substatements.
use go_restconf.Schema.{StructType, Field, struct_of, lookup_field}
use go_restconf.Statement.{Header, Statements, has_keyword}
use go_restconf.Ast.{
  Node, node, Building, Built, required, required_if, for_kind, for_other, first_missing,
  first_found, check_required, finish,
}
use go_restconf.Common.{
  bytes_eq_iff, Bytes, Option-cases, ok, err, ◌≡◌, inl, inr, Bool, true, false, Option, none, some,
  List, [], ◌∷◌, arith,
}

pub missing_required :
    (k : Bytes) (f : Field) (fs : List Field) (ss : Statements)
    → lookup_field k fs ≡ some f
    → f.required ≡ true
    → first_missing (required fs) ss ≡ none
    → has_keyword k ss ≡ true
unfolding required first_missing lookup_field
missing_required k f [] ss l r h = absurd (cc)
missing_required k f (g ∷ fs) ss l r h =
    ground (arith, bytes_eq_iff g.keyword k, missing_required k f fs ss)

pub missing_required_if :
    (test : Option Bytes → Bool) (k : Bytes) (f : Field) (fs : List Field) (ss : Statements)
    → lookup_field k fs ≡ some f
    → test f.required_for ≡ true
    → first_missing (required_if test fs) ss ≡ none
    → has_keyword k ss ≡ true
unfolding required_if first_missing lookup_field
missing_required_if test k f [] ss l r h = absurd (cc)
missing_required_if test k f (g ∷ fs) ss l r h =
    ground (arith, bytes_eq_iff g.keyword k, missing_required_if test k f fs ss)

pub found_required_if :
    (test : Option Bytes → Bool) (k : Bytes) (f : Field) (fs : List Field) (ss : Statements)
    → lookup_field k fs ≡ some f
    → test f.required_for ≡ true
    → first_found (required_if test fs) ss ≡ none
    → has_keyword k ss ≡ false
unfolding required_if first_found lookup_field
found_required_if test k f [] ss l r h = absurd (cc)
found_required_if test k f (g ∷ fs) ss l r h =
    ground (arith, bytes_eq_iff g.keyword k, found_required_if test k f fs ss)

-- The three checks behind the loop have passed.
pub record Checked (fs : List Field) (h : Header) (ss : Statements) : Type 0 where
  pub always_there : first_missing (required fs) ss ≡ none
  pub there_for_kind : first_missing (required_if (for_kind h.keyword) fs) ss ≡ none
  pub not_for_other : first_found (required_if (for_other h.keyword) fs) ss ≡ none

pub check_required-Checked :
    (fs : List Field) (h : Header) (ss : Statements)
    → check_required fs h ss ≡ none
    → Checked fs h ss
unfolding check_required
check_required-Checked fs h ss e = ground arith

-- The node that the checks let pass.
pub finish_lem :
    (t : StructType) (h : Header) (ss : Statements) (b : Building) (n : Node)
    → finish t h ss b ≡ ok (some n)
    → Checked (struct_of t).fields h ss × (n ≡ node t b.name b.source b.children b.extensions)
finish_lem t h ss b n e = elim (Option-cases (check_required (struct_of t).fields h ss)) [
  | inl pass ↦
      let e' : ◌≡◌ {A = Built} (ok (some (node t b.name b.source b.children b.extensions)))
          (ok (some n)) =
        rw (pass, finish) at e in
      (check_required-Checked (struct_of t).fields h ss pass, cc)
  | inr (why, fail) ↦
      absurd (let e' : ◌≡◌ {A = Built} (err why) (ok (some n)) = rw (fail, finish) at e in cc)
]
