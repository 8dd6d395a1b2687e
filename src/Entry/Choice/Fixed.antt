-- ===== src/Entry/Choice/Fixed.antt =====
-- `FixChoice` is its two loops one behind the other, leaves no choice without errors with a child that
-- is no case, and changes nothing the second time.
use go_restconf.Entry.{
  Info, Entry, entry, nil_dir, dir, Entries, no_entries, item, info, is_choice, is_case, Rpc,
  nil_rpc, rpc, Slot, nil_entry, filled,
}
use go_restconf.Entry.Choice.{
  case_info, in_case, puts_cases, put_in_case, put_each, fix_choice, fix_each,
}
use go_restconf.Common.{
  Bool-cases, ◌∙◌, ◌≡◌, refl, sym, inl, inr, Bool, true, not, ◌&&◌, List, [], ◌∷◌, ◌++◌, append-nil,
  arith,
}

-- The second loop.
unfoldable pub fix_below : Entries → Entries
fix_below no_entries = no_entries
fix_below (item k ce cs) = item k (fix_choice ce) (fix_below cs)

fix_in_case :
    (i : Info) (inner : Entry) → fix_choice (in_case i inner) ≡ in_case i (fix_choice inner)
unfolding fix_choice in_case case_info puts_cases put_in_case is_choice
fix_in_case i inner = refl

fix_put :
    (puts : Bool) (ce : Entry)
    → put_in_case puts ce (fix_choice ce) ≡ fix_choice (put_in_case puts ce ce)
unfolding put_in_case
fix_put puts ce = elim (Bool-cases (puts && not (is_case ce))) [
  | inl put ↦ rw (put, put_in_case) (sym (fix_in_case (info ce) ce))
  | inr kept ↦ rw (kept, put_in_case) refl
]

fix_each_two : (puts : Bool) (cs : Entries) → fix_each puts cs ≡ fix_below (put_each puts cs)
unfolding fix_choice fix_below put_each
fix_each_two puts no_entries = refl
fix_each_two puts (item k ce cs) = rw (fix_put puts ce, fix_each_two puts cs) refl

-- `FixChoice` of an entry with children is the second loop behind the first.
pub fix_choice-put_each :
    (i : Info) (r : Rpc) (cs : Entries)
    → fix_choice (entry i r (dir cs)) ≡ entry i r (dir (fix_below (put_each (puts_cases i) cs)))
unfolding fix_choice
fix_choice-put_each i r cs = rw (fix_each_two (puts_cases i) cs) refl

-- Each child of a choice without errors is a case, all the way down through children.
unfoldable mutual
  pub IsFixed : Entry → Type 0
  IsFixed (entry i r nil_dir) = Unit
  IsFixed (entry i r (dir cs)) = AreFixed (puts_cases i) cs

  pub AreFixed : Bool → Entries → Type 0
  AreFixed puts no_entries = Unit
  AreFixed puts (item k ce cs) = (puts ≡ true → is_case ce ≡ true) × IsFixed ce × AreFixed puts cs

fix_choice-is_case : (e : Entry) → is_case (fix_choice e) ≡ is_case e
unfolding fix_choice is_case
fix_choice-is_case (entry i r nil_dir) = refl
fix_choice-is_case (entry i r (dir cs)) = refl

in_case-IsFixed : (i : Info) (inner : Entry) → IsFixed inner → IsFixed (in_case i inner)
unfolding IsFixed in_case case_info puts_cases is_choice
in_case-IsFixed i inner h = (λ q. absurd (cc), h, tt)

in_case-is_case : (i : Info) (inner : Entry) → is_case (in_case i inner) ≡ true
unfolding in_case case_info is_case
in_case-is_case i inner = refl

put_in_case-IsFixed :
    (puts : Bool) (ce : Entry)
    → IsFixed (fix_choice ce)
    → (puts ≡ true → is_case (put_in_case puts ce (fix_choice ce)) ≡ true)
      × IsFixed (put_in_case puts ce (fix_choice ce))
unfolding put_in_case
put_in_case-IsFixed puts ce h = elim (Bool-cases (puts && not (is_case ce))) [
  | inl put ↦
      rw (put, put_in_case)
        (
          λ p. in_case-is_case (info ce) (fix_choice ce),
          in_case-IsFixed (info ce) (fix_choice ce) h,
        )
  | inr kept ↦ rw (kept, put_in_case) (λ p. rw (fix_choice-is_case ce) (ground arith), h)
]

mutual
  unfolding fix_choice IsFixed

  fix_choice-IsFixed' : (e : Entry) → IsFixed (fix_choice e)
  fix_choice-IsFixed' (entry i r nil_dir) = tt
  fix_choice-IsFixed' (entry i r (dir cs)) = fix_each_fixed (puts_cases i) cs

  fix_each_fixed : (puts : Bool) (cs : Entries) → AreFixed puts (fix_each puts cs)
  fix_each_fixed puts no_entries = tt
  fix_each_fixed puts (item k ce cs) =
      let (case, fixed) = put_in_case-IsFixed puts ce (fix_choice-IsFixed' ce) in
      (case, fixed, fix_each_fixed puts cs)

put_fixed :
    (puts : Bool) (ce inner : Entry)
    → (puts ≡ true → is_case ce ≡ true)
    → put_in_case puts ce inner ≡ inner
unfolding put_in_case
put_fixed puts ce inner h = elim (Bool-cases (puts && not (is_case ce))) [
  | inl put ↦ absurd (ground arith)
  | inr kept ↦ rw (kept, put_in_case) refl
]

-- After `FixChoice` each choice without errors that is reached through children, the entry included,
-- has cases as children only. What is below the input and the output of an RPC is not reached.
pub fix_choice-IsFixed : (e : Entry) → IsFixed (fix_choice e)
fix_choice-IsFixed e = fix_choice-IsFixed' e

mutual
  unfolding fix_choice IsFixed

  fixed_same : (e : Entry) → IsFixed e → fix_choice e ≡ e
  fixed_same (entry i r nil_dir) h = refl
  fixed_same (entry i r (dir cs)) h = rw (fixed_each (puts_cases i) cs h) refl

  fixed_each : (puts : Bool) (cs : Entries) → AreFixed puts cs → fix_each puts cs ≡ cs
  fixed_each puts no_entries h = refl
  fixed_each puts (item k ce cs) (case, fixed, rest) =
      rw (put_fixed puts ce (fix_choice ce) case, fixed_same ce fixed, fixed_each puts cs rest) refl

-- The second `FixChoice` changes nothing.
pub fix_choice_idempotent : (e : Entry) → fix_choice (fix_choice e) ≡ fix_choice e
fix_choice_idempotent e = fixed_same (fix_choice e) (fix_choice-IsFixed e)

-- The leaves below an entry, in order: those below its children, then those below the input and the
-- output of its RPC.
unfoldable mutual
  pub leaves : Entry → List Info
  leaves (entry i r nil_dir) = i ∷ leaves_rpc r
  leaves (entry i r (dir cs)) = leaves_below cs ++ leaves_rpc r

  pub leaves_below : Entries → List Info
  leaves_below no_entries = []
  leaves_below (item k c cs) = leaves c ++ leaves_below cs

  pub leaves_rpc : Rpc → List Info
  leaves_rpc nil_rpc = []
  leaves_rpc (rpc input output) = leaves_slot input ++ leaves_slot output

  pub leaves_slot : Slot → List Info
  leaves_slot nil_entry = []
  leaves_slot (filled e) = leaves e

put_in_case-leaves :
    (puts : Bool) (ce inner : Entry) → leaves (put_in_case puts ce inner) ≡ leaves inner
unfolding put_in_case in_case leaves
put_in_case-leaves puts ce inner = elim (Bool-cases (puts && not (is_case ce))) [
  | inl put ↦ rw (put, put_in_case) (append-nil (leaves inner ++ []) ∙ append-nil (leaves inner))
  | inr kept ↦ rw (kept, put_in_case) refl
]

mutual
  unfolding fix_choice leaves

  leaves-fix_choice' : (e : Entry) → leaves (fix_choice e) ≡ leaves e
  leaves-fix_choice' (entry i r nil_dir) = refl
  leaves-fix_choice' (entry i r (dir cs)) = rw (fix_each_leaves (puts_cases i) cs) refl

  fix_each_leaves : (puts : Bool) (cs : Entries) → leaves_below (fix_each puts cs) ≡ leaves_below cs
  fix_each_leaves puts no_entries = refl
  fix_each_leaves puts (item k ce cs) =
      rw
        (put_in_case-leaves puts ce (fix_choice ce), leaves-fix_choice' ce, fix_each_leaves puts cs)
        refl

-- `FixChoice` keeps the leaves below an entry, through its children and its RPC, each with its fields,
-- and their order.
pub leaves-fix_choice : (e : Entry) → leaves (fix_choice e) ≡ leaves e
leaves-fix_choice e = leaves-fix_choice' e
