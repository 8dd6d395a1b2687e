-- ===== src/ModuleSet/Includes.antt =====
-- `include` ends: each call marks a module that was not marked.
pub mod Growth
use go_restconf.GoMap.{get}
use go_restconf.Ast.{Node, Children, no_children, child, type_of, children_of}
use go_restconf.Lexer.{Run}
use go_restconf.Values.{name_of}
use go_restconf.ModuleSet.{Module, Modules}
use go_restconf.ModuleSet.Loading.{
  ReadError, not_found, read_found, no_such, IncludeError, State, read, look_again, map_for, known,
  revision_wanted, find_module, Included, Reference, to_submodule, to_module, other_node, reference,
  link, after_include, after_find, include_each, then_imports, mark, include,
}
use go_restconf.Common.{
  bytes_eq, bytes_eq_iff, bytes_eq_refl, Bytes, codes, length, take, drop, replicate, get_elem?,
  length-append, take-length_append, drop-length_append, take-append-drop, length-take, length-drop,
  length-replicate, is_seen, All, Any, All-append, ltb, leb, ◌==◌, if◌then◌else◌, is_some, ltb→lt,
  lt→ltb, ltb→le, le→ltb, ==_iff, Bool-cases, Option-cases, ℤ, pos, negsuc, pos_part, neg_part,
  ◌≤ℤ◌, ◌<ℤ◌, ltb_ℤ, eqb_ℤ, suc_ℤ, eqb_ℤ→eq, eqb_ℤ_refl, suc_ℤ_parts, Result, ok, err, panic, ◌>>=◌,
  passed_on, ℕ, zero, suc, ◌+◌, ◌-◌, ◌*◌, ◌/◌, ◌%◌, ◌^◌, ◌≤◌, ◌<◌, ◌≡◌, refl, sym, ap, ◌∙◌, ◌≢◌,
  ◌↔◌, ◌⊎◌, inl, inr, Bool, true, false, not, ◌&&◌, ◌||◌, Option, none, some, List, [], ◌∷◌, ◌++◌,
  map, append_assoc, append-nil, arith,
}
use go_restconf.ModuleSet.Includes.Growth.{
  unseen, unseen_mono, seen_behind, seen_first, unseen_mark, Below, IsBounded, known-Below,
  map_for-Below, Grows, Grows-refl, Grows-trans, Grows-IsBounded, Grows-unseen,
}

module _ {W : Type 0} (find_file : Bytes → W → W × Option (Bytes × Bytes))
    (closed : (name : Bytes) (w : W) → (find_file name w).1 ≡ none) where
  -- A run that returns, with or without an error.
  pub record Returns {E : Type 0} (s : Modules × W) (run : Run ((Modules × W) × Option E))
      : Type 0 where
    pub state : Modules × W
    pub error : Option E
    pub returns : run ≡ ok (state, error)
    pub grows : Grows s state

  read_found_closed :
      (ms : Modules) (r : W × Option (Bytes × Bytes))
      → r.1 ≡ none
      → read_found find_file ms r ≡ ok ((ms, r.0), some not_found)
  read_found_closed ms (w, none) h = refl
  read_found_closed ms (w, some found_file) h = absurd (cc)

  read_closed :
      (name : Bytes) (ms : Modules) (w : W)
      → read find_file name (ms, w) ≡ ok ((ms, (find_file name w).0), some not_found)
  unfolding read
  read_closed name ms w = read_found_closed ms (find_file name w) (closed name w)

  record Finds (n : Node) (s : Modules × W) : Type 0 where
    state : Modules × W
    answer : Option Module
    runs : find_module find_file n s ≡ ok (state, answer)
    grows : Grows s state
    below : (a : Module) → answer ≡ some a → a.address < s.0.next

  nothing_found : (n : Node) (b : ℕ) (a : Module) → none ≡ some a → a.address < b
  nothing_found n b a q = absurd (cc)

  find_module_closed : (n : Node) (s : Modules × W) → IsBounded s.0 → Finds n s
  unfolding find_module
  find_module_closed n (ms, w) h = elim (Option-cases (map_for (reference (type_of n)) ms)) [
    | inl e ↦ record {
      state = (ms, w);
      answer = none;
      runs = rw (e, find_module) refl;
      grows = Grows-refl (ms, w);
      below = nothing_found n ms.next;
    }
    | inr (m, e) ↦ elim (Option-cases (known n (some m))) [
      | inr (a, k) ↦ record {
        state = (ms, w);
        answer = some a;
        runs = rw (e, k, find_module) refl;
        grows = Grows-refl (ms, w);
        below = λ b q.
            known-Below n m ms.next b (map_for-Below (reference (type_of n)) ms m h e) (k ∙ q);
      }
      | inl k ↦ record {
        state = (ms, (find_file (name_of n) w).0);
        answer = none;
        runs = rw (e, k, read_closed (name_of n) ms w, find_module) refl;
        grows = record {
          same_modules = refl;
          same_sub_modules = refl;
          same_next = refl;
          kept_marks = λ x q. q;
        };
        below = nothing_found n ms.next;
      }
    ]
  ]

  Grows-Returns :
      {E : Type 0} {s t : Modules × W} {run : Run ((Modules × W) × Option E)}
      → Grows s t
      → Returns t run
      → Returns s run
  Grows-Returns g r = record {
    state = r.state;
    error = r.error;
    returns = r.returns;
    grows = Grows-trans g r.grows;
  }

  -- The calls of `include` that the loop makes, on states with at most so many modules to mark.
  abbrev Including : (Module → Modules × W → Included find_file) → ℕ → Type 0
  Including inc u =
      (im : Module) (s : Modules × W)
      → im.address < s.0.next
      → IsBounded s.0
      → unseen s.0.next s.0.includes ≤ u
      → Returns s (inc im s)

  link-Grows :
      (a im : Module) (k : Bytes) (position : ℕ) (s : Modules × W)
      → Grows s (link find_file a k position im s)
  unfolding link
  link-Grows a im k position (ms, w) = record {
    same_modules = refl;
    same_sub_modules = refl;
    same_next = refl;
    kept_marks = λ x q. q;
  }

  bind-Returns :
      {E F : Type 0} (s : Modules × W) (run : Run ((Modules × W) × Option E))
      (k : (Modules × W) × Option E → Run ((Modules × W) × Option F))
      → Returns s run
      → ((t : Modules × W) (e : Option E) → Grows s t → Returns t (k (t, e)))
      → Returns s (run >>= k)
  bind-Returns s run k r h =
      let next = Grows-Returns r.grows (h r.state r.error r.grows) in rw r.returns next

  after_include-Returns :
      (a : Module) (k : Bytes) (position : ℕ) (im : Module) (v : Modules × W)
      (e : Option IncludeError) (rest : Modules × W → Included find_file)
      → Returns (link find_file a k position im v) (rest (link find_file a k position im v))
      → Returns v (after_include find_file a k position im rest (v, e))
  after_include-Returns a k position im v (some e) rest r = record {
    state = v;
    error = some e;
    returns = refl;
    grows = Grows-refl v;
  }
  after_include-Returns a k position im v none rest r =
      Grows-Returns (link-Grows a im k position v) r

  linked_small :
      (u : ℕ) (a im : Module) (k : Bytes) (position : ℕ) (t v : Modules × W)
      → unseen t.0.next t.0.includes ≤ u
      → Grows t v
      → unseen
          (link find_file a k position im v).0.next
          (link find_file a k position im v).0.includes
        ≤ u
  linked_small u a im k position t v small q =
      omega (arith, small, Grows-unseen q, Grows-unseen (link-Grows a im k position v))

  after_find-Returns :
      (inc : Module → Modules × W → Included find_file) (u : ℕ) (a : Module) (k : Bytes)
      (position : ℕ) (n : Node) (cs : Children) (s t : Modules × W) (o : Option Module)
      → Including inc u
      → IsBounded s.0
      → unseen s.0.next s.0.includes ≤ u
      → Grows s t
      → ((im : Module) → o ≡ some im → im.address < s.0.next)
      → ((v : Modules × W)
          → IsBounded v.0
          → unseen v.0.next v.0.includes ≤ u
          → Returns v (include_each find_file inc a k (suc position) cs v))
      → Returns s (
          after_find find_file inc a k position n
            (include_each find_file inc a k (suc position) cs)
            (t, o))
  after_find-Returns inc u a k position n cs s t none f h b g below rest = record {
    state = t;
    error = some (no_such find_file k (name_of n));
    returns = refl;
    grows = g;
  }
  after_find-Returns inc u a k position n cs s t (some im) f h b g below rest =
      let here : im.address < t.0.next = rw g.same_next (below im refl) in
      let small : unseen t.0.next t.0.includes ≤ u = omega (arith, b, Grows-unseen g) in
      let r = f im t here (Grows-IsBounded g h) small in
      Grows-Returns g (
        bind-Returns t (inc im t)
          (after_include find_file a k position im
            (include_each find_file inc a k (suc position) cs))
          r
          (λ v e q.
            after_include-Returns a k position im v e
              (include_each find_file inc a k (suc position) cs)
              (rest (link find_file a k position im v)
                (Grows-IsBounded (link-Grows a im k position v)
                  (Grows-IsBounded (Grows-trans g q) h))
                (linked_small u a im k position t v small q))))

  include_each-Returns :
      (inc : Module → Modules × W → Included find_file) (u : ℕ) (a : Module) (k : Bytes)
      (position : ℕ) (cs : Children) (s : Modules × W)
      → Including inc u
      → IsBounded s.0
      → unseen s.0.next s.0.includes ≤ u
      → Returns s (include_each find_file inc a k position cs s)
  unfolding include_each
  include_each-Returns inc u a k position no_children s f h b = record {
    state = s;
    error = none;
    returns = refl;
    grows = Grows-refl s;
  }
  include_each-Returns inc u a k position (child j n cs) s f h b =
      elim (Bool-cases (bytes_eq j k)) [
        | inr other ↦ rw (other, include_each) (include_each-Returns inc u a k position cs s f h b)
        | inl field ↦
            let d = find_module_closed n s h in
            rw (field, d.runs, include_each)
              (after_find-Returns inc u a k position n cs s d.state d.answer f h b d.grows d.below
                (λ t g l. include_each-Returns inc u a k (suc position) cs t f g l))
      ]

  mark-Grows : (a : Module) (s : Modules × W) → Grows s (mark find_file a s)
  unfolding mark
  mark-Grows a (ms, w) = record {
    same_modules = refl;
    same_sub_modules = refl;
    same_next = refl;
    kept_marks = λ x. seen_behind a.address x ms.includes;
  }

  mark_fewer :
      (a : Module) (s : Modules × W)
      → a.address < s.0.next
      → is_seen a.address s.0.includes ≡ false
      → unseen (mark find_file a s).0.next (mark find_file a s).0.includes
        < unseen s.0.next s.0.includes
  unfolding mark
  mark_fewer a (ms, w) h k = unseen_mark ms.next a.address ms.includes h k

  then_imports-Returns :
      (inc : Module → Modules × W → Included find_file) (a : Module) (t : Modules × W)
      (e : Option IncludeError)
      → Returns t (include_each find_file inc a (codes "import") 0 (children_of a.node) t)
      → Returns t (then_imports find_file inc a (t, e))
  then_imports-Returns inc a t (some e) r = record {
    state = t;
    error = some e;
    returns = refl;
    grows = Grows-refl t;
  }
  then_imports-Returns inc a t none r = r

  -- Where no file is found, `include` of a module that is stored returns, with an error or without,
  -- if its fuel is more than the number of the modules that are not marked. It keeps the modules of
  -- the set and the marks.
  pub include-Returns :
      (f : ℕ) (a : Module) (s : Modules × W)
      → a.address < s.0.next
      → IsBounded s.0
      → unseen s.0.next s.0.includes < f
      → Returns s (include find_file f a s)
  unfolding include
  include-Returns zero a s h b l = absurd (omega arith)
  include-Returns (suc f) a s h b l = elim (Bool-cases (is_seen a.address s.0.includes)) [
    | inl marked ↦
        rw (marked, include)
          (record { state = s; error = none; returns = refl; grows = Grows-refl s })
    | inr unmarked ↦
        let here = mark-Grows a s in
        let fewer = mark_fewer a s h unmarked in
        let small : (t : Modules × W)
            → Grows (mark find_file a s) t
            → unseen t.0.next t.0.includes < f =
          λ t g. omega (arith, l, fewer, Grows-unseen g) in
        let loop : (k : Bytes) (t : Modules × W)
            → Grows (mark find_file a s) t
            → Returns t
                (include_each find_file (include find_file f) a k 0 (children_of a.node) t) =
          λ k t g.
            let few = small t g in
            include_each-Returns (include find_file f) (unseen t.0.next t.0.includes) a k 0
              (children_of a.node) t
              (λ im v below bounded left.
                include-Returns f im v below bounded (omega (arith, few, left)))
              (Grows-IsBounded (Grows-trans here g) b) (omega arith) in
        rw (unmarked, include)
          (Grows-Returns here (
            bind-Returns (mark find_file a s)
              (include_each find_file (include find_file f) a (codes "include") 0
                (children_of a.node) (mark find_file a s))
              (then_imports find_file (include find_file f) a)
              (loop (codes "include") (mark find_file a s) (Grows-refl (mark find_file a s)))
              (λ t e g.
                then_imports-Returns (include find_file f) a t e (loop (codes "import") t g))))
  ]
