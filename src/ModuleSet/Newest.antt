-- ===== src/ModuleSet/Newest.antt =====
-- In a set to which only `add` adds, the name of a module stands for its newest revision.
pub mod Filed
use mathlib.Core.Path.{subst}
use go_restconf.GoMap.{get, put, get-put}
use go_restconf.GoText.Laws.{Lacks}
use go_restconf.Ast.{Node}
use go_restconf.Values.{name_of, text_less, current, full_name}
use go_restconf.Values.Revisions.{text_less_refl, text_less_asym, text_less_trans}
use go_restconf.ModuleSet.{Module, Modules, new_modules, takes_name, add_to, add, kind_of, added}
use go_restconf.Common.{
  bytes_eq, bytes_eq_iff, bytes_eq_refl, Bytes, codes, length, take, drop, replicate, get_elem?,
  length-append, take-length_append, drop-length_append, take-append-drop, length-take, length-drop,
  length-replicate, All, Any, All-append, ltb, leb, ◌==◌, if◌then◌else◌, is_some, ltb→lt, lt→ltb,
  ltb→le, le→ltb, ==_iff, Bool-cases, Option-cases, ℤ, pos, negsuc, pos_part, neg_part, ◌≤ℤ◌, ◌<ℤ◌,
  ltb_ℤ, eqb_ℤ, suc_ℤ, eqb_ℤ→eq, eqb_ℤ_refl, suc_ℤ_parts, Result, ok, err, panic, ◌>>=◌, passed_on,
  ℕ, zero, suc, ◌+◌, ◌-◌, ◌*◌, ◌/◌, ◌%◌, ◌^◌, ◌≤◌, ◌<◌, ◌≡◌, refl, sym, ap, ◌∙◌, ◌≢◌, ◌↔◌, ◌⊎◌, inl,
  inr, Bool, true, false, not, ◌&&◌, ◌||◌, Option, none, some, List, [], ◌∷◌, ◌++◌, map,
  append_assoc, append-nil, arith,
}
use go_restconf.ModuleSet.Newest.Filed.{
  IsShadowed, IsFiled, AreFiled, Lacks-not_at, full_name-cases, full_name_other, some_eq, held_name,
  put-IsShadowed, put_name-IsShadowed, put-AreFiled,
}

is_none : (c : Option Module) → is_some c ≡ false → c ≡ none
is_none none h = refl
is_none (some a) h = absurd (cc)

refiled :
    {m m' : List (Bytes × Module)} {k : Bytes} {x : Module}
    → IsFiled m k x
    → IsShadowed m' x
    → IsFiled m' k x
refiled f s = record { plain = f.plain; key = f.key; shadowed = s }

module _ (m : List (Bytes × Module)) (a : Module) (filed : AreFiled m)
    (plain : Lacks b'@' (name_of a.node)) where
  -- A module whose full name is its name, which stood for nothing.
  add_unrevised :
      full_name a.node ≡ name_of a.node
      → get (name_of a.node) m ≡ none
      → AreFiled (put (name_of a.node) a m)
  add_unrevised q h =
      put-AreFiled (name_of a.node) a m
        (record {
          plain = plain;
          key = inr refl;
          shadowed = put_name-IsShadowed a a m refl (text_less_refl (full_name a.node));
        })
        (λ j x other held.
          let f = filed j x held in
          refiled f (put-IsShadowed (name_of a.node) a x m (not_named x f.shadowed) f.shadowed))
    where
      not_named : (x : Module) → IsShadowed m x → bytes_eq (name_of a.node) (name_of x.node) ≡ false
      not_named x s = elim (Bool-cases (bytes_eq (name_of a.node) (name_of x.node))) [
        | inl same ↦ absurd (
            let g : get (name_of a.node) m ≡ some s.holder =
              rw ((bytes_eq_iff (name_of a.node) (name_of x.node)).0 same) s.held in
            cc)
        | inr other ↦ other
      ]

  -- The map with a module that has a revision under its full name: all but the module are filed.
  full_put :
      bytes_eq (full_name a.node) (name_of a.node) ≡ false
      → (j : Bytes) (x : Module) → get j m ≡ some x
      → IsFiled (put (full_name a.node) a m) j x
  full_put h j x held =
      let f = filed j x held in
      refiled f (
        put-IsShadowed (full_name a.node) a x m (full_name_other a.node x.node f.plain h)
          f.shadowed)

  name_unput :
      bytes_eq (full_name a.node) (name_of a.node) ≡ false
      → get (name_of a.node) (put (full_name a.node) a m) ≡ get (name_of a.node) m
  name_unput h = get-put (name_of a.node) (full_name a.node) a m ∙ rw h refl

  -- The name stands for a module that is not older.
  add_older :
      (o : Module)
      → bytes_eq (full_name a.node) (name_of a.node) ≡ false
      → get (name_of a.node) m ≡ some o
      → text_less (full_name o.node) (full_name a.node) ≡ false
      → AreFiled (put (full_name a.node) a m)
  add_older o h there older =
      put-AreFiled (full_name a.node) a m
        (record {
          plain = plain;
          key = inl refl;
          shadowed = record {
            holder = o;
            held = name_unput h ∙ there;
            same_name = held_name m a o filed plain there;
            newest = older;
          };
        })
        (λ j x other held. full_put h j x held)

  -- What has the name of the new module is no newer, where the new module takes the name.
  takes_newest :
      takes_name (get (name_of a.node) m) (full_name a.node) ≡ true
      → (x : Module) → IsShadowed m x
      → name_of a.node ≡ name_of x.node
      → text_less (full_name a.node) (full_name x.node) ≡ false
  unfolding takes_name
  takes_newest t x s q =
      let g : get (name_of a.node) m ≡ some s.holder = rw q s.held in
      let newer : text_less (full_name s.holder.node) (full_name a.node) ≡ true = rw g at t in
      text_less_trans (full_name x.node) (full_name s.holder.node) (full_name a.node) s.newest
        (text_less_asym (full_name s.holder.node) (full_name a.node) newer)

  module _ (h : bytes_eq (full_name a.node) (name_of a.node) ≡ false)
      (t : takes_name (get (name_of a.node) m) (full_name a.node) ≡ true) where
    renamed : List (Bytes × Module)
    renamed = put (name_of a.node) a (put (full_name a.node) a m)

    renamed-IsShadowed :
        (x : Module) → Lacks b'@' (name_of x.node) → IsShadowed m x → IsShadowed renamed x
    unfolding renamed
    renamed-IsShadowed x px s = elim (Bool-cases (bytes_eq (name_of a.node) (name_of x.node))) [
      | inl same ↦
          let q = (bytes_eq_iff (name_of a.node) (name_of x.node)).0 same in
          put_name-IsShadowed a x (put (full_name a.node) a m) q (takes_newest t x s q)
      | inr other ↦
          put-IsShadowed (name_of a.node) a x (put (full_name a.node) a m) other
            (put-IsShadowed (full_name a.node) a x m (full_name_other a.node x.node px h) s)
    ]

    self-IsShadowed : IsShadowed renamed a
    unfolding renamed
    self-IsShadowed =
        put_name-IsShadowed a a (put (full_name a.node) a m) refl
          (text_less_refl (full_name a.node))

    -- The new module takes the name.
    add_newer : AreFiled renamed
    unfolding renamed
    add_newer =
        put-AreFiled (name_of a.node) a (put (full_name a.node) a m)
          (record { plain = plain; key = inr refl; shadowed = self-IsShadowed })
          (λ j x other held. elim (Bool-cases (bytes_eq (full_name a.node) j)) [
            | inl same ↦
                let q : a ≡ x =
                  some_eq (rw same at (sym (get-put j (full_name a.node) a m) ∙ held)) in
                subst (λ y. IsFiled renamed j y) q
                  (record {
                    plain = plain;
                    key = inl (sym ((bytes_eq_iff (full_name a.node) j).0 same));
                    shadowed = self-IsShadowed;
                  })
            | inr apart ↦
                let f = filed j x (rw apart at (sym (get-put j (full_name a.node) a m) ∙ held)) in
                refiled f (renamed-IsShadowed x f.plain f.shadowed)
          ])

  takes_not :
      (c : Option Module)
      → takes_name c (full_name a.node) ≡ false
      → (o : Module) × (c ≡ some o) × (text_less (full_name o.node) (full_name a.node) ≡ false)
  unfolding takes_name
  takes_not none h = absurd (cc)
  takes_not (some o) h = (o, refl, h)

  -- `add` keeps the map filed, whether it adds the module or not.
  add_to-AreFiled : AreFiled (add_to m a).0
  unfolding add_to renamed
  add_to-AreFiled = elim (Bool-cases (is_some (get (full_name a.node) m))) [
    | inl present ↦ rw (present, add_to) filed
    | inr absent ↦ elim (Bool-cases (bytes_eq (full_name a.node) (name_of a.node))) [
      | inl plain_name ↦
          rw (absent, plain_name, add_to)
            (let q = (bytes_eq_iff (full_name a.node) (name_of a.node)).0 plain_name in
              let free : is_some (get (name_of a.node) m) ≡ false =
                subst (λ k. is_some (get k m) ≡ false) q absent in
              subst (λ k. AreFiled (put k a m)) (sym q)
                (add_unrevised q (is_none (get (name_of a.node) m) free)))
      | inr revised ↦
          elim (Bool-cases
            (takes_name (get (name_of a.node) (put (full_name a.node) a m)) (full_name a.node))) [
              | inl takes ↦
                  rw (absent, revised, takes, add_to)
                    (add_newer revised (rw (name_unput revised) at takes))
              | inr keeps ↦
                  rw (absent, revised, keeps, add_to)
                    (let (o, there, older) =
                        takes_not (get (name_of a.node) m) (rw (name_unput revised) at keeps) in
                      add_older o revised there older)
            ]
    ]
  ]

-- Both maps of a set are filed.
pub record IsModuleSet (ms : Modules) : Type 0 where
  pub modules_filed : AreFiled ms.modules
  pub sub_modules_filed : AreFiled ms.sub_modules

-- The set that NewModules returns is filed.
pub new_modules-IsModuleSet : IsModuleSet new_modules
unfolding new_modules get
new_modules-IsModuleSet = record {
  modules_filed = λ k a h. absurd (cc);
  sub_modules_filed = λ k a h. absurd (cc);
}

-- `add` of a node whose name has no `@` keeps a set filed, whether it returns an error or not: what
-- stands under a key has it as its full name or its name, and its name stands for a module of that
-- name with a full name that is not less, the newest revision.
pub add-IsModuleSet :
    (ms : Modules) (n : Node) → Lacks b'@' (name_of n) → IsModuleSet ms → IsModuleSet (add ms n).0
unfolding add
add-IsModuleSet ms n plain s = elim (Bool-cases (bytes_eq (kind_of n) (codes "module"))) [
  | inl module_kind ↦
      rw (module_kind, add)
        (record {
          modules_filed =
              add_to-AreFiled ms.modules (record { address = ms.next; node = n }) s.modules_filed
                plain;
          sub_modules_filed = s.sub_modules_filed;
        })
  | inr other ↦ elim (Bool-cases (bytes_eq (kind_of n) (codes "submodule"))) [
    | inl submodule_kind ↦
        rw (other, submodule_kind, add)
          (record {
            modules_filed = s.modules_filed;
            sub_modules_filed =
                add_to-AreFiled ms.sub_modules (record { address = ms.next; node = n })
                  s.sub_modules_filed plain;
          })
    | inr neither ↦
        rw (other, neither, add)
          (record { modules_filed = s.modules_filed; sub_modules_filed = s.sub_modules_filed })
  ]
]
