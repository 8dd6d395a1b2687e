-- ===== src/ModuleSet/Loading.antt =====
-- `Parse`, `Read` and `FindModule` of yang/modules.go, which read modules into the set. What findFile
-- finds is a parameter: a state of the files and the path, and a function on it.
use go_restconf.GoMap.{get}
use go_restconf.Statement.{Statements, end, sub}
use go_restconf.Lexer.{LexError, Run, out_of_fuel}
use go_restconf.Schema.{StructType}
use go_restconf.Ast.{
  BuildError, Node, Children, no_children, child, type_of, children_of, build_ast,
}
use go_restconf.Parser.{Parsed, parsed, failed, parse}
use go_restconf.Values.{name_of, field_child}
use go_restconf.ModuleSet.{Module, Modules, add}
use go_restconf.Common.{
  bytes_eq, Bytes, codes, is_seen, if◌then◌else◌, ok, err, panic, ◌>>=◌, ℕ, zero, suc, true, false,
  Option, none, some, List, ◌∷◌, ◌++◌,
}

pub data ReadError : Type 0 where
  not_found : ReadError
  not_parsed : List LexError → ReadError
  not_built : BuildError → ReadError

-- The loop of `Parse` over the statements; the error of `add` is dropped. `none` in the answer is no
-- error.
unfoldable pub add_statements : Modules → Statements → Run (Modules × Option ReadError)
unfolding build_ast add
add_statements ms end = ok (ms, none)
add_statements ms (sub s ss) = elim (build_ast s) [
  | panic ↦ panic
  | err e ↦ ok (ms, some (not_built e))
  | ok n ↦ add_statements (add ms n).0 ss
]

-- `Parse` behind the parser.
unfoldable pub add_parsed : Modules → Parsed → Run (Modules × Option ReadError)
unfolding add_statements
add_parsed ms (parsed ss) = add_statements ms ss
add_parsed ms (failed es) = ok (ms, some (not_parsed es))

-- `Parse` of a text with the name of its source.
unfoldable pub parse_source : Modules → Bytes → Bytes → Run (Modules × Option ReadError)
unfolding parse add_parsed
parse_source ms text name = parse text name >>= add_parsed ms

-- The text that a reference to a module looks for first.
unfoldable pub revision_wanted : Node → Bytes
unfolding field_child
revision_wanted n = elim (field_child (codes "revision-date") (children_of n)) [
  | none ↦ name_of n
  | some date ↦ name_of n ++ (b'@' ∷ name_of date)
]

-- The cases of the switch on the type of a reference.
pub data Reference : Type 0 where
  to_submodule to_module other_node : Reference

unfoldable pub reference : StructType → Reference
reference StructType.include = to_submodule
reference StructType.import = to_module
reference _ = other_node

-- The map that the switch chooses.
unfoldable pub map_for : Reference → Modules → Option (List (Bytes × Module))
map_for to_submodule ms = some ms.sub_modules
map_for to_module ms = some ms.modules
map_for other_node ms = none

unfoldable pub known : Node → Option (List (Bytes × Module)) → Option Module
unfolding get revision_wanted
known n none = none
known n (some m) = elim (get (revision_wanted n) m) [ some a ↦ some a | none ↦ get (name_of n) m ]

pub data IncludeError : Type 0 where
  no_such_submodule no_such_module : Bytes → IncludeError

module _ {W : Type 0} (find_file : Bytes → W → W × Option (Bytes × Bytes)) where
  abbrev pub State : Type 0
  State = Modules × W

  abbrev pub read_found : Modules → W × Option (Bytes × Bytes) → Run (State × Option ReadError)
  read_found ms (w, none) = ok ((ms, w), some not_found)
  read_found ms (w, some (name, text)) = parse_source ms text name >>= λ r. ok ((r.0, w), r.1)

  unfoldable pub read : Bytes → State → Run (State × Option ReadError)
  unfolding parse_source
  read name (ms, w) = read_found ms (find_file name w)

  -- `FindModule` behind the call of `Read`.
  abbrev pub look_again : Node → State × Option ReadError → Run (State × Option Module)
  look_again n (s, some e) = ok (s, none)
  look_again n (s, none) = ok (s, known n (map_for (reference (type_of n)) s.0))

  unfoldable pub find_module : Node → State → Run (State × Option Module)
  unfolding read known map_for reference
  find_module n s = elim (map_for (reference (type_of n)) s.0) [
    | none ↦ ok (s, none)
    | some m ↦ elim (known n (some m)) [
      | some a ↦ ok (s, some a)
      | none ↦ read (name_of n) s >>= look_again n
    ]
  ]

  abbrev pub Included : Type 0
  Included = Run (State × Option IncludeError)

  -- `i.Module = im`, for the statement at a position of its module.
  unfoldable pub link : Module → Bytes → ℕ → Module → State → State
  link a keyword position im (ms, w) = (
    record ms {
      links =
          record { holder = a.address; keyword = keyword; position = position; target = im.address }
          ∷ ms.links;
    },
    w,
  )

  abbrev pub no_such : Bytes → Bytes → IncludeError
  no_such k name =
      if bytes_eq k (codes "include") then no_such_submodule name else no_such_module name

  -- Behind the call of `include` on the module that was found.
  abbrev pub after_include :
      Module → Bytes → ℕ → Module → (State → Included) → State × Option IncludeError → Included
  after_include a k position im rest (s, some e) = ok (s, some e)
  after_include a k position im rest (s, none) = rest (link a k position im s)

  -- Behind the call of `FindModule`.
  abbrev pub after_find :
      (Module → State → Included)
      → Module
      → Bytes
      → ℕ
      → Node
      → (State → Included)
      → State × Option Module
      → Included
  after_find include a k position n rest (s, none) = ok (s, some (no_such k (name_of n)))
  after_find include a k position n rest (s, some im) =
      include im s >>= after_include a k position im rest

  -- The loop over the statements of a module with a keyword.
  unfoldable pub include_each :
      (Module → State → Included) → Module → Bytes → ℕ → Children → State → Included
  unfolding find_module link
  include_each include a k position no_children s = ok (s, none)
  include_each include a k position (child j n cs) s = elim (bytes_eq j k) [
    | false ↦ include_each include a k position cs s
    | true ↦
        find_module n s
        >>= after_find include a k position n (include_each include a k (suc position) cs)
  ]

  -- The imports come behind the includes, where these go well.
  abbrev pub then_imports :
      (Module → State → Included) → Module → State × Option IncludeError → Included
  then_imports include a (s, some e) = ok (s, some e)
  then_imports include a (s, none) =
      include_each include a (codes "import") 0 (children_of a.node) s

  unfoldable pub mark : Module → State → State
  mark a (ms, w) = (record ms { includes = a.address ∷ ms.includes }, w)

  -- `include`, with fuel for the modules that are not marked.
  unfoldable pub include : ℕ → Module → State → Included
  unfolding include_each mark
  include zero a s = err out_of_fuel
  include (suc f) a s = elim (is_seen a.address s.0.includes) [
    | true ↦ ok (s, none)
    | false ↦
        include_each (include f) a (codes "include") 0 (children_of a.node) (mark a s)
        >>= then_imports (include f) a
  ]
