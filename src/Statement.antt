-- ===== src/Statement.antt =====
-- The statements of yang/parse.go, which the parser makes and the AST is built from.
use go_restconf.Common.{Bytes, bytes_eq, Bool, false, ◌||◌, ◌+◌, ℕ, if◌then◌else◌}

-- A statement but for its substatements.
pub record Header : Type 0 where
  pub keyword : Bytes
  pub has_argument : Bool
  pub argument : Bytes
  pub file : Bytes
  pub line : ℕ
  pub col : ℕ

mutual
  pub data Statement : Type 0 where
    stmt : Header → Statements → Statement

  pub data Statements : Type 0 where
    end : Statements
    sub : Statement → Statements → Statements

abbrev pub header : Statement → Header
header (stmt h ss) = h

abbrev pub substatements : Statement → Statements
substatements (stmt h ss) = ss

-- `append(s.statements, ns)`.
unfoldable pub add_sub : Statements → Statement → Statements
add_sub end s = sub s end
add_sub (sub x xs) s = sub x (add_sub xs s)

unfoldable pub has_keyword : Bytes → Statements → Bool
has_keyword k end = false
has_keyword k (sub (stmt h ss) xs) = bytes_eq h.keyword k || has_keyword k xs

-- How many of the statements have the keyword.
unfoldable pub count_keyword : Bytes → Statements → ℕ
count_keyword k end = 0
count_keyword k (sub (stmt h ss) xs) =
    if bytes_eq h.keyword k then 1 + count_keyword k xs else count_keyword k xs
