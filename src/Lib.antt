-- ===== src/Lib.antt =====
-- A model of the YANG compiler of go-restconf (package yang, the directory yang/), which reads YANG
-- modules: text to tokens, tokens to statements, statements to an AST of Go structures; the set of
-- modules that were read; trees of entries; and the numbers, ranges, enumerations and types that the
-- restrictions of YANG types are made of. And of the server that main.go starts.
--
-- The parts, and the files that model them:
-- - Common, GoText: lists measured by native numbers, results of fallible code (a value, an error, a
--   panic), signed integers, and what the source uses of Go's packages strings, unicode and strconv:
--   they are written out for the byte strings and code points that the source hands to them.
-- - Lexer (yang/lex.go): the record `Lexer` is the struct `lexer`. The input is the list of its
--   code points, so positions count runes. Lexer/Cursor has `next`, `backup`, `peek`, `acceptRun`,
--   `skipTo`, `updateCursor`, `emit`, `Errorf` and `adderror`; a slice of the input that is out of its
--   bounds is a panic. Lexer/States the state functions and
--   `NextToken`. The channel of tokens is a list that holds three; a send to a full one is the outcome
--   `blocked`, since the goroutine that sends is the only one that receives.
-- - Parser (yang/parse.go): `Parse`, `next` with the joining of strings by `+`, and `nextStatement`,
--   with the stack of pushed tokens and the brace that was hit. Statement has the statements.
-- - Schema (yang/yang.go): the table that `initTypes` of yang/ast.go reads from the tags of the
--   structures by reflection: for each structure its kind and its fields with keyword, shape, type,
--   `required`, `required=KIND` and `nomerge`.
-- - Ast (yang/ast.go): `build` and `BuildAST` on that table. A node has the children that its fields
--   hold, in the order of the statements.
-- - Values (yang/yang.go): `asRangeInt` and `asBool` of a value, `Current`, `FullName` and `GetPrefix`
--   of a module, on the nodes of Ast.
-- - Number, Range, EnumType (yang/types_builtin.go): `Number` with its text and its order, `YRange`
--   and `YangRange`, `EnumType`. A `uint64` or an `int64` is a native number below its bound, and what
--   the source does at the bound is written out.
-- - BaseTypes (yang/types_builtin.go): `TypeKind` and its tables of names, `YangType` with `Equal`, the
--   ranges that are built in, `baseTypes` and `init`.
-- - GoMap: Go maps with texts as keys, as association lists. A map that is ranged over is ranged over in
--   the order of its list, and the theorems hold for any.
-- - Entry (yang/entry.go, and `getPrefix` of yang/node.go): entries as trees. An entry holds its children
--   and the input and output of an RPC; its parent is the entry that holds it, and where the code follows
--   `Parent`, the model has a place, the entry with its parents. Since entries are trees, `dup` copies
--   nothing that anyone else holds; what an RPC holds is shared in the source, and its parent stays the
--   original, which the model does not say. Entry/Errors and Entry/Sort have the errors, which have an identity,
--   as pointers do, and `errorSort`, with what `sort.Sort` makes of more than twelve errors as a
--   parameter; Entry/Merge has `add`, `dup` and `merge`, Entry/Choice `FixChoice`,
--   Entry/Place what reads the parents, and the way of `Find` from part to part.
-- - ModuleSet (yang/modules.go): `Modules` with `add`; ModuleSet/Lookup the lookups by prefix and by
--   namespace; ModuleSet/Loading `Parse`, `Read`, `FindModule` and `include`. A module has an address,
--   which is what pointers to it compare, and `include` stores in `links` what the source stores in the
--   statement. What `findFile` finds is a parameter, with a state of its own.
-- - Identity (yang/identity.go): `addChildren`, and the final sweep of `resolveIdentities` over the
--   dictionary. What an identity has as `Values` is a function of its address, which the sweep changes.
-- - RestConf (main.go): the map of handlers, `cleanPath`, `ServeHTTP` and the handlers. What the
--   encoders of Go make of the documents, and the time, are parameters.
-- - CamelCase (yang/camelcase.go): the names of identifiers in camel case.
-- - Tests: runs at concrete inputs, and the theorems at inputs that meet their hypotheses.
--
-- How they interact: the parser runs the lexer through `NextToken` and writes its errors to the
-- lexer's `errout`, as in the source, where both write to one buffer; it sets `inPattern` around the
-- argument of a `pattern` statement. `build` takes the statements that `Parse` returns. Ranges are
-- lists of pairs of numbers. `Modules.Parse` hands what `Parse` returns to `BuildAST`, statement by
-- statement, and adds the nodes to the set; `FindModule` reads a module that the set does not have.
-- Types hold ranges, and the ranges that are built in are parsed from their texts. Entries are compared
-- by texts that `errorSort` splits into fields.
--
-- Fuel. Loops of the lexer take one round of fuel for each rune left and one more, `NextToken` two for
-- each rune left and four more, the parser one for each token that can still come, of which there are
-- at most two for each rune left and the ones that wait in the channel. Running out is the outcome
-- `out_of_fuel`; Parser/Ends and Lexer/Progress are about it.
-- The loop of `CamelCase` takes one round for each byte and one more; to run out is `none`, and
-- CamelCase/Output is about it. `include` takes one unit of fuel for each module that is not marked
-- and one more; ModuleSet/Includes is about it. `addChildren` takes one for each level of derived
-- identities; Identity/Closure is about it.
--
-- Not modelled: the debug output of the lexer, the printing of tokens, statements and entries, floats
-- (`FromFloat`), the dictionary of typedefs, the reflection that reads the tags, `ToEntry`, `Augment` and
-- `Find` of rooted names (yang/entry.go), which need a store of entries that modules share, `Process`
-- (yang/modules.go), nodes and lookups but for `getPrefix` (yang/node.go, yang/find.go), the dictionary
-- of identities and their bases (yang/identity.go), the resolution of types (yang/types.go), the search
-- for files (yang/file.go), and the flags and the socket of the server (main.go).
pub mod Common
pub mod GoText
pub mod GoMap
pub mod Number
pub mod Range
pub mod EnumType
pub mod BaseTypes
pub mod CamelCase
pub mod Lexer
pub mod Statement
pub mod Parser
pub mod Schema
pub mod Ast
pub mod Values
pub mod Entry
pub mod ModuleSet
pub mod Identity
pub mod RestConf
mod Tests
