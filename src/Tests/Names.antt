-- ===== src/Tests/Names.antt =====
-- `CamelCase` at concrete inputs.
use go_restconf.CamelCase.{
  camel_loop, camel_case, fix, is_ascii_digit, known_word, capital, is_ascii_lower, lower_run,
}
use go_restconf.CamelCase.Output.{IsClean, camel_case-IsClean, camel_case-StartsUpper, StartsUpper}
use go_restconf.Common.{Bytes, codes, some, All, ◌≡◌, refl}

camel_names :
    (camel_case (codes "_my_field_name_2") ≡ some (codes "XMyFieldName_2"))
    × (camel_case (codes "ietf-interfaces") ≡ some (codes "IETFInterfaces"))
unfolding camel_case camel_loop fix is_ascii_digit known_word capital is_ascii_lower lower_run
camel_names = (refl, refl)

camel_case-IsClean_example :
    (out : Bytes) × (camel_case (codes "a/b-c:d") ≡ some out) × All IsClean out
camel_case-IsClean_example = camel_case-IsClean (codes "a/b-c:d")

camel_case-StartsUpper_example :
    (out : Bytes) × (camel_case (codes "-a") ≡ some out) × StartsUpper out
camel_case-StartsUpper_example = camel_case-StartsUpper (codes "-a") (λ e. cc)
