-- ===== src/CamelCase.antt =====
-- yang/camelcase.go: `CamelCase`. The loop takes one round of fuel for each byte that is left and
-- one for its end; each round consumes one byte at least.
pub mod Output
use go_restconf.Common.{
  bytes_eq, bytes_eq_iff, bytes_eq_refl, Bytes, codes, length, take, drop, replicate, get_elem?,
  length-append, take-length_append, drop-length_append, take-append-drop, length-take, length-drop,
  length-replicate, All, All-append, ltb, leb, ◌==◌, if◌then◌else◌, ltb→lt, lt→ltb, ltb→le, le→ltb,
  ==_iff, Bool-cases, Option-cases, ℤ, pos, negsuc, pos_part, neg_part, ◌≤ℤ◌, ◌<ℤ◌, ltb_ℤ, eqb_ℤ,
  suc_ℤ, eqb_ℤ→eq, eqb_ℤ_refl, suc_ℤ_parts, Result, ok, err, panic, ◌>>=◌, passed_on, ℕ, zero, suc,
  ◌+◌, ◌-◌, ◌*◌, ◌/◌, ◌%◌, ◌^◌, ◌≤◌, ◌<◌, ◌≡◌, refl, sym, ap, ◌∙◌, ◌≢◌, ◌↔◌, ◌⊎◌, inl, inr, Bool,
  true, false, not, ◌&&◌, ◌||◌, Option, none, some, List, [], ◌∷◌, ◌++◌, map, append_assoc,
  append-nil, arith,
}

unfoldable pub is_ascii_lower : ℕ → Bool
is_ascii_lower c = leb b'a' c && leb c b'z'

unfoldable pub is_ascii_digit : ℕ → Bool
is_ascii_digit c = leb b'0' c && leb c b'9'

-- `knownWords[word]`, or the word itself.
unfoldable pub known_word : Bytes → Bytes
known_word word = if bytes_eq word (codes "Ietf") then codes "IETF" else word

unfoldable pub fix : ℕ → ℕ
fix c = if c == b'/' || c == b'-' || c == b':' then b'_' else c

abbrev pub starts_lower : Bytes → Bool
starts_lower [] = false
starts_lower (c ∷ s) = is_ascii_lower c

-- The lower case sequence that a text starts with, and what follows it.
unfoldable pub lower_run : Bytes → Bytes × Bytes
lower_run [] = ([], [])
lower_run (c ∷ s) =
    let (run, rest) = lower_run s in if is_ascii_lower c then (c ∷ run, rest) else ([], c ∷ s)

-- For a lower case letter `c ^ ' '` is `c - 32`.
unfoldable pub capital : ℕ → ℕ
capital c = if is_ascii_lower c then c - 32 else c

-- Text that is put before the result of the later rounds, if they end.
abbrev pub followed : Bytes → Option Bytes → Option Bytes
followed out none = none
followed out (some rest) = some (out ++ rest)

-- The loop of `CamelCase` over the bytes left; the result is what it appends, and `none` is that the
-- fuel is too little.
unfoldable pub camel_loop : ℕ → Bytes → Option Bytes
camel_loop zero s = none
camel_loop (suc f) [] = some []
camel_loop (suc f) (b ∷ s) = elim (fix b == b'_' && starts_lower s) [
  | true ↦ camel_loop f s
  | false ↦ elim (is_ascii_digit (fix b)) [
    | true ↦ followed (fix b ∷ []) (camel_loop f s)
    | false ↦
        followed (known_word (capital (fix b) ∷ (lower_run s).0)) (camel_loop f (lower_run s).1)
  ]
]

-- A round for each byte, and one for the end.
unfoldable pub camel_case : Bytes → Option Bytes
camel_case [] = some []
camel_case (c ∷ s) =
    if fix c == b'_'
    then followed (b'X' ∷ []) (camel_loop (suc (length s)) s)
    else camel_loop (suc (suc (length s))) (c ∷ s)
