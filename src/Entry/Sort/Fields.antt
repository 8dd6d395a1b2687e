-- ===== src/Entry/Sort/Fields.antt =====
-- What `Less` of yang/entry.go says of the fields of two errors, the file and the line.
use go_restconf.GoText.{split_cuts}
use go_restconf.GoText.Digits.{parse_int}
use go_restconf.Values.{text_less}
use go_restconf.Values.Revisions.{text_less_asym}
use go_restconf.Entry.Sort.{
  sign, nless_parsed, nless, nless_at, compare_field, less_rounds, less_fields, less,
}
use go_restconf.Common.{
  Bytes, Bool-cases, ℤ, ◌≤ℤ◌, ltb_ℤ, ◌≡◌, refl, inl, inr, true, false, Option, none, some, List, [],
  ◌∷◌, arith,
}

abbrev pub first_field : List Bytes → Bytes
first_field [] = []
first_field (f ∷ fs) = f

abbrev pub second_number : List Bytes → Option ℤ
second_number [] = none
second_number (f ∷ []) = none
second_number (f ∷ g ∷ fs) = parse_int g

-- The file of an error, the text up to its first colon.
abbrev pub file_of : Bytes → Bytes
file_of s = first_field (split_cuts 3 b':' s)

-- The line of an error, where the field behind the file is a number.
abbrev pub line_of : Bytes → Option ℤ
line_of s = second_number (split_cuts 3 b':' s)

-- The first text is not of a later file, and in one file it is not of a later line.
pub record IsInOrder (s t : Bytes) : Type 0 where
  pub files : text_less (file_of t) (file_of s) ≡ false
  pub lines : (m n : ℤ) → file_of s ≡ file_of t → line_of s ≡ some m → line_of t ≡ some n → m ≤ℤ n

files_ordered :
    (fi fj : List Bytes)
    → less_fields fj fi ≡ some false
    → text_less (first_field fj) (first_field fi) ≡ false
unfolding less_fields
files_ordered fi [] h = absurd (cc)
files_ordered [] (g ∷ fj) h = absurd (cc)
files_ordered (f ∷ fi) (g ∷ fj) h = elim (Bool-cases (text_less g f)) [
  | inl later ↦ absurd (let q : some true ≡ some false = rw (later, less_fields) at h in cc)
  | inr e ↦ e
]

text_less_self : (s : Bytes) → text_less s s ≡ false
text_less_self s = elim (Bool-cases (text_less s s)) [ inl e ↦ text_less_asym s s e | inr e ↦ e ]

second_compared :
    (f a g b : Bytes) (fi fj : List Bytes)
    → compare_field (g ∷ b ∷ fj) (f ∷ a ∷ fi) 1 ≡ some (nless b a)
unfolding compare_field nless_at
second_compared f a g b fi fj = ground arith

numbers_compared :
    (a b : Bytes) (m n : ℤ)
    → parse_int a ≡ some m
    → parse_int b ≡ some n
    → nless b a ≡ sign (ltb_ℤ n m) (ltb_ℤ m n)
unfolding nless nless_parsed
numbers_compared a b m n p q = rw (p, q) refl

lines_ordered :
    (fi fj : List Bytes)
    → less_fields fj fi ≡ some false
    → (m n : ℤ) → first_field fi ≡ first_field fj
    → second_number fi ≡ some m
    → second_number fj ≡ some n
    → m ≤ℤ n
unfolding less_fields less_rounds
lines_ordered [] fj h m n e p q = absurd (cc)
lines_ordered (f ∷ []) fj h m n e p q = absurd (cc)
lines_ordered (f ∷ a ∷ fi) [] h m n e p q = absurd (cc)
lines_ordered (f ∷ a ∷ fi) (g ∷ []) h m n e p q = absurd (cc)
lines_ordered (f ∷ a ∷ fi) (g ∷ b ∷ fj) h m n e p q =
    let c = second_compared f a g b fi fj in
    let d = numbers_compared a b m n p q in
    let x : text_less g f ≡ false = rw (← e) (text_less_self f) in
    let y : text_less f g ≡ false = rw (← e) (text_less_self f) in
    elim (Bool-cases (ltb_ℤ n m)) [
      | inl less_there ↦
          absurd (
            unfold sign in
            (let k : some true ≡ some false = rw (x, y, c, d, less_there) at h in cc))
      | inr not_less ↦ ground arith
    ]

-- Where the second of two texts is not less than the first, they are in order.
pub less-IsInOrder : (s t : Bytes) → less t s ≡ some false → IsInOrder s t
unfolding less
less-IsInOrder s t h = record {
  files = files_ordered (split_cuts 3 b':' s) (split_cuts 3 b':' t) h;
  lines = lines_ordered (split_cuts 3 b':' s) (split_cuts 3 b':' t) h;
}
