-- ===== src/RestConf/Paths.antt =====
-- What `cleanPath` returns is rooted and clean, and cleaning it again changes nothing.
pub mod Elements
use go_restconf.GoText.{split, join}
use go_restconf.GoText.Laws.{Lacks}
use go_restconf.GoText.Splits.{split-join, split-Lacks, split_first}
use go_restconf.RestConf.{
  clean_part, clean_parts, reverse_parts, kept_parts, clean, clean_from_root, is_rooted,
  ends_in_slash, rooted, finish, clean_path,
}
use go_restconf.Common.{
  bytes_eq, bytes_eq_iff, bytes_eq_refl, Bytes, codes, length, take, drop, replicate, get_elem?,
  length-append, take-length_append, drop-length_append, take-append-drop, length-take, length-drop,
  length-replicate, is_seen, All, Any, All-append, ltb, leb, ◌==◌, if◌then◌else◌, is_some, ltb→lt,
  lt→ltb, ltb→le, le→ltb, ==_iff, Bool-cases, Option-cases, ℤ, pos, negsuc, pos_part, neg_part,
  ◌≤ℤ◌, ◌<ℤ◌, ltb_ℤ, eqb_ℤ, suc_ℤ, eqb_ℤ→eq, eqb_ℤ_refl, suc_ℤ_parts, Result, ok, err, panic, ◌>>=◌,
  passed_on, ℕ, zero, suc, ◌+◌, ◌-◌, ◌*◌, ◌/◌, ◌%◌, ◌^◌, ◌≤◌, ◌<◌, ◌≡◌, refl, sym, ap, ◌∙◌, ◌≢◌,
  ◌↔◌, ◌⊎◌, inl, inr, Bool, true, false, not, ◌&&◌, ◌||◌, Option, none, some, List, [], ◌∷◌, ◌++◌,
  map, append_assoc, append-nil, arith,
}
use go_restconf.RestConf.Paths.Elements.{
  IsElement, drop-All, clean_part-IsElement, clean_parts-IsElement, reverse_parts-IsElement,
  kept_parts-IsElement, element_kept, clean_parts_elements, reverse_twice,
  reverse_parts-clean_parts, path_of, elements_Lacks, kept_path, join_snoc, kept_trailing,
}

ends_append : (s t : Bytes) → bytes_eq t [] ≡ false → ends_in_slash (s ++ t) ≡ ends_in_slash t
unfolding ends_in_slash
ends_append s [] h = absurd (cc)
ends_append [] (c ∷ t) h = refl
ends_append (x ∷ []) (c ∷ t) h = refl
ends_append (x ∷ y ∷ s) (c ∷ t) h = ends_append (y ∷ s) (c ∷ t) h

ends_Lacks : (s : Bytes) → Lacks b'/' s → ends_in_slash s ≡ false
unfolding ends_in_slash
ends_Lacks [] h = refl
ends_Lacks (c ∷ []) (ne, h) = ground arith
ends_Lacks (c ∷ d ∷ s) (ne, h) = ends_Lacks (d ∷ s) h

join_not_empty :
    (p : Bytes) (ps : List Bytes)
    → bytes_eq p [] ≡ false
    → bytes_eq (join (p ∷ ps) (b'/' ∷ [])) [] ≡ false
unfolding join
join_not_empty [] ps h = absurd (cc)
join_not_empty (c ∷ p) [] h = refl
join_not_empty (c ∷ p) (q ∷ ps) h = refl

ends_join :
    (p : Bytes) (ps : List Bytes)
    → All IsElement (p ∷ ps)
    → ends_in_slash (join (p ∷ ps) (b'/' ∷ [])) ≡ false
unfolding join
ends_join p [] (e, h) = ends_Lacks p e.no_slash
ends_join p (q ∷ ps) (e, (f, h)) =
    let more = join (q ∷ ps) (b'/' ∷ []) in
    ends_append p (b'/' ∷ more) refl
    ∙ ends_append (b'/' ∷ []) more (join_not_empty q ps f.not_empty)
    ∙ ends_join q ps (f, h)

ends_path :
    (p : Bytes) (ps : List Bytes)
    → All IsElement (p ∷ ps)
    → ends_in_slash (path_of (p ∷ ps)) ≡ false
unfolding path_of
ends_path p ps (e, h) =
    ends_append (b'/' ∷ []) (join (p ∷ ps) (b'/' ∷ [])) (join_not_empty p ps e.not_empty)
    ∙ ends_join p ps (e, h)

-- A path of elements, with a `/` behind it where the flag says so and there are elements.
unfoldable pub with_slash : Bool → List Bytes → Bytes
unfolding path_of
with_slash slash [] = path_of []
with_slash true (p ∷ ps) = path_of (p ∷ ps) ++ b'/' ∷ []
with_slash false (p ∷ ps) = path_of (p ∷ ps)

not_root :
    (p : Bytes) (ps : List Bytes)
    → bytes_eq p [] ≡ false
    → bytes_eq (path_of (p ∷ ps)) (b'/' ∷ []) ≡ false
unfolding path_of
not_root p ps h = join_not_empty p ps h

finish_path :
    (q : Bytes) (ps : List Bytes)
    → All IsElement ps
    → finish q (path_of ps) ≡ with_slash (ends_in_slash q) ps
unfolding finish with_slash
finish_path q [] h = elim (Bool-cases (ends_in_slash q)) [
  | inl slash ↦ rw (slash, finish) refl
  | inr none_there ↦ rw (none_there, finish) refl
]
finish_path q (p ∷ ps) (e, h) = elim (Bool-cases (ends_in_slash q)) [
  | inl slash ↦ rw (slash, not_root p ps e.not_empty, finish) refl
  | inr none_there ↦ rw (none_there, finish) refl
]

finish-clean :
    (q : Bytes)
    → is_rooted q ≡ true
    → finish q (clean q) ≡ with_slash (ends_in_slash q) (kept_parts q)
unfolding clean clean_from_root path_of
finish-clean q r = rw (r, clean) (finish_path q (kept_parts q) (kept_parts-IsElement q))

is_rooted-rooted : (p : Bytes) → is_rooted (rooted p) ≡ true
unfolding is_rooted rooted
is_rooted-rooted [] = refl
is_rooted-rooted (c ∷ p) = elim (Bool-cases (c == b'/')) [
  | inl slash ↦ rw slash slash
  | inr other ↦ rw other refl
]

-- A path is rooted and clean: it is that of elements, and ends in a `/` or not.
pub record IsClean (path : Bytes) : Type 0 where
  pub slash : Bool
  pub parts : List Bytes
  pub elements : All IsElement parts
  pub form : path ≡ with_slash slash parts

root_form : b'/' ∷ [] ≡ with_slash false []
unfolding with_slash path_of
root_form = refl

-- What `cleanPath` returns is rooted and has no empty, `.` or `..` element.
pub clean_path-IsClean : (p : Bytes) → IsClean (clean_path p)
unfolding clean_path
clean_path-IsClean [] = record { slash = false; parts = []; elements = tt; form = root_form }
clean_path-IsClean (c ∷ p) = record {
  slash = ends_in_slash (rooted (c ∷ p));
  parts = kept_parts (rooted (c ∷ p));
  elements = kept_parts-IsElement (rooted (c ∷ p));
  form = finish-clean (rooted (c ∷ p)) (is_rooted-rooted (c ∷ p));
}

clean_rooted :
    (s : Bytes)
    → clean_path (b'/' ∷ s) ≡ with_slash (ends_in_slash (b'/' ∷ s)) (kept_parts (b'/' ∷ s))
unfolding clean_path
clean_rooted s = finish-clean (b'/' ∷ s) (unfold is_rooted in refl)

clean_fixed :
    (slash : Bool) (ps : List Bytes)
    → All IsElement ps
    → clean_path (with_slash slash ps) ≡ with_slash slash ps
unfolding with_slash path_of ends_in_slash kept_parts
clean_fixed slash [] h = clean_rooted [] ∙ refl
clean_fixed false (p ∷ ps) h =
    clean_rooted (join (p ∷ ps) (b'/' ∷ [])) ∙ rw (ends_path p ps h, kept_path (p ∷ ps) h) refl
clean_fixed true (p ∷ ps) h =
    clean_rooted (join (p ∷ ps) (b'/' ∷ []) ++ b'/' ∷ [])
    ∙ rw (ends_append (path_of (p ∷ ps)) (b'/' ∷ []) refl, kept_trailing p ps h) refl

-- Cleaning a path a second time changes nothing.
pub clean_path_idempotent : (p : Bytes) → clean_path (clean_path p) ≡ clean_path p
clean_path_idempotent p =
    let c = clean_path-IsClean p in
    ap clean_path c.form ∙ clean_fixed c.slash c.parts c.elements ∙ sym c.form
