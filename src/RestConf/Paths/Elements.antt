-- ===== src/RestConf/Paths/Elements.antt =====
-- The elements that `path.Clean` keeps of a path.
use go_restconf.GoText.{split, join}
use go_restconf.GoText.Laws.{Lacks}
use go_restconf.GoText.Splits.{split-join, split-Lacks}
use go_restconf.RestConf.{clean_part, clean_parts, reverse_parts, kept_parts}
use go_restconf.Common.{
  bytes_eq, Bytes, codes, drop, All, All-append, Bool-cases, ◌≡◌, refl, sym, ap, ◌∙◌, inl, inr,
  false, List, [], ◌∷◌, ◌++◌, append_assoc, append-nil,
}

-- An element of a clean path: not empty, without `/`, and neither `.` nor `..`.
pub record IsElement (part : Bytes) : Type 0 where
  pub not_empty : bytes_eq part [] ≡ false
  pub not_self : bytes_eq part (codes ".") ≡ false
  pub not_parent : bytes_eq part (codes "..") ≡ false
  pub no_slash : Lacks b'/' part

pub drop-All : (ps : List Bytes) → All IsElement ps → All IsElement (drop 1 ps)
drop-All [] h = tt
drop-All (p ∷ ps) (e, h) = h

pub clean_part-IsElement :
    (kept : List Bytes) (part : Bytes)
    → All IsElement kept
    → Lacks b'/' part
    → All IsElement (clean_part kept part)
unfolding clean_part
clean_part-IsElement kept part h l = elim (Bool-cases (bytes_eq part [])) [
  | inl empty ↦ rw empty h
  | inr some_text ↦ elim (Bool-cases (bytes_eq part (codes "."))) [
    | inl self ↦ rw (some_text, self) h
    | inr no_self ↦ elim (Bool-cases (bytes_eq part (codes ".."))) [
      | inl parent ↦ rw (some_text, no_self, parent) (drop-All kept h)
      | inr no_parent ↦
          rw (some_text, no_self, no_parent)
            (
              record {
                not_empty = some_text;
                not_self = no_self;
                not_parent = no_parent;
                no_slash = l;
              },
              h,
            )
    ]
  ]
]

pub clean_parts-IsElement :
    (kept parts : List Bytes)
    → All IsElement kept
    → All (Lacks b'/') parts
    → All IsElement (clean_parts kept parts)
unfolding clean_parts
clean_parts-IsElement kept [] h ls = h
clean_parts-IsElement kept (part ∷ parts) h (l, ls) =
    clean_parts-IsElement (clean_part kept part) parts (clean_part-IsElement kept part h l) ls

pub reverse_parts-IsElement :
    (out ps : List Bytes)
    → All IsElement out
    → All IsElement ps
    → All IsElement (reverse_parts out ps)
unfolding reverse_parts
reverse_parts-IsElement out [] h k = h
reverse_parts-IsElement out (p ∷ ps) h (e, k) = reverse_parts-IsElement (p ∷ out) ps (e, h) k

pub kept_parts-IsElement : (p : Bytes) → All IsElement (kept_parts p)
unfolding kept_parts
kept_parts-IsElement p =
    reverse_parts-IsElement [] (clean_parts [] (split p (b'/' ∷ []))) tt
      (clean_parts-IsElement [] (split p (b'/' ∷ [])) tt (split-Lacks b'/' p))

-- Elements are all kept.
pub element_kept :
    (kept : List Bytes) (part : Bytes) → IsElement part → clean_part kept part ≡ part ∷ kept
unfolding clean_part
element_kept kept part e = rw (e.not_empty, e.not_self, e.not_parent) refl

pub clean_parts_elements :
    (kept parts rest : List Bytes)
    → All IsElement parts
    → clean_parts kept (parts ++ rest) ≡ clean_parts (reverse_parts kept parts) rest
unfolding clean_parts reverse_parts
clean_parts_elements kept [] rest h = refl
clean_parts_elements kept (p ∷ ps) rest (e, h) =
    rw (element_kept kept p e, clean_parts) (clean_parts_elements (p ∷ kept) ps rest h)

pub reverse_twice :
    (out kept ps : List Bytes)
    → reverse_parts out (reverse_parts kept ps) ≡ reverse_parts (ps ++ out) kept
unfolding reverse_parts
reverse_twice out kept [] = refl
reverse_twice out kept (p ∷ ps) = reverse_twice out (p ∷ kept) ps

pub reverse_parts-clean_parts :
    (ps : List Bytes) → All IsElement ps → reverse_parts [] (clean_parts [] ps) ≡ ps
unfolding clean_parts reverse_parts
reverse_parts-clean_parts ps h =
    ap (λ qs. reverse_parts [] (clean_parts [] qs)) (sym (append-nil ps))
    ∙ ap (reverse_parts []) (clean_parts_elements [] ps [] h)
    ∙ reverse_twice [] [] ps
    ∙ append-nil ps

-- The path with these elements.
unfoldable pub path_of : List Bytes → Bytes
unfolding join
path_of ps = b'/' ∷ join ps (b'/' ∷ [])

pub elements_Lacks : (ps : List Bytes) → All IsElement ps → All (Lacks b'/') ps
elements_Lacks [] h = tt
elements_Lacks (p ∷ ps) (e, h) = (e.no_slash, elements_Lacks ps h)

pub kept_path : (ps : List Bytes) → All IsElement ps → kept_parts (path_of ps) ≡ ps
unfolding kept_parts path_of clean_parts clean_part
kept_path [] h = refl
kept_path (p ∷ ps) h =
    ap (λ qs. reverse_parts [] (clean_parts [] qs))
      (split-join b'/' p ps (elements_Lacks (p ∷ ps) h))
    ∙ reverse_parts-clean_parts (p ∷ ps) h

pub join_snoc :
    (p sep : Bytes) (ps : List Bytes) → join ((p ∷ ps) ++ [] ∷ []) sep ≡ join (p ∷ ps) sep ++ sep
unfolding join
join_snoc p sep [] = ap (λ s. p ++ s) (append-nil sep)
join_snoc p sep (q ∷ ps) =
    ap (λ s. p ++ (sep ++ s)) (join_snoc q sep ps)
    ∙ ap (λ s. p ++ s) (sym (append_assoc sep (join (q ∷ ps) sep) sep))
    ∙ sym (append_assoc p (sep ++ join (q ∷ ps) sep) sep)

pub kept_trailing :
    (p : Bytes) (ps : List Bytes)
    → All IsElement (p ∷ ps)
    → kept_parts (path_of (p ∷ ps) ++ b'/' ∷ []) ≡ p ∷ ps
unfolding kept_parts path_of clean_parts clean_part reverse_parts
kept_trailing p ps h =
    ap (λ s. kept_parts (b'/' ∷ s)) (sym (join_snoc p (b'/' ∷ []) ps))
    ∙ ap (λ qs. reverse_parts [] (clean_parts [] qs))
        (split-join b'/' p (ps ++ [] ∷ [])
          (All-append (Lacks b'/') (p ∷ ps) ([] ∷ []) (elements_Lacks (p ∷ ps) h) (tt, tt)))
    ∙ ap (reverse_parts []) (clean_parts_elements [] (p ∷ ps) ([] ∷ []) h)
    ∙ reverse_twice [] [] (p ∷ ps)
    ∙ append-nil (p ∷ ps)
