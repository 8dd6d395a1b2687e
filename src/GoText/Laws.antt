-- ===== src/GoText/Laws.antt =====
-- A text without white space is not trimmed, and the first place of a byte behind a text without it.
use go_restconf.GoText.{index_byte, is_space, trim_left, trim_right, trim_space}
use go_restconf.Common.{
  Bytes, length, All, ℕ, ◌≡◌, refl, ◌≢◌, false, none, some, [], ◌∷◌, ◌++◌, arith,
}

abbrev pub Lacks : ℕ → Bytes → Type 0
Lacks b = All (λ c. c ≢ b)

trim_left_lem : (s : Bytes) → All (λ c. is_space c ≡ false) s → trim_left s ≡ s
unfolding trim_left
trim_left_lem [] h = refl
trim_left_lem (c ∷ s) (e, h) = rw (e, trim_left)

trim_right_lem : (s : Bytes) → All (λ c. is_space c ≡ false) s → trim_right s ≡ s
unfolding trim_right
trim_right_lem [] h = refl
trim_right_lem (c ∷ []) (e, h) = rw e
trim_right_lem (c ∷ d ∷ s) (e, h) = rw (trim_right_lem (d ∷ s) h, trim_right)

pub trim_space_lem : (s : Bytes) → All (λ c. is_space c ≡ false) s → trim_space s ≡ s
unfolding trim_space
trim_space_lem s h = rw (trim_left_lem s h) (trim_right_lem s h)

pub index_byte-append :
    (c : ℕ) (s t : Bytes) → Lacks c s → index_byte c (s ++ c ∷ t) ≡ some (length s)
unfolding index_byte
index_byte-append c [] t h = ground arith
index_byte-append c (x ∷ s) t (ne, h) = ground (arith, index_byte-append c s t h)

pub index_byte-Lacks : (c : ℕ) (s : Bytes) → Lacks c s → index_byte c s ≡ none
unfolding index_byte
index_byte-Lacks c [] h = refl
index_byte-Lacks c (x ∷ s) (ne, h) = ground (arith, index_byte-Lacks c s h)
