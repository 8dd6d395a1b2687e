-- ===== src/Entry/Sort/Order/Sifting.antt =====
-- The insertion sort of errors leaves them in order and loses none.
use go_restconf.Entry.{GoError}
use go_restconf.Entry.Sort.{less, sift, sort_onto}
use go_restconf.Entry.Sort.Laws.{less_asym, less_total, HasFields}
use go_restconf.Entry.Sort.Fields.{IsInOrder}
use go_restconf.Common.{
  bytes_eq, Bytes, All, Any, Option-cases, ◌≡◌, refl, ◌↔◌, ◌⊎◌, inl, inr, true, false, some, List,
  [], ◌∷◌, arith,
}

-- A relation holds between each two neighbours.
module _ (R : GoError → GoError → Type 0) where
  abbrev pub Next : GoError → List GoError → Type 0
  Next e [] = Unit
  Next e (d ∷ es) = R e d

  abbrev pub Chain : List GoError → Type 0
  Chain [] = Unit
  Chain (e ∷ es) = Next e es × Chain es

-- The second one is not less than the first.
abbrev pub NotLess : GoError → GoError → Type 0
NotLess e d = less d.text e.text ≡ some false

abbrev pub Falling : GoError → GoError → Type 0
Falling e d = NotLess d e

-- The two are in the order of their files and lines, and the second one has another text.
abbrev pub IsBefore : GoError → GoError → Type 0
IsBefore e d = IsInOrder e.text d.text × (bytes_eq d.text e.text ≡ false)

abbrev pub HasErrorFields : GoError → Type 0
HasErrorFields e = HasFields e.text

abbrev pub Same : List GoError → List GoError → Type 1
Same es ds = (P : GoError → Type 0) → Any P es ↔ Any P ds

pub less_decided :
    (s t : Bytes) → HasFields s → HasFields t → (less s t ≡ some true) ⊎ (less s t ≡ some false)
less_decided s t h k =
    let total = less_total s t h k in
    elim (Option-cases (less s t)) [
      | inl n ↦ absurd (let e : false ≡ true = rw n at total in cc)
      | inr (true, e) ↦ inl e
      | inr (false, e) ↦ inr e
    ]

pub record Sifted (e : GoError) (done : List GoError) : Type 1 where
  pub result : List GoError
  pub runs : sift e done ≡ some result
  pub falls : Chain Falling result
  pub under : (d : GoError) → Falling d e → Next Falling d done → Next Falling d result
  pub fielded : All HasErrorFields result
  pub keeps : Same (e ∷ done) result

pub Same-swap :
    (e d : GoError) (done ds : List GoError) → Same (e ∷ done) ds → Same (e ∷ d ∷ done) (d ∷ ds)
Same-swap e d done ds same P = let k = same P in ground arith

pub sift_moves :
    (e d : GoError) (done ds : List GoError)
    → less e.text d.text ≡ some true
    → sift e done ≡ some ds
    → sift e (d ∷ done) ≡ some (d ∷ ds)
unfolding sift
sift_moves e d done ds h k = rw (h, k, sift) refl

pub sift_stays :
    (e d : GoError) (done : List GoError)
    → less e.text d.text ≡ some false
    → sift e (d ∷ done) ≡ some (e ∷ d ∷ done)
unfolding sift
sift_stays e d done h = rw (h, sift) refl

pub sift_lem :
    (e : GoError) (done : List GoError)
    → HasErrorFields e
    → All HasErrorFields done
    → Chain Falling done
    → Sifted e done
unfolding sift
sift_lem e [] f fs h = record {
  result = e ∷ [];
  runs = refl;
  falls = (tt, tt);
  under = λ d below n. below;
  fielded = (f, tt);
  keeps = λ P. ground arith;
}
sift_lem e (d ∷ done) f (g, fs) (n, h) = elim (less_decided e.text d.text f g) [
  | inl moves ↦
      let s = sift_lem e done f fs h in
      record {
        result = d ∷ s.result;
        runs = sift_moves e d done s.result moves s.runs;
        falls = (s.under d (less_asym e.text d.text moves) n, s.falls);
        under = λ c below m. m;
        fielded = (g, s.fielded);
        keeps = Same-swap e d done s.result s.keeps;
      }
  | inr stays ↦ record {
    result = e ∷ d ∷ done;
    runs = sift_stays e d done stays;
    falls = (stays, (n, h));
    under = λ c below m. below;
    fielded = (f, (g, fs));
    keeps = λ P. ground arith;
  }
]

pub record Sorting (done es : List GoError) : Type 1 where
  pub result : List GoError
  pub runs : sort_onto done es ≡ some result
  pub falls : Chain Falling result
  pub keeps : (P : GoError → Type 0) → (Any P done ⊎ Any P es) ↔ Any P result

pub sort_onto_step :
    (done ds es out : List GoError) (e : GoError)
    → sift e done ≡ some ds
    → sort_onto ds es ≡ some out
    → sort_onto done (e ∷ es) ≡ some out
unfolding sort_onto
sort_onto_step done ds es out e h k = rw (h, sort_onto) k

pub sort_onto_lem :
    (done es : List GoError)
    → All HasErrorFields done
    → All HasErrorFields es
    → Chain Falling done
    → Sorting done es
unfolding sort_onto
sort_onto_lem done [] fs gs h = record {
  result = done;
  runs = refl;
  falls = h;
  keeps = λ P. ground arith;
}
sort_onto_lem done (e ∷ es) fs (g, gs) h =
    let s = sift_lem e done g fs h in
    let r = sort_onto_lem s.result es s.fielded gs s.falls in
    record {
      result = r.result;
      runs = sort_onto_step done s.result es r.result e s.runs r.runs;
      falls = r.falls;
      keeps = λ P. let k = s.keeps P in let l = r.keeps P in ground arith;
    }
