-- ===== src/Base/Distinct.antt =====
-- Predicates on lists by recursion, and lists of distinct numbers.
use lakesis.Base.{ℕ, ◌<◌, ◌≢◌, sym, List, [], ◌∷◌, ◌++◌, arith}

abbrev pub All {ℓ κ} : {A : Type ℓ} → (A → Type κ) → List A → Type κ
All P [] = Unit
All P (x ∷ xs) = P x × All P xs

module _ {ℓ κ} {A : Type ℓ} (P : A → Type κ) where
  pub All-append : (xs ys : List A) → All P xs → All P ys → All P (xs ++ ys)
  All-append [] ys p q = q
  All-append (x ∷ xs) ys (px, ps) q = (px, All-append xs ys ps q)

  pub All-left : (xs ys : List A) → All P (xs ++ ys) → All P xs
  All-left [] ys p = tt
  All-left (x ∷ xs) ys (px, ps) = (px, All-left xs ys ps)

  pub All-right : (xs ys : List A) → All P (xs ++ ys) → All P ys
  All-right [] ys p = p
  All-right (x ∷ xs) ys (px, ps) = All-right xs ys ps

  pub All-map {μ} : {Q : A → Type μ} (xs : List A) → ((x : A) → P x → Q x) → All P xs → All Q xs
  All-map [] f p = tt
  All-map (x ∷ xs) f (px, ps) = (f x px, All-map xs f ps)

-- A number that is not in the list.
abbrev pub IsFresh : ℕ → List ℕ → Type 0
IsFresh k = All (λ j. k ≢ j)

abbrev pub AreDistinct : List ℕ → Type 0
AreDistinct [] = Unit
AreDistinct (k ∷ ks) = IsFresh k ks × AreDistinct ks

-- Inserting a fresh number anywhere, and removing any, keeps them distinct.
pub AreDistinct-insert :
    (xs ys : List ℕ) (k : ℕ)
    → AreDistinct (xs ++ ys)
    → IsFresh k (xs ++ ys)
    → AreDistinct (xs ++ k ∷ ys)
AreDistinct-insert [] ys k d f = (f, d)
AreDistinct-insert (x ∷ xs) ys k (dx, d) (fx, f) = (
  All-append _ xs (k ∷ ys) (All-left _ xs ys dx) ((λ e. fx (sym e)), All-right _ xs ys dx),
  AreDistinct-insert xs ys k d f,
)

pub AreDistinct-remove :
    (xs ys : List ℕ) (k : ℕ)
    → AreDistinct (xs ++ k ∷ ys)
    → IsFresh k (xs ++ ys) × AreDistinct (xs ++ ys)
AreDistinct-remove [] ys k d = d
AreDistinct-remove (x ∷ xs) ys k (dx, d) =
    let (f, d') = AreDistinct-remove xs ys k d in
    let right = All-right _ xs (k ∷ ys) dx in
    (((λ e. right.0 (sym e)), f), (All-append _ xs ys (All-left _ xs (k ∷ ys) dx) right.1, d'))

pub IsFresh-next : (n : ℕ) (xs : List ℕ) → All (λ j. j < n) xs → IsFresh n xs
IsFresh-next n [] h = tt
IsFresh-next n (x ∷ xs) (hx, hs) = ((λ e. absurd (omega (arith, e))), IsFresh-next n xs hs)
