-- ===== src/Plans/Order.antt =====
-- Numbers that rise along a list, and texts that stand in it once: what the registry of
-- src/core/plans.py keeps of its ids, its version numbers and its file bindings.
use claude_code_manager.Base.{
  ℕ, ◌<◌, ◌≡◌, false, some, List, [], ◌∷◌, ◌++◌, Text, ◌==◌, Text_eq, All, arith,
}
use claude_code_manager.Plans.Verbs.{maximum, get_last?}

-- Each number is above the one before it, the first above `n`.
abbrev pub Rising : ℕ → List ℕ → Type 0
Rising n [] = Unit
Rising n (x ∷ xs) = (n < x) × Rising x xs

pub Rising-snoc :
    (n m : ℕ) (xs : List ℕ) → Rising n xs → n < m → maximum xs < m → Rising n (xs ++ m ∷ [])
Rising-snoc n m [] r lt above = (lt, tt)
Rising-snoc n m (x ∷ xs) r lt above = (r.0, Rising-snoc x m xs r.1 (omega arith) (omega arith))

-- In a rising list the last number is the greatest.
pub maximum_of_Rising :
    (n l : ℕ) (xs : List ℕ) → Rising n xs → get_last? xs ≡ some l → maximum xs ≡ l
maximum_of_Rising n l [] r h = cc
maximum_of_Rising n l (x ∷ []) r h = ground arith
maximum_of_Rising n l (x ∷ y ∷ xs) r h = omega (arith, maximum_of_Rising x l (y ∷ xs) r.1 h, r.1.0)

abbrev pub Apart : Text → List Text → Type 0
Apart f = All (λ g. (g == f) ≡ false)

abbrev pub Distinct : List Text → Type 0
Distinct [] = Unit
Distinct (f ∷ fs) = Apart f fs × Distinct fs

apart_flip : (f g : Text) → (f == g) ≡ false → (g == f) ≡ false
apart_flip f g h = ground (arith, Text_eq.beq_iff f g, Text_eq.beq_iff g f)

pub All-left {ℓ} : {A : Type 0} (P : A → Type ℓ) (xs ys : List A) → All P (xs ++ ys) → All P xs
All-left P [] ys h = tt
All-left P (x ∷ xs) ys h = (h.0, All-left P xs ys h.1)

pub All-right {ℓ} : {A : Type 0} (P : A → Type ℓ) (xs ys : List A) → All P (xs ++ ys) → All P ys
All-right P [] ys h = h
All-right P (x ∷ xs) ys h = All-right P xs ys h.1

pub All-insert {ℓ} :
    {A : Type 0} (P : A → Type ℓ) (xs ys : List A) (a : A)
    → P a
    → All P (xs ++ ys)
    → All P (xs ++ (a ∷ ys))
All-insert P [] ys a new h = (new, h)
All-insert P (x ∷ xs) ys a new h = (h.0, All-insert P xs ys a new h.1)

-- To put `a'` where `a` stands.
pub All-replace {ℓ} :
    {A : Type 0} (P : A → Type ℓ) (xs ys : List A) (a a' : A)
    → (P a → P a')
    → All P (xs ++ (a ∷ ys))
    → All P (xs ++ (a' ∷ ys))
All-replace P [] ys a a' f h = (f h.0, h.1)
All-replace P (x ∷ xs) ys a a' f h = (h.0, All-replace P xs ys a a' f h.1)

pub All-middle {ℓ} :
    {A : Type 0} (P : A → Type ℓ) (xs ys : List A) (a : A) → All P (xs ++ (a ∷ ys)) → P a
All-middle P [] ys a h = h.0
All-middle P (x ∷ xs) ys a h = All-middle P xs ys a h.1

-- A text that stands nowhere in a list may be put anywhere into it.
pub Distinct-insert :
    (f : Text) (xs ys : List Text)
    → Apart f (xs ++ ys)
    → Distinct (xs ++ ys)
    → Distinct (xs ++ (f ∷ ys))
Distinct-insert f [] ys a d = (a, d)
Distinct-insert f (x ∷ xs) ys a d =
    (All-insert _ xs ys f (apart_flip x f a.0) d.0, Distinct-insert f xs ys a.1 d.1)
