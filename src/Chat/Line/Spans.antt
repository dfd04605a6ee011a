-- ===== src/Chat/Line/Spans.antt =====
-- Where texts stand in the receive buffer.
use modem_modules.Base.{
  ℕ, zero, suc, ◌+◌, ◌≤◌, ◌<◌, ◌≡◌, refl, ap, ◌∙◌, ◌⊎◌, inl, inr, Option, none, some, List, [], ◌∷◌,
  ◌++◌, arith, length, drop, set, get_elem?, length-append, length-take, take, append_assoc,
  get_elem?-set_ne, get_elem?-set_self,
}
use mathlib.Core.Path.{subst}
use modem_modules.Chat.Parse.{copy_to}

-- The bytes `xs` stand in the buffer from `i` on.
abbrev pub Spans : List ℕ → ℕ → List ℕ → Type 0
Spans buf i [] = Unit
Spans buf i (x ∷ xs) = (get_elem? buf i ≡ some x) × Spans buf (i + 1) xs

pub Spans-set :
    (buf : List ℕ) (i : ℕ) (xs : List ℕ) (k b : ℕ)
    → (k < i) ⊎ (i + length xs ≤ k)
    → Spans buf i xs
    → Spans (set buf k b) i xs
Spans-set buf i [] k b apart v = tt
Spans-set buf i (x ∷ xs) k b (inl lt) v = (
  get_elem?-set_ne buf k i b (λ e. omega (arith, lt, e)) ∙ v.0,
  Spans-set buf (i + 1) xs k b (inl (omega (arith, lt))) v.1,
)
Spans-set buf i (x ∷ xs) k b (inr ge) v = (
  get_elem?-set_ne buf k i b (λ e. omega (arith, ge, e)) ∙ v.0,
  Spans-set buf (i + 1) xs k b (inr (omega (arith, ge))) v.1,
)

pub Spans-append :
    (buf : List ℕ) (i : ℕ) (xs ys : List ℕ)
    → Spans buf i xs
    → Spans buf (i + length xs) ys
    → Spans buf i (xs ++ ys)
Spans-append buf i [] ys v w = let e : i + 0 ≡ i = omega arith in subst (λ j. Spans buf j ys) e w
Spans-append buf i (x ∷ xs) ys v w =
    let e : i + suc (length xs) ≡ i + 1 + length xs = omega arith in
    (v.0, Spans-append buf (i + 1) xs ys v.1 (subst (λ j. Spans buf j ys) e w))

-- A byte behind a text makes it longer.
pub Spans-extend :
    (buf : List ℕ) (i : ℕ) (xs : List ℕ) (k b : ℕ)
    → Spans buf i xs
    → k ≡ i + length xs
    → k < length buf
    → Spans (set buf k b) i (xs ++ (b ∷ []))
Spans-extend buf i xs k b v e lt =
    Spans-append (set buf k b) i xs (b ∷ []) (Spans-set buf i xs k b (inr (omega (arith, e))) v)
      (subst (λ j. get_elem? (set buf k b) j ≡ some b) e (get_elem?-set_self buf k b lt), tt)

abbrev pub from_some : ℕ → Option ℕ → ℕ
from_some z none = z
from_some z (some w) = w

pub drop_get :
    (buf : List ℕ) (i x : ℕ) → get_elem? buf i ≡ some x → drop i buf ≡ x ∷ drop (suc i) buf
drop_get [] i x e = absurd (ground (arith, e))
drop_get (y ∷ buf) zero x e = ap (λ o. from_some y o ∷ buf) e
drop_get (y ∷ buf) (suc i) x e = drop_get buf i x e

pub get_elem?-drop : (xs : List ℕ) (j i : ℕ) → get_elem? (drop j xs) i ≡ get_elem? xs (j + i)
get_elem?-drop xs zero i = let e : 0 + i ≡ i = omega arith in rw e refl
get_elem?-drop [] (suc j) i = refl
get_elem?-drop (x ∷ xs) (suc j) i =
    let e : suc j + i ≡ suc (j + i) = omega arith in rw e (get_elem?-drop xs j i)

pub get_elem?-take : (xs : List ℕ) (n i : ℕ) → i < n → get_elem? (take n xs) i ≡ get_elem? xs i
get_elem?-take xs zero i lt = absurd (omega (arith, lt))
get_elem?-take [] (suc n) i lt = refl
get_elem?-take (x ∷ xs) (suc n) zero lt = refl
get_elem?-take (x ∷ xs) (suc n) (suc i) lt = get_elem?-take xs n i (omega (arith, lt))

get_elem?-middle :
    (zs : List ℕ) (x : ℕ) (ys : List ℕ) → get_elem? (zs ++ (x ∷ ys)) (length zs) ≡ some x
get_elem?-middle [] x ys = refl
get_elem?-middle (z ∷ zs) x ys = get_elem?-middle zs x ys

get_elem?-append_left :
    (xs ys : List ℕ) (i : ℕ) → i < length xs → get_elem? (xs ++ ys) i ≡ get_elem? xs i
get_elem?-append_left [] ys i lt = absurd (omega (arith, lt))
get_elem?-append_left (x ∷ xs) ys zero lt = refl
get_elem?-append_left (x ∷ xs) ys (suc i) lt = get_elem?-append_left xs ys i (omega (arith, lt))

Spans-self : (xs ys zs : List ℕ) → Spans (zs ++ (xs ++ ys)) (length zs) xs
Spans-self [] ys zs = tt
Spans-self (x ∷ xs) ys zs =
    let one : List ℕ = x ∷ [] in
    let longer : length (zs ++ one) ≡ length zs + 1 = length-append zs one in
    (
      get_elem?-middle zs x (xs ++ ys),
      subst (λ j. Spans (zs ++ (x ∷ xs ++ ys)) j xs) longer
          (subst (λ l. Spans l (length (zs ++ one)) xs) (append_assoc zs one (xs ++ ys))
            (Spans-self xs ys (zs ++ one))),
    )

-- A copy of a text, and what stands before it.
pub copy_to-Spans : (i : ℕ) (xs buf : List ℕ) → i ≤ length buf → Spans (copy_to i xs buf) i xs
copy_to-Spans i xs buf h =
    let e : length (take i buf) ≡ i = omega (arith, h, length-take i buf) in
    subst (λ j. Spans (copy_to i xs buf) j xs) e
      (Spans-self xs (drop (i + length xs) buf) (take i buf))

pub get_elem?-copy_to :
    (i : ℕ) (xs buf : List ℕ) (k : ℕ)
    → i ≤ length buf
    → k < i
    → get_elem? (copy_to i xs buf) k ≡ get_elem? buf k
get_elem?-copy_to i xs buf k h lt =
    get_elem?-append_left (take i buf) (xs ++ drop (i + length xs) buf) k
      (omega (arith, h, lt, length-take i buf))
    ∙ get_elem?-take buf i k lt

pub Spans-take :
    (buf : List ℕ) (i : ℕ) (xs : List ℕ) → Spans buf i xs → take (length xs) (drop i buf) ≡ xs
Spans-take buf i [] v = refl
Spans-take buf i (x ∷ xs) v =
    let next : i + 1 ≡ suc i = omega arith in
    rw (drop_get buf i x v.0)
      (ap (λ t. x ∷ t) (Spans-take buf (suc i) xs (subst (λ j. Spans buf j xs) next v.1)))
