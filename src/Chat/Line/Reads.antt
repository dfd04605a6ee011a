-- ===== src/Chat/Line/Reads.antt =====
-- What the entries of argv read in the receive buffer.
use modem_modules.Base.{
  ℕ, suc, ◌+◌, ◌≤◌, ◌<◌, ◌≡◌, ◌≢◌, refl, sym, ap, ◌∙◌, ◌⊎◌, inl, inr, false, List, [], ◌∷◌, ◌++◌,
  arith, ◌==◌, length, drop, set, All, length-append,
}
use mathlib.Core.Path.{subst}
use modem_modules.Chat.{Argument, empty_text, text_at}
use modem_modules.Chat.Parse.{text_of, read_argument, read_arguments}
use modem_modules.Chat.Line.Spans.{Spans, Spans-set, drop_get}

abbrev pub NoZero : List ℕ → Type 0
NoZero xs = All (λ b. b ≢ 0) xs

-- A text with its terminator is what a reader finds.
text_of-Spans :
    (buf : List ℕ) (i : ℕ) (xs : List ℕ)
    → NoZero xs
    → Spans buf i (xs ++ (0 ∷ []))
    → text_of (drop i buf) ≡ xs
text_of-Spans buf i [] z v = rw (drop_get buf i 0 v.0) refl
text_of-Spans buf i (x ∷ xs) z v =
    let other : (x == 0) ≡ false = ground (arith, z.0) in
    let next : i + 1 ≡ suc i = omega arith in
    rw (drop_get buf i x v.0, other)
      (ap (λ t. x ∷ t)
        (text_of-Spans buf (suc i) xs z.1 (subst (λ j. Spans buf j (xs ++ (0 ∷ []))) next v.1)))

-- Entry by entry, what argv reads. Each entry ends before `start` or stands from `high` on, so that
-- bytes written between the two leave it as it is.
abbrev pub Reads : List ℕ → ℕ → ℕ → Argument → List ℕ → Type 0
Reads buf start high empty_text xs = xs ≡ []
Reads buf start high (text_at i) xs =
    Spans buf i (xs ++ (0 ∷ [])) × NoZero xs × ((i + length xs < start) ⊎ (high ≤ i))

abbrev pub Holds : List ℕ → ℕ → ℕ → List Argument → List (List ℕ) → Type 0
Holds buf start high [] [] = Unit {0}
Holds buf start high [] (x ∷ xs) = ⊥
Holds buf start high (a ∷ as') [] = ⊥
Holds buf start high (a ∷ as') (x ∷ xs) = Reads buf start high a x × Holds buf start high as' xs

module _ (buf : List ℕ) (start high : ℕ) where
  Reads-set :
      (a : Argument) (xs : List ℕ) (k b : ℕ)
      → start ≤ k
      → k < high
      → Reads buf start high a xs
      → Reads (set buf k b) start high a xs
  Reads-set empty_text xs k b from below v = v
  Reads-set (text_at i) xs k b from below v =
      (Spans-set buf i (xs ++ (0 ∷ [])) k b (apart v.2) v.0, v.1, v.2)
    where
      apart : (i + length xs < start) ⊎ (high ≤ i) → (k < i) ⊎ (i + length (xs ++ (0 ∷ [])) ≤ k)
      apart (inl lt) = inr (omega (arith, lt, from, length-append xs (0 ∷ [])))
      apart (inr ge) = inl (omega (arith, ge, below))

  pub Holds-set :
      (as' : List Argument) (xs : List (List ℕ)) (k b : ℕ)
      → start ≤ k
      → k < high
      → Holds buf start high as' xs
      → Holds (set buf k b) start high as' xs
  Holds-set [] [] k b from below v = tt
  Holds-set [] (x ∷ xs) k b from below v = v
  Holds-set (a ∷ as') [] k b from below v = v
  Holds-set (a ∷ as') (x ∷ xs) k b from below v =
      (Reads-set a x k b from below v.0, Holds-set as' xs k b from below v.1)

  Reads-grow :
      (a : Argument) (xs : List ℕ) (next : ℕ)
      → start ≤ next
      → Reads buf start high a xs
      → Reads buf next high a xs
  Reads-grow empty_text xs next more v = v
  Reads-grow (text_at i) xs next more v = (v.0, v.1, later v.2)
    where
      later : (i + length xs < start) ⊎ (high ≤ i) → (i + length xs < next) ⊎ (high ≤ i)
      later (inl lt) = inl (omega (arith, lt, more))
      later (inr ge) = inr ge

  pub Holds-grow :
      (as' : List Argument) (xs : List (List ℕ)) (next : ℕ)
      → start ≤ next
      → Holds buf start high as' xs
      → Holds buf next high as' xs
  Holds-grow [] [] next more v = tt
  Holds-grow [] (x ∷ xs) next more v = v
  Holds-grow (a ∷ as') [] next more v = v
  Holds-grow (a ∷ as') (x ∷ xs) next more v =
      (Reads-grow a x next more v.0, Holds-grow as' xs next more v.1)

  pub Holds-append :
      (as' : List Argument) (xs : List (List ℕ)) (a : Argument) (x : List ℕ)
      → Holds buf start high as' xs
      → Reads buf start high a x
      → Holds buf start high (as' ++ (a ∷ [])) (xs ++ (x ∷ []))
  Holds-append [] [] a x v w = (w, tt)
  Holds-append [] (y ∷ ys) a x v w = absurd v
  Holds-append (b ∷ as') [] a x v w = absurd v
  Holds-append (b ∷ as') (y ∷ ys) a x v w = (v.0, Holds-append as' ys a x v.1 w)

  pub Holds-length :
      (as' : List Argument) (xs : List (List ℕ))
      → Holds buf start high as' xs
      → length as' ≡ length xs
  Holds-length [] [] v = refl
  Holds-length [] (y ∷ ys) v = absurd v
  Holds-length (b ∷ as') [] v = absurd v
  Holds-length (b ∷ as') (y ∷ ys) v = ap suc (Holds-length as' ys v.1)

  Reads-read : (a : Argument) (xs : List ℕ) → Reads buf start high a xs → read_argument buf a ≡ xs
  Reads-read empty_text xs v = sym v
  Reads-read (text_at i) xs v = text_of-Spans buf i xs v.1 v.0

  -- What the callback reads.
  pub Holds-read :
      (as' : List Argument) (xs : List (List ℕ))
      → Holds buf start high as' xs
      → read_arguments buf as' ≡ xs
  Holds-read [] [] v = refl
  Holds-read [] (y ∷ ys) v = absurd v
  Holds-read (b ∷ as') [] v = absurd v
  Holds-read (b ∷ as') (y ∷ ys) v =
      ap (λ z. z ∷ read_arguments buf as') (Reads-read b y v.0)
      ∙ ap (λ zs. y ∷ zs) (Holds-read as' ys v.1)
