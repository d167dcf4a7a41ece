-- ===== src/Prelude/Equality.antt =====
-- Python's `==` on keys, as an interface with the law that it decides equality.
use text.Mathlib.Text.{◌==◌ as text_beq}
use text.Mathlib.TextEquality.{eq_iff}
use mathlib.Core.List.{reverse-cons}
use kaos_agents.Prelude.{
  ◌++◌, reverse, filter, ◌&&◌, ap, Bool-cases, inl, inr, arith, ℕ, ◌≡◌, ◌↔◌, if◌then◌else◌, Bool,
  true, false, ◌||◌, List, [], ◌∷◌, String, ◌==◌ as nat_beq, ==_iff, refl,
}

pub record Key {ℓ} (K : Type ℓ) : Type ℓ where
  pub equal : K → K → Bool
  pub equal_iff : (j k : K) → (equal j k ≡ true) ↔ (j ≡ k)

-- The test of an enumeration, from its decided equality.
abbrev pub test {ℓ} : {A : Type ℓ} → Discrete A → A → A → Bool
test d a b = elim (d a b) [ yes _ ↦ true | no _ ↦ false ]

pub test_iff {ℓ} : {A : Type ℓ} (d : Discrete A) (a b : A) → (test d a b ≡ true) ↔ (a ≡ b)
test_iff d a b = go (d a b) refl
  where
    go : (r : Dec (a ≡ b)) → d a b ≡ r → (test d a b ≡ true) ↔ (a ≡ b)
    go (yes p) e = rw (e, test) ((λ _. p), (λ _. refl))
    go (no p) e = rw (e, test) ((λ h. cc), (λ q. absurd (p q)))

infix 50 ◌==◌
abbrev pub ◌==◌ {ℓ} : {K : Type ℓ} ⦃key : Key K⦄ → K → K → Bool
◌==◌ ⦃key⦄ j k = key.equal j k

-- Keys that are texts or numbers.
instance abbrev pub string_key : Key String
string_key = record { equal = text_beq; equal_iff = eq_iff }

instance abbrev pub nat_key : Key ℕ
nat_key = record { equal = nat_beq; equal_iff = ==_iff }

-- `x in xs`.
unfoldable pub contains {ℓ} : {A : Type ℓ} ⦃key : Key A⦄ → List A → A → Bool
contains [] a = false
contains (x ∷ xs) a = x == a || contains xs a

module _ {ℓ} {A : Type ℓ} ⦃key : Key A⦄ where
  pub contains-append :
      (xs ys : List A) (a : A) → contains (xs ++ ys) a ≡ (contains xs a || contains ys a)
  unfolding contains
  contains-append [] ys a = refl
  contains-append (x ∷ xs) ys a = ground (arith, contains-append xs ys a)

  pub contains-reverse : (xs : List A) (a : A) → contains (reverse xs) a ≡ contains xs a
  unfolding contains
  contains-reverse [] a = refl
  contains-reverse (x ∷ xs) a =
      rw (reverse-cons, contains-append) (ground (arith, contains-reverse xs a))

  pub contains-filter :
      (p : A → Bool) (xs : List A) (a : A) → contains (filter p xs) a ≡ (p a && contains xs a)
  unfolding contains filter
  contains-filter p [] a = ground arith
  contains-filter p (x ∷ xs) a = elim (Bool-cases (x == a)) [
    | inl same ↦
        let q : x ≡ a = (key.equal_iff x a).0 same in ground (arith, contains-filter p xs a, ap p q)
    | inr other ↦ ground (arith, contains-filter p xs a)
  ]

  -- A Python set, as a list in which nothing stands twice.
  unfoldable pub to_set : List A → List A
  to_set [] = []
  to_set (x ∷ xs) = let rest = to_set xs in if contains rest x then rest else x ∷ rest

  contains_eq : (xs : List A) (x a : A) → (x == a) ≡ true → contains xs x ≡ contains xs a
  contains_eq xs x a h = ap (λ y. contains xs y) ((key.equal_iff x a).0 h)

  pub contains-to_set : (xs : List A) (a : A) → contains (to_set xs) a ≡ contains xs a
  unfolding to_set contains
  contains-to_set [] a = refl
  contains-to_set (x ∷ xs) a =
      ground (arith, contains-to_set xs a, contains-to_set xs x, contains_eq xs x a)
