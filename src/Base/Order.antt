-- ===== src/Base/Order.antt =====
-- Weak orders as Boolean tests: `ORDER BY … LIMIT 1`, and `sort.Slice` as an insertion sort.
use mathlib.Core.List.{Perm}
use mathlib.Core.List.Perm
use mathlib.Core.Path.{◌≡◌, refl, sym, subst}
use mathlib.Core.Logic.{◌⊎◌, inl, inr}
use mathlib.Core.Bool.{Bool, true, false, not, ◌&&◌, ◌||◌}
use mathlib.Core.Option.{Option, none, some}
use mathlib.Core.List.{List, [], ◌∷◌, Memᴰ}
use native.Mathlib.Omega.{arith}
use partforge.Base.Tests.{ltb, if◌then◌else◌, Bool-cases, Option-cases}
use partforge.Base.Lists.{All, All-map, any}
use partforge.Base.Strings.{Text, text_lt}

pub record WeakOrder {ℓ} {A : Type ℓ} (lt : A → A → Bool) : Type ℓ where
  pub asym : (a b : A) → lt a b ≡ true → lt b a ≡ false
  pub neg_trans : (a b c : A) → lt a b ≡ false → lt b c ≡ false → lt a c ≡ false

pub ltb-WeakOrder : WeakOrder ltb
ltb-WeakOrder = record { asym = λ a b h. ground arith; neg_trans = λ a b c h k. ground arith }

text_lt-asym : (s t : Text) → text_lt s t ≡ true → text_lt t s ≡ false
unfolding text_lt
text_lt-asym [] [] h = cc
text_lt-asym [] (_ ∷ _) h = refl
text_lt-asym (_ ∷ _) [] h = cc
text_lt-asym (a ∷ s) (b ∷ t) h = ground (arith, text_lt-asym s t)

text_lt-neg_trans : (s t u : Text) → text_lt s t ≡ false → text_lt t u ≡ false → text_lt s u ≡ false
unfolding text_lt
text_lt-neg_trans s t [] h k = refl
text_lt-neg_trans [] [] (_ ∷ _) h k = cc
text_lt-neg_trans (_ ∷ _) [] (_ ∷ _) h k = cc
text_lt-neg_trans [] (_ ∷ _) (_ ∷ _) h k = cc
text_lt-neg_trans (a ∷ s) (b ∷ t) (c ∷ u) h k = ground (arith, text_lt-neg_trans s t u)

pub text_lt-WeakOrder : WeakOrder text_lt
text_lt-WeakOrder = record { asym = text_lt-asym; neg_trans = text_lt-neg_trans }

module _ {ℓ} {A : Type ℓ} where
  -- First by one order, then by another.
  abbrev pub then_by : (A → A → Bool) → (A → A → Bool) → A → A → Bool
  then_by first second a b = first a b || (not (first b a) && second a b)

  pub then_by-WeakOrder :
      {first second : A → A → Bool}
      → WeakOrder first
      → WeakOrder second
      → WeakOrder (then_by first second)
  then_by-WeakOrder {first} {second} f s = record {
    asym = λ a b h. ground (arith, f.asym a b, f.asym b a, s.asym a b);
    neg_trans = λ a b c h k. ground (
      arith,
      f.neg_trans a b c,
      f.neg_trans c b a,
      f.neg_trans b c a,
      f.neg_trans b a c,
      f.neg_trans c a b,
      f.neg_trans a c b,
      f.asym a b,
      f.asym b a,
      f.asym b c,
      f.asym c b,
      f.asym a c,
      f.asym c a,
      s.neg_trans a b c,
    );
  }

  pub reversed-WeakOrder : {lt : A → A → Bool} → WeakOrder lt → WeakOrder (λ a b. lt b a)
  reversed-WeakOrder w = record {
    asym = λ a b h. w.asym b a h;
    neg_trans = λ a b c h k. w.neg_trans c b a k h;
  }

  pub keyed-WeakOrder {κ} :
      {B : Type κ} {lt : A → A → Bool} (key : B → A)
      → WeakOrder lt
      → WeakOrder (λ a b. lt (key a) (key b))
  keyed-WeakOrder key w = record {
    asym = λ a b h. w.asym (key a) (key b) h;
    neg_trans = λ a b c h k. w.neg_trans (key a) (key b) (key c) h k;
  }

module _ {ℓ} {A : Type ℓ} (lt : A → A → Bool) where
  -- `ORDER BY … LIMIT 1` over the rows that a filter admits.
  unfoldable pub first_where : (A → Bool) → List A → Option A
  first_where p [] = none
  first_where p (a ∷ l) = elim (first_where p l) [
    | none ↦ if p a then some a else none
    | some b ↦ if p a && not (lt b a) then some a else some b
  ]

  -- Nothing is found only when the filter admits nothing.
  pub first_where-eq-none :
      (p : A → Bool) (l : List A) → first_where p l ≡ none → All (λ a. p a ≡ false) l
  unfolding first_where
  first_where-eq-none p [] h = tt
  first_where-eq-none p (a ∷ l) h = elim (Option-cases (first_where p l)) [
    | inl e ↦ (ground arith, first_where-eq-none p l e)
    | inr (b, e) ↦ absurd (ground arith)
  ]

  -- Something is found exactly when the filter admits something.
  pub first_where-any :
      (p : A → Bool) (l : List A)
      → ((first_where p l ≡ none) × (any p l ≡ false))
        ⊎ ((a : A) × (first_where p l ≡ some a) × (any p l ≡ true))
  unfolding first_where
  first_where-any p [] = inl (refl, refl)
  first_where-any p (a ∷ l) = elim (first_where-any p l) [
    | inl (e, f) ↦ elim (Bool-cases (p a)) [
      | inl g ↦ inr (a, rw (e, g) refl, rw g refl)
      | inr g ↦ inl (rw (e, g) refl, rw (g, f) refl)
    ]
    | inr (b, e, f) ↦ elim (Bool-cases (p a && not (lt b a))) [
      | inl g ↦ inr (a, rw (e, g) refl, ground arith)
      | inr g ↦ inr (b, rw (e, g) refl, ground arith)
    ]
  ]

  -- What is found is admitted, and no admitted element comes before it.
  pub first_where-eq-some :
      WeakOrder lt
      → (p : A → Bool) (l : List A) (b : A) → first_where p l ≡ some b
      → (p b ≡ true) × Memᴰ b l × All (λ a. p a ≡ true → lt a b ≡ false) l
  unfolding first_where
  first_where-eq-some w p [] b h = absurd (ground arith)
  first_where-eq-some w p (a ∷ l) b h = elim (Option-cases (first_where p l)) [
    | inl e ↦
        let same : a ≡ b = ground arith in
        (
          ground arith,
          Memᴰ.head (sym same),
          (
            λ _. ground (arith, w.asym a a),
            All-map l (λ x no_match yes_match. absurd (ground arith)) (first_where-eq-none p l e),
          ),
        )
    | inr (c, e) ↦
        let (ok_c, in_l, least) = first_where-eq-some w p l c e in
        elim (Bool-cases (p a && not (lt c a))) [
          | inl new ↦
              let same : a ≡ b = ground arith in
              (
                ground arith,
                Memᴰ.head (sym same),
                (
                  λ _. ground (arith, w.asym a a),
                  All-map l
                      (λ x no_before admitted.
                        ground (arith, no_before admitted, w.neg_trans x c a))
                      least,
                ),
              )
          | inr old ↦
              let same : c ≡ b = ground arith in
              (
                ground arith,
                Memᴰ.tail (subst (λ x. Memᴰ x l) same in_l),
                (
                  λ admitted. ground (arith, w.asym c a),
                  All-map l (λ x no_before admitted. ground (arith, no_before admitted)) least,
                ),
              )
        ]
  ]

-- `sort.Slice`: insertion keeps the elements, and puts none behind one that it precedes.
module _ {ℓ} {A : Type ℓ} (lt : A → A → Bool) where
  insert_sorted : A → List A → List A
  insert_sorted a [] = a ∷ []
  insert_sorted a (b ∷ l) = let rest = b ∷ insert_sorted a l in if lt b a then rest else a ∷ b ∷ l

  unfoldable pub sort_slice : List A → List A
  unfolding insert_sorted
  sort_slice [] = []
  sort_slice (a ∷ l) = insert_sorted a (sort_slice l)

  insert_sorted-perm : (a : A) (l : List A) → Perm (insert_sorted a l) (a ∷ l)
  unfolding insert_sorted
  insert_sorted-perm a [] = Perm.refl _
  insert_sorted-perm a (b ∷ l) = elim (Bool-cases (lt b a)) [
    | inl e ↦ rw e (Perm.trans (Perm.cons b (insert_sorted-perm a l)) (Perm.swap a b l))
    | inr e ↦ rw e (Perm.refl _)
  ]

  pub sort_slice-perm : (l : List A) → Perm (sort_slice l) l
  unfolding sort_slice
  sort_slice-perm [] = Perm.refl _
  sort_slice-perm (a ∷ l) =
      Perm.trans (insert_sorted-perm a (sort_slice l)) (Perm.cons a (sort_slice-perm l))

  insert_sorted-All {κ} :
      (P : A → Type κ) (a : A) (l : List A) → P a → All P l → All P (insert_sorted a l)
  unfolding insert_sorted
  insert_sorted-All P a [] h hs = (h, tt)
  insert_sorted-All P a (b ∷ l) h (k, ks) = elim (Bool-cases (lt b a)) [
    | inl e ↦ rw e (k, insert_sorted-All P a l h ks)
    | inr e ↦ rw e (h, (k, ks))
  ]

  pub sort_slice-All {κ} : (P : A → Type κ) (l : List A) → All P l → All P (sort_slice l)
  unfolding sort_slice
  sort_slice-All P [] h = tt
  sort_slice-All P (a ∷ l) (h, hs) = insert_sorted-All P a (sort_slice l) h (sort_slice-All P l hs)

  insert_sorted-All_inv {κ} :
      (P : A → Type κ) (a : A) (l : List A) → All P (insert_sorted a l) → P a × All P l
  unfolding insert_sorted
  insert_sorted-All_inv P a [] h = h
  insert_sorted-All_inv P a (b ∷ l) h = elim (Bool-cases (lt b a)) [
    | inl e ↦
        let (pb, rest) : P b × All P (insert_sorted a l) = rw e at h in
        let (pa, pl) = insert_sorted-All_inv P a l rest in (pa, (pb, pl))
    | inr e ↦ rw e at h
  ]

  pub sort_slice-All_inv {κ} : (P : A → Type κ) (l : List A) → All P (sort_slice l) → All P l
  unfolding sort_slice
  sort_slice-All_inv P [] h = tt
  sort_slice-All_inv P (a ∷ l) h =
      let (p, rest) = insert_sorted-All_inv P a (sort_slice l) h in (p, sort_slice-All_inv P l rest)
