-- ===== src/Worklist/Correct.antt =====
-- The loop ends, and its outcome tells what can be reached.
use sigil_lang.Prelude.{
  ℕ, zero, suc, ◌+◌, ◌≤◌, ◌≡◌, refl, ◌≢◌, inl, inr, Bool, true, false, ◌||◌, List, [], ◌∷◌, arith,
  Eq, ◌==◌, eq_iff, contains, length, Map, lookup, Bool-cases, ||-true, eq_refl,
}
use mathlib.Core.Path.{subst}
use sigil_lang.Worklist.{
  Outcome, exhausted, found, out_of_fuel, push_all, run, Reach, root, step, successors, weight,
}

||-nil : (b : Bool) → (b || false) ≡ true → b ≡ true
||-nil b h = ground arith

module _ {ℓ} {K : Type ℓ} ⦃e : Eq K⦄ where
  length-push_all : (xs s : List K) → length (push_all xs s) ≡ length xs + length s
  unfolding push_all
  length-push_all [] s = omega arith
  length-push_all (x ∷ xs) s = omega (arith, length-push_all xs (x ∷ s))

  contains-push_all :
      (xs s : List K) (y : K) → contains (push_all xs s) y ≡ (contains xs y || contains s y)
  unfolding push_all contains
  contains-push_all [] s y = refl
  contains-push_all (x ∷ xs) s y = ground (arith, contains-push_all xs (x ∷ s) y)

  weight-cons-le : (adj : Map K (List K)) (v : List K) (x : K) → weight adj (x ∷ v) ≤ weight adj v
  unfolding weight contains
  weight-cons-le [] v x = omega arith
  weight-cons-le ((k, ys) ∷ adj) v x = ground (arith, weight-cons-le adj v x)

  contains-head : (x : K) (s : List K) → contains (x ∷ s) x ≡ true
  unfolding contains
  contains-head x s = rw (eq_refl x)

  -- Visiting a key pays for its successors.
  pub weight_pays :
      (adj : Map K (List K)) (v : List K) (x : K)
      → contains v x ≡ false
      → weight adj (x ∷ v) + length (successors adj x) ≤ weight adj v
  unfolding weight successors lookup contains
  weight_pays [] v x h = omega arith
  weight_pays ((k, ys) ∷ adj) v x h =
      ground (arith, weight_pays adj v x, weight-cons-le adj v x, eq_iff k x, eq_iff x k)

  module _ (next : K → List K) (bad : K → Bool) where
    -- The edges out of visited keys that are not bad lead to visited or pending keys.
    record Inv (roots stack visited : List K) : Type ℓ where
      reached : (x : K) → contains visited x ≡ true → Reach next roots x
      pending : (x : K) → contains stack x ≡ true → Reach next roots x
      good : (x : K) → contains visited x ≡ true → bad x ≡ false
      rooted : (x : K) → contains roots x ≡ true → (contains visited x || contains stack x) ≡ true
      closed :
          (x y : K)
          → contains visited x ≡ true
          → contains (next x) y ≡ true
          → (contains visited y || contains stack y) ≡ true

    -- What an outcome says.
    abbrev pub Ensures : List K → Outcome K → Type ℓ
    Ensures roots (exhausted v) =
        ((x : K) → contains v x ≡ true → Reach next roots x)
        × ((x : K) → Reach next roots x → contains v x ≡ true)
        × ((x : K) → contains v x ≡ true → bad x ≡ false)
    Ensures roots (found x) = Reach next roots x × (bad x ≡ true)
    Ensures roots out_of_fuel = Unit

    Inv-complete :
        {roots v : List K} → Inv roots [] v → {x : K} → Reach next roots x → contains v x ≡ true
    unfolding contains
    Inv-complete i (root {x} h) = ||-nil _ (i.rooted x h)
    Inv-complete i (step {x} {y} r h) = ||-nil _ (i.closed x y (Inv-complete i r) h)

    Inv-skip :
        (roots stack v : List K) (x : K)
        → contains v x ≡ true
        → Inv roots (x ∷ stack) v
        → Inv roots stack v
    unfolding contains
    Inv-skip roots stack v x h i = record {
      reached = i.reached;
      pending = λ y p. i.pending y (ground (arith, p));
      good = i.good;
      rooted = λ y p. ground (arith, i.rooted y p, eq_iff x y);
      closed = λ y z p q. ground (arith, i.closed y z p q, eq_iff x z);
    }

    Inv-visit :
        (roots stack v : List K) (x : K)
        → bad x ≡ false
        → Inv roots (x ∷ stack) v
        → Inv roots (push_all (next x) stack) (x ∷ v)
    unfolding contains
    Inv-visit roots stack v x b i =
        let here = i.pending x (contains-head x stack) in
        record {
          reached = λ y p. elim (||-true (x == y) (contains v y) p) [
            | inl same ↦ subst (Reach next roots) ((eq_iff x y).0 same) here
            | inr old ↦ i.reached y old
          ];
          pending = λ y p.
              elim (||-true (contains (next x) y) (contains stack y)
                (rw (contains-push_all (next x) stack y) at p)) [
                  | inl new ↦ step here new
                  | inr old ↦ i.pending y (ground (arith, old))
                ];
          good = λ y p. ground (arith, i.good y, eq_iff x y);
          rooted = λ y p. ground (arith, i.rooted y p, contains-push_all (next x) stack y);
          closed = λ y z p q.
              ground (arith, i.closed y z, eq_iff x y, contains-push_all (next x) stack z);
        }

    run-Ensures :
        (roots : List K) (fuel : ℕ) (stack v : List K)
        → Inv roots stack v
        → Ensures roots (run next bad fuel stack v)
    unfolding run
    run-Ensures roots zero [] v i = (i.reached, λ x r. Inv-complete i r, i.good)
    run-Ensures roots (suc fuel) [] v i = (i.reached, λ x r. Inv-complete i r, i.good)
    run-Ensures roots zero (x ∷ stack) v i = tt
    run-Ensures roots (suc fuel) (x ∷ stack) v i = elim (Bool-cases (contains v x)) [
      | inl old ↦ rw (old, run) (run-Ensures roots fuel stack v (Inv-skip roots stack v x old i))
      | inr new ↦ elim (Bool-cases (bad x)) [
        | inl b ↦ rw (new, b, run) (i.pending x (contains-head x stack), b)
        | inr b ↦
            rw (new, b, run)
              (run-Ensures roots fuel (push_all (next x) stack) (x ∷ v)
                (Inv-visit roots stack v x b i))
      ]
    ]

    -- From nothing visited.
    Inv-start : (roots : List K) → Inv roots roots []
    unfolding contains
    Inv-start roots = record {
      reached = λ x h. absurd (cc);
      pending = λ x h. root h;
      good = λ x h. cc;
      rooted = λ x h. h;
      closed = λ x y h. absurd (cc);
    }

    -- From nothing visited, with the roots pushed one by one.
    Inv-pushed : (roots : List K) → Inv roots (push_all roots []) []
    unfolding contains
    Inv-pushed roots = record {
      reached = λ x h. absurd (cc);
      pending = λ x h. root (||-nil _ (rw (contains-push_all roots [] x) at h));
      good = λ x h. cc;
      rooted = λ x h. rw (contains-push_all roots [] x) (rw h);
      closed = λ x y h. absurd (cc);
    }

    pub run_pushed :
        (roots : List K) (fuel : ℕ) → Ensures roots (run next bad fuel (push_all roots []) [])
    run_pushed roots fuel = run-Ensures roots fuel (push_all roots []) [] (Inv-pushed roots)

    -- Whatever the fuel: an exhausted search has visited exactly what can be reached, and it is not
    -- bad; what is found is bad, and can be reached.
    pub run_correct : (roots : List K) (fuel : ℕ) → Ensures roots (run next bad fuel roots [])
    run_correct roots fuel = run-Ensures roots fuel roots [] (Inv-start roots)

    -- With a weight that pays for the successors of what is visited, the fuel does not run out.
    pub run_ends :
        (w : List K → ℕ)
        → ((v : List K) (x : K) → contains v x ≡ false → w (x ∷ v) + length (next x) ≤ w v)
        → (fuel : ℕ) (stack v : List K) → length stack + w v ≤ fuel
        → run next bad fuel stack v ≢ out_of_fuel
    unfolding run
    run_ends w pays zero [] v h e = cc
    run_ends w pays (suc fuel) [] v h e = cc
    run_ends w pays zero (x ∷ stack) v h e = absurd (omega arith)
    run_ends w pays (suc fuel) (x ∷ stack) v h e = ground (
      arith,
      pays v x,
      run_ends w pays fuel stack v,
      run_ends w pays fuel (push_all (next x) stack) (x ∷ v),
      length-push_all (next x) stack,
    )
