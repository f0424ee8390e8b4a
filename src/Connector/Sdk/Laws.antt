-- ===== src/Connector/Sdk/Laws.antt =====
-- What the loops of the `List` methods of pkg/connector build.
use baton_tenable_vm.Prelude.{Any, List, [], inl, inr, map, refl, string_eq, ℕ_eq, ℤ_eq, ◌∷◌, ◌≡◌}
use baton_tenable_vm.Client.Action.{ok, failed, Result}
use baton_tenable_vm.Connector.Sdk.{collect, joined}

-- The elements of two lists stand in the relation, in order, and the lists are equally long.
abbrev pub Pairs : {A B : Type 0} → (A → B → Type 0) → List A → List B → Type 0
Pairs R [] [] = Unit
Pairs R [] (y ∷ ys) = ⊥
Pairs R (x ∷ xs) [] = ⊥
Pairs R (x ∷ xs) (y ∷ ys) = R x y × Pairs R xs ys

pub Pairs-map :
    {A B C : Type 0} (seen : B → C) (meant : A → C) (xs : List A) (ys : List B)
    → Pairs (λ x y. seen y ≡ meant x) xs ys
    → map seen ys ≡ map meant xs
Pairs-map seen meant [] [] h = refl
Pairs-map seen meant [] (y ∷ ys) h = absurd h
Pairs-map seen meant (x ∷ xs) [] h = absurd h
Pairs-map seen meant (x ∷ xs) (y ∷ ys) h = rw (h.0, Pairs-map seen meant xs ys h.1) refl

module _ {A B : Type 0} (parse : A → Result B) (R : A → B → Type 0)
    (parsed : (x : A) (y : B) → parse x ≡ ok y → R x y) where
  -- Either every element is parsed, and the results stand in the relation to the elements, or the
  -- error is that of an element.
  abbrev pub Collected : List A → Result (List B) → Type 0
  Collected xs (ok ys) = Pairs R xs ys
  Collected xs (failed message) = Any (λ x. parse x ≡ failed message) xs

  joined-Collected :
      (x : A) (xs : List A) (r : Result B) (rest : Result (List B))
      → parse x ≡ r
      → Collected xs rest
      → Collected (x ∷ xs) (joined r rest)
  joined-Collected x xs (failed message) rest here h = inl here
  joined-Collected x xs (ok y) (failed message) here h = inr h
  joined-Collected x xs (ok y) (ok ys) here h = (parsed x y here, h)

  pub collect-Collected : (xs : List A) → Collected xs (collect parse xs)
  unfolding collect
  collect-Collected [] = tt
  collect-Collected (x ∷ xs) =
      joined-Collected x xs (parse x) (collect parse xs) refl (collect-Collected xs)
