-- ===== src/Prelude/Maps.antt =====
-- Go maps as functions from keys, and memory as a function from addresses.
use mathlib.Core.Path.{◌≡◌}
use baton_tenable_vm.Prelude.Tests.{Eq, ◌==◌, if◌then◌else◌, beq_refl, ne→beq}

module _ {ℓ} {K : Type 0} {V : Type ℓ} ⦃e : Eq K⦄ where
  -- `m[k] = v`, and a write through the pointer `k`
  unfoldable pub put : (K → V) → K → V → K → V
  put m k v j = if k == j then v else m j

  pub put_self : (m : K → V) (k : K) (v : V) → put m k v k ≡ v
  unfolding put
  put_self m k v = rw (beq_refl k)

  pub put_ne : (m : K → V) (k j : K) (v : V) → (k ≡ j → ⊥) → put m k v j ≡ m j
  unfolding put
  put_ne m k j v h = rw (ne→beq k j h)
