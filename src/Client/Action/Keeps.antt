-- ===== src/Client/Action/Keeps.antt =====
-- A property of the world that an action keeps, whether it succeeds or fails.
use baton_tenable_vm.Prelude.{Bool, String, false, if◌then◌else◌, string_eq, true, ℕ_eq, ℤ_eq}
use baton_tenable_vm.Client.Action.{Result, ok, failed, ◌>>=◌, Action, context}

module _ {W : Type 0} (P : W → Type 0) where
  abbrev pub Keeps : {A : Type 0} → Action W A → Type 0
  Keeps m = (w : W) → P w → P (m w).1

  pub bind-Keeps :
      {A B : Type 0} (m : Action W A) (k : A → Action W B)
      → Keeps m
      → ((a : A) → Keeps (k a))
      → Keeps (m >>= k)
  bind-Keeps {A} {B} m k hm hk w p = after (m w) (hm w p)
    where
      after : (r : Result A × W) → P r.1 → P (((λ (v : W). r) >>= k) w).1
      after (ok a, v) q = hk a v q
      after (failed message, v) q = q

  pub context-Keeps :
      {A : Type 0} (message : String) (m : Action W A) → Keeps m → Keeps (context message m)
  context-Keeps {A} message m hm w p = after (m w) (hm w p)
    where
      after : (r : Result A × W) → P r.1 → P (context message (λ (v : W). r) w).1
      after (ok a, v) q = q
      after (failed reason, v) q = q

  -- a call of the client, and the rest
  pub call-Keeps :
      {A B : Type 0} (message : String) (m : Action W A) (k : A → Action W B)
      → Keeps m
      → ((a : A) → Keeps (k a))
      → Keeps (context message m >>= k)
  call-Keeps message m k hm hk = bind-Keeps (context message m) k (context-Keeps message m hm) hk

  pub if-Keeps :
      {A : Type 0} (b : Bool) (m n : Action W A) → Keeps m → Keeps n → Keeps (if b then m else n)
  if-Keeps true m n hm hn = hm
  if-Keeps false m n hm hn = hn
