-- ===== src/Server/Invariant/Numbers.antt =====
-- The numbers and uuids that CreateUser of cmd/test-server/state.go gives.
use baton_tenable_vm.Prelude.{
  Bool-cases, String, arith, beq→eq, inl, inr, int_eq_iff, none, pos, put, refl, some, string_eq, ℕ,
  ℕ_eq, ℤ, ℤ_eq, ◌+◌, ◌<◌, ◌==◌, ◌^◌, ◌∙◌, ◌≡◌,
}
use baton_tenable_vm.Server.Types.{User}
use baton_tenable_vm.Server.Uuid.{format_uuid}
use baton_tenable_vm.Server.Uuid.Laws.{format_uuid_injective}
use baton_tenable_vm.Server.State.{State, recompute_group_counts_locked}
use baton_tenable_vm.Server.State.Users.{insert_user, remove_user}
use baton_tenable_vm.Server.Invariant.{NumbersFresh}

-- A method that leaves the counter alone and enters no user.
pub shrink-NumbersFresh :
    (s t : State)
    → t.next_user_id ≡ s.next_user_id
    → ((id : ℤ) → s.users_by_id id ≡ none → t.users_by_id id ≡ none)
    → ((uuid : String) → s.users uuid ≡ none → t.users uuid ≡ none)
    → NumbersFresh s
    → NumbersFresh t
shrink-NumbersFresh s t same ids uuids h = record {
  last = h.last;
  counter = same ∙ h.counter;
  free_id = λ n lt. ids (pos n) (h.free_id n lt);
  free_uuid = λ n uuid lt small e. uuids uuid (h.free_uuid n uuid lt small e);
}

-- The user that gets the next number.
pub insert_user-NumbersFresh :
    (s : State) (user : User) (h : NumbersFresh s)
    → h.last + 1 < 2 ^ 48
    → user.id ≡ pos (h.last + 1)
    → format_uuid (pos (h.last + 1)) ≡ some user.uuid
    → NumbersFresh (insert_user (record s { next_user_id = user.id }) user)
unfolding insert_user put recompute_group_counts_locked
insert_user-NumbersFresh s user h small numbered named = record {
  last = h.last + 1;
  counter = numbered;
  free_id = λ n lt. ground (arith, h.free_id n, int_eq_iff user.id (pos n));
  free_uuid = λ n uuid lt below e. elim (Bool-cases (user.uuid == uuid)) [
    | inl same ↦ absurd (
        omega (
          arith,
          format_uuid_injective (h.last + 1) n small below named
              (rw (beq→eq user.uuid uuid same) e),
        ))
    | inr other ↦ rw (other, put) (h.free_uuid n uuid (omega arith) below e)
  ];
}

pub remove_user-NumbersFresh :
    (s : State) (id : ℤ) (u : ℕ) → NumbersFresh s → NumbersFresh (remove_user s id u)
unfolding remove_user put recompute_group_counts_locked
remove_user-NumbersFresh s id u h =
    shrink-NumbersFresh s _ refl (λ i e. ground (arith, e)) (λ uuid e. ground (arith, e)) h
