-- ===== src/Server/Invariant/Groups.antt =====
-- recomputeGroupCountsLocked of cmd/test-server/state.go, and the indexes of the groups.
use baton_tenable_vm.Prelude.{
  List, String, [], arith, contains, if◌then◌else◌, length, nat_eq_iff, pos, put, refl, string_eq,
  ℕ, ℕ_eq, ℤ_eq, ◌∷◌, ◌≡◌,
}
use baton_tenable_vm.Server.Types.{Group}
use baton_tenable_vm.Server.State.{State, count_members, recompute_group_counts_locked}
use baton_tenable_vm.Server.Invariant.{GroupsIndexed}

-- A group with its count brought up to date.
abbrev pub counted_group : (String → List String) → Group → Group
counted_group members g = record g { user_count = pos (length (members g.uuid)) }

-- The loop recounts the listed groups, each once or more often, and leaves the others alone.
pub count_members_lem :
    (members : String → List String) (gs : List ℕ) (at_ : ℕ → Group) (g : ℕ)
    → count_members members gs at_ g
      ≡ (if contains gs g then counted_group members (at_ g) else at_ g)
unfolding count_members contains put
count_members_lem members [] at_ g = refl
count_members_lem members (h ∷ gs) at_ g =
    rw (count_members_lem members gs (put at_ h (counted_group members (at_ h))) g)
      (ground (arith, nat_eq_iff h g))

-- Recounting restores the counts, whatever happened to the members.
pub recompute-GroupsIndexed :
    (s t : State)
    → t.groups_by_id ≡ s.groups_by_id
    → t.group_list ≡ s.group_list
    → t.group_at ≡ s.group_at
    → GroupsIndexed s
    → GroupsIndexed (recompute_group_counts_locked t)
unfolding recompute_group_counts_locked
recompute-GroupsIndexed s t same_ids same_list same_at h = record {
  by_id = λ id g e. ground (
    arith,
    h.by_id id g,
    count_members_lem t.group_members t.group_list t.group_at g,
    same_ids,
    same_list,
    same_at,
  );
  listed = λ g e. ground (
    arith,
    h.listed g,
    count_members_lem t.group_members t.group_list t.group_at g,
    same_ids,
    same_list,
    same_at,
  );
  fixed = λ g e same. ground (
    arith,
    h.fixed g,
    count_members_lem t.group_members t.group_list t.group_at g,
    same_ids,
    same_list,
    same_at,
  );
  counted = λ g e. ground (
    arith,
    h.counted g,
    count_members_lem t.group_members t.group_list t.group_at g,
    same_ids,
    same_list,
    same_at,
  );
}
