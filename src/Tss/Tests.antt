-- ===== src/Tss/Tests.antt =====
-- Two threads take a slot, the owner discards the key, and both slots are released.
use udipe.Prelude.{ℕ, ◌+◌, ◌^◌, ◌≡◌, refl, Bool, true, false, some, arith}
use udipe.Tss.{
  refcounted_tss_create_slot, refcounted_tss_acquire, refcounted_tss_release,
  refcounted_tss_discard,
}
use udipe.Tss.Sharing.{
  Shared, fresh, Steps, none_left, then_step, creates, releases, discards, IsShared, Steps-IsShared,
  refcounted_tss_acquire-existing,
}

abbrev at : ℕ → ℕ → Bool → ℕ → Shared
at count slots reachable deletions = record {
  count = count;
  slots = slots;
  reachable = reachable;
  deletions = deletions;
}

two_slots : Steps fresh (at (2 ^ 63 + 2) 2 true 0)
unfolding refcounted_tss_create_slot
two_slots =
    then_step (then_step none_left (creates 8 (2 ^ 63 + 1) refl refl))
      (creates 16 (2 ^ 63 + 2) refl refl)

one_slot_left : Steps fresh (at 1 1 false 0)
unfolding refcounted_tss_release refcounted_tss_discard
one_slot_left =
    then_step (then_step two_slots (discards 2 false refl refl)) (releases 1 1 false refl refl)

all_gone : Steps fresh (at 0 0 false 1)
unfolding refcounted_tss_release
all_gone = then_step one_slot_left (releases 0 0 true refl refl)

Steps-IsShared_example : IsShared (at 0 0 false 1)
Steps-IsShared_example = Steps-IsShared all_gone

refcounted_tss_acquire-existing_example : refcounted_tss_acquire 8 true 16 1 ≡ some (16, 1)
refcounted_tss_acquire-existing_example = refcounted_tss_acquire-existing 8 16 1 true (omega arith)
