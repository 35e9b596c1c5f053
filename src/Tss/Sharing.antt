-- ===== src/Tss/Sharing.antt =====
-- Any number of threads that share one key, in any order of their steps.
use udipe.Prelude.{
  ℕ, bit_or, ◌+◌, ◌-◌, ◌%◌, ◌^◌, ◌<◌, ◌≡◌, ◌≢◌, ap, refl, Bool, true, false, not, ◌&&◌, some, arith,
  ◌==◌, if◌then◌else◌,
}
use udipe.Tss.{
  refcounted_tss_reachable, refcounted_tss_create_slot, refcounted_tss_release,
  refcounted_tss_discard, refcounted_tss_acquire,
}
use udipe.Words.Bit.{test_bit, test_bit-or, test_bit-zero}

-- The counter, the slots that threads hold, whether the owner can still reach the key, and how often
-- the key was deleted.
pub record Shared : Type 0 where
  pub count : ℕ
  pub slots : ℕ
  pub reachable : Bool
  pub deletions : ℕ

abbrev pub one_if : Bool → ℕ
one_if b = if b then 1 else 0

-- A new key.
abbrev pub fresh : Shared
fresh = record { count = refcounted_tss_reachable; slots = 0; reachable = true; deletions = 0 }

-- One call of one thread. Slots are created while the owner can reach the key, which it discards
-- once, and each slot is released once.
pub data Step : Shared → Shared → Type 0 where
  creates :
      {s : Shared} (object count : ℕ)
      → s.reachable ≡ true
      → refcounted_tss_create_slot object true 0 s.count ≡ some (object, count)
      → Step s (record s { count = count; slots = s.slots + 1 })
  releases :
      {s : Shared} (n count : ℕ) (deleted : Bool)
      → s.slots ≡ n + 1
      → refcounted_tss_release 0 s.count ≡ some (deleted, count)
      → Step s (record s { count = count; slots = n; deletions = s.deletions + one_if deleted })
  discards :
      {s : Shared} (count : ℕ) (deleted : Bool)
      → s.reachable ≡ true
      → refcounted_tss_discard s.count ≡ some (deleted, count)
      → Step s
          (record s { count = count; reachable = false; deletions = s.deletions + one_if deleted })

pub data Steps : Shared → Shared → Type 0 where
  none_left : {s : Shared} → Steps s s
  then_step : {s t u : Shared} → Steps s t → Step t u → Steps s u

-- The counter is the number of slots with the reachability bit, and the key was deleted once where
-- nobody is left to use it, and not at all before.
pub record IsShared (s : Shared) : Type 0 where
  pub few : s.slots < 2 ^ 63
  pub counted : s.count ≡ s.slots + (if s.reachable then 2 ^ 63 else 0)
  pub deleted : s.deletions ≡ one_if (s.slots == 0 && not s.reachable)

Step-IsShared : {s t : Shared} → IsShared s → Step s t → IsShared t
unfolding refcounted_tss_create_slot refcounted_tss_release refcounted_tss_discard
Step-IsShared {s} {t} v (creates object count r e) = ground arith
Step-IsShared {s} {t} v (releases n count d p e) = ground arith
Step-IsShared {s} {t} v (discards count d r e) = ground arith

-- However the calls interleave, the counter of a new key counts its slots, and the key is deleted
-- exactly once: by the call after which no slot is left and the owner has discarded it.
pub Steps-IsShared : {s : Shared} → Steps fresh s → IsShared s
Steps-IsShared none_left = record { few = omega arith; counted = refl; deleted = refl }
Steps-IsShared (then_step steps step) = Step-IsShared (Steps-IsShared steps) step

-- However the calls interleave, a thread that holds a slot can release it: the assertions pass, and
-- the call reports a deletion exactly where it is the last use of a key that was discarded.
pub Steps-can_release :
    {s : Shared} (n : ℕ)
    → Steps fresh s
    → s.slots ≡ n + 1
    → (count : ℕ) × (refcounted_tss_release 0 s.count ≡ some (n == 0 && not s.reachable, count))
unfolding refcounted_tss_release
Steps-can_release {s} n steps p =
    let v = Steps-IsShared steps in
    ((s.count + 2 ^ 64 - 1) % 2 ^ 64, ground (arith, v.counted, v.few))

-- However the calls interleave, the owner can discard a key that it has not discarded yet: the
-- assertion passes, and the call reports a deletion exactly where no slot is left.
pub Steps-can_discard :
    {s : Shared}
    → Steps fresh s
    → s.reachable ≡ true
    → refcounted_tss_discard s.count ≡ some (s.slots == 0, s.slots)
unfolding refcounted_tss_discard
Steps-can_discard {s} steps r = let v = Steps-IsShared steps in ground (arith, v.counted, v.few)

-- The assertion of refcounted_tss_acquire() and refcounted_tss_write() joins the reachability bit to
-- the counter, where the message is about its presence: it passes for every counter.
or_reachable : (count : ℕ) → bit_or count refcounted_tss_reachable ≢ 0
or_reachable count z =
    let top = test_bit-or count refcounted_tss_reachable 63 in
    let none_set = ap (λ x. test_bit x 63) z in ground (arith, test_bit-zero 63)

-- refcounted_tss_acquire() returns an existing slot whatever the counter is, also that of a key
-- which its owner has discarded.
pub refcounted_tss_acquire-existing :
    (object slot count : ℕ) (stored : Bool)
    → slot ≢ 0
    → refcounted_tss_acquire object stored slot count ≡ some (slot, count)
unfolding refcounted_tss_acquire
refcounted_tss_acquire-existing object slot count stored h = ground (arith, or_reachable count)
