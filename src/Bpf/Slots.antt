-- ===== src/Bpf/Slots.antt =====
-- The numbers of bpf/common.bpf.h: slots are in range, and the count of open records does not wrap.
use ntprof.Prelude.{ℕ, ◌+◌, ◌<◌, ◌^◌, ◌≡◌, arith}
use ntprof.Bpf.Common.{rec_slots, ntp_slot, inc64, dec64}

pub ntp_slot-lt : (addr : ℕ) → ntp_slot addr rec_slots < rec_slots
unfolding ntp_slot
ntp_slot-lt addr = grind arith

pub inc64-small : (n : ℕ) → n < 2 ^ 63 → inc64 n ≡ n + 1
inc64-small n h = omega arith

pub dec64-small : (n : ℕ) → 0 < n → n < 2 ^ 63 → dec64 n + 1 ≡ n
dec64-small n p h = omega arith
