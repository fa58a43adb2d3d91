-- ===== src/Core/Epoch.antt =====
-- nymora-core/src/epoch.rs: the epoch is a `u64`, and rollover is checked.
use nymora.Prelude.{ℕ, ◌+◌, ◌-◌, ◌^◌, Option, none, some, ltb, if◌then◌else◌}

-- `u64::MAX`
abbrev pub u64_max : ℕ
u64_max = 2 ^ 64 - 1

-- `Epoch::next`, a `checked_add(1)`.
unfoldable pub next : ℕ → Option ℕ
next e = if ltb e u64_max then some (e + 1) else none
