-- ===== src/DeviceTree/Property/Align.antt =====
-- The loop that aligns the cursor, exactly.
use charcoalos.DeviceTree.Property.{align_loop, align}
use charcoalos.Prelude.{ℕ, ◌+◌, ◌-◌, ◌%◌, ◌^◌, ◌<◌, ◌≡◌, arith}

-- How far the next multiple of four is.
abbrev pub gap : ℕ → ℕ
gap n = (4 - n % 4) % 4

pub align-gap : (c : ℕ) → c + 3 < 2 ^ 64 → align c ≡ c + gap c
unfolding align align_loop
align-gap c h = ground arith
