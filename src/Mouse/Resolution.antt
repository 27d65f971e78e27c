-- ===== src/Mouse/Resolution.antt =====
-- The setting of the resolution.
use unnamed_os.Base.{ℕ, zero, suc, ◌^◌, ◌<◌, ◌≡◌, refl, [], ◌∷◌, arith}
use unnamed_os.Mouse.{resolution, log_loop}

-- A resolution that the mouse knows is sent as its exponent, but the result is 0, as it is for one
-- that the mouse does not know, because the loop has shifted the argument away.
resolution-result : (status : ℕ × ℕ) (k : ℕ) → k < 4 → resolution status (2 ^ k) ≡ (0, 232 ∷ k ∷ [])
unfolding resolution log_loop
resolution-result status zero h = refl
resolution-result status (suc zero) h = refl
resolution-result status (suc (suc zero)) h = refl
resolution-result status (suc (suc (suc zero))) h = refl
resolution-result status (suc (suc (suc (suc k)))) h = absurd (omega arith)
