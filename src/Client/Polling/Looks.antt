-- ===== src/Client/Polling/Looks.antt =====
-- `IsInitialized` of client/client.go: its looks at the client.
use mathlib.Core.Logic.{◌↔◌}
use ff_golang_server_sdk.Common.{
  ℕ, zero, suc, ◌<◌, ◌≡◌, refl, Bool, true, false, arith, Bool-cases, inl, inr,
}
use ff_golang_server_sdk.Common.Run.{ok}
use ff_golang_server_sdk.Client.Polling.{look, is_initialized}

look_iff :
    (looks : ℕ) (seen : ℕ → Bool)
    → (look looks seen ≡ ok true) ↔ ((n : ℕ) × (n < looks) × (seen n ≡ true))
unfolding look
look_iff zero seen = (λ h. cc, λ (n, low, h). absurd (omega (arith, low)))
look_iff (suc looks) seen = elim (Bool-cases (seen 0)) [
  | inl e ↦ (λ h. (0, omega arith, e), λ h. rw e refl)
  | inr e ↦
      let later = look_iff looks (λ n. seen (suc n)) in
      (
        λ h. let (n, low, k) = later.0 (rw e at h) in (suc n, omega (arith, low), k),
        λ (n, low, k). rw e (later.1 (before n low k e)),
      )
]
  where
    before :
        (n : ℕ)
        → n < suc looks
        → seen n ≡ true
        → seen 0 ≡ false
        → (m : ℕ) × (m < looks) × (seen (suc m) ≡ true)
    before zero low k e = cc (k, e)
    before (suc n) low k e = (n, omega (arith, low), k)

-- `IsInitialized` answers true exactly when one of its 30 looks finds the client initialized.
pub is_initialized_iff :
    (seen : ℕ → Bool) → (is_initialized seen ≡ ok true) ↔ ((n : ℕ) × (n < 30) × (seen n ≡ true))
unfolding is_initialized
is_initialized_iff seen = look_iff 30 seen
